-- ===== src/Server/Dispatch/Targets.antt =====
-- The channels that `dispatch` sends to, and the results that it reports.
use hubbub.Common.{
  ◌≤◌, Bool, true, false, not, ◌&&◌, List, [], ◌∷◌, ◌++◌, Option, none, some, inl, inr, ◌≡◌, refl,
  ap, ◌∙◌, arith, if◌then◌else◌, length, count_if, Bool-cases, Option-cases,
}
use hubbub.Common.Bytes.{Bytes, codes, equal, equal_iff, mem, mem-count_if}
use hubbub.Common.Assoc.{bytes_eq, lookup, insert, lookup-insert}
use hubbub.Config.Channels.{ChannelSet}
use hubbub.Notify.{Notification}
use hubbub.Outbox.Registry.{Registry, add, cancel}
use hubbub.Server.{Results, EngineOps}
use hubbub.Server.Dispatch.{
  Arrivals, is_live, pick, enqueue_all, collect, Dispatched, dispatch_to, dispatch,
}
use hubbub.Server.Dispatch.Collect.{find_status, is_of, or_else, lookup-collect, find_status-none}

-- What is left to wait for: the targets that are enabled, each once.
pub mem-pick :
    {A : Type 0} (chs : ChannelSet A) (ids seen : List Bytes) (results : Results) (x : Bytes)
    → (mem x (pick chs ids seen results).0 ≡ (mem x ids && not (mem x seen) && is_live chs x))
      × (count_if (equal x) (pick chs ids seen results).0 ≤ 1)
      × (lookup x (pick chs ids seen results).1 ≡ (
          if mem x ids && not (mem x seen) && not (is_live chs x)
          then some (codes "disabled")
          else lookup x results))
unfolding pick mem
mem-pick chs [] seen results x = ground arith
mem-pick chs (id ∷ ids) seen results x = elim (Bool-cases (mem id seen)) [
  | inl s ↦
      let (m, n, l) = mem-pick chs ids seen results x in ground (arith, s, m, n, l, equal_iff x id)
  | inr s ↦ elim (Bool-cases (is_live chs id)) [
    | inl e ↦
        let (m, n, l) = mem-pick chs ids (id ∷ seen) results x in
        ground (
          arith,
          s,
          e,
          m,
          n,
          l,
          equal_iff x id,
          mem-count_if x (pick chs ids (id ∷ seen) results).0,
        )
    | inr e ↦
        let (m, n, l) = mem-pick chs ids (id ∷ seen) (insert id (codes "disabled") results) x in
        ground (
          arith,
          s,
          e,
          m,
          n,
          l,
          equal_iff x id,
          equal_iff id x,
          lookup-insert x id (codes "disabled") results,
        )
  ]
]

-- The targets that are enabled, each where it is named first.
unfoldable pub to_enqueue : {A : Type 0} → ChannelSet A → List Bytes → List Bytes → List Bytes
to_enqueue chs [] seen = []
to_enqueue chs (id ∷ ids) seen =
    if mem id seen
    then to_enqueue chs ids seen
    else if is_live chs id
    then id ∷ to_enqueue chs ids (id ∷ seen)
    else to_enqueue chs ids (id ∷ seen)

pick_lem :
    {A : Type 0} (chs : ChannelSet A) (ids seen : List Bytes) (results : Results)
    → (pick chs ids seen results).0 ≡ to_enqueue chs ids seen
unfolding pick to_enqueue
pick_lem chs [] seen results = refl
pick_lem chs (id ∷ ids) seen results = elim (Bool-cases (mem id seen)) [
  | inl s ↦ ground (arith, s, pick_lem chs ids seen results)
  | inr s ↦ elim (Bool-cases (is_live chs id)) [
    | inl e ↦ ground (arith, s, e, pick_lem chs ids (id ∷ seen) results)
    | inr e ↦
        ground (arith, s, e, pick_lem chs ids (id ∷ seen) (insert id (codes "disabled") results))
  ]
]

count_if-true : (ids : List Bytes) → length ids ≡ count_if (λ x. true) ids
count_if-true [] = refl
count_if-true (id ∷ ids) = omega (arith, count_if-true ids)

abbrev pub is_none : Option Bytes → Bool
is_none none = true
is_none (some why) = false

-- The result so far of a channel that was called for.
abbrev pub so_far : Option Bytes → Option Bytes → Option Bytes
so_far none old = old
so_far (some why) old = some (codes "failed: " ++ why)

-- What is reported for a channel whose `Enqueue` answered this, with the status that arrived.
abbrev pub reported : Option Bytes → Option Bytes → Option Bytes
reported none status = or_else status (some (codes "queued"))
reported (some why) status = some (codes "failed: " ++ why)

module _ {S : Type 0} (ops : EngineOps S) where
  -- The error that the engine answers for a channel, if any, when it is called for these channels one
  -- after the other.
  unfoldable pub answer_to : Notification → Bool → Bytes → List Bytes → S → Option Bytes
  answer_to n test x [] st = none
  answer_to n test x (id ∷ ids) st =
      let rest = answer_to n test x ids (ops.enqueue n id test st).1 in
      if equal id x then (ops.enqueue n id test st).0 else rest

  -- A channel to wait for is enqueued on, or has its failure as its result.
  mem-enqueue_all :
      (n : Notification) (test : Bool) (waiting : List Bytes) (registry : Registry) (st : S)
      (results : Results) (x : Bytes)
      → count_if (equal x) waiting ≤ 1
      → let sent = enqueue_all ops n test waiting registry st results in
        (mem x sent.ids ≡ (mem x waiting && is_none (answer_to n test x waiting st)))
        × (lookup x sent.results ≡ (
            if mem x waiting
            then so_far (answer_to n test x waiting st) (lookup x results)
            else lookup x results))
        × (count_if (equal x) sent.ids ≤ count_if (equal x) waiting)
  unfolding enqueue_all mem answer_to
  mem-enqueue_all n test [] registry st results x d = (ground arith, ground arith, ground arith)
  mem-enqueue_all n test (id ∷ waiting) registry st results x d =
      elim (Option-cases (ops.enqueue n id test st).0) [
        | inl e ↦
            let (m, l, c) =
              mem-enqueue_all n test waiting registry (ops.enqueue n id test st).1 results x
                (ground (arith, d)) in
            (
              ground (arith, e, m, d, mem-count_if x waiting, equal_iff x id, equal_iff id x),
              ground (arith, e, l, d, mem-count_if x waiting, equal_iff x id, equal_iff id x),
              ground (arith, e, c),
            )
        | inr (err, e) ↦
            let next : Results = insert id (codes "failed: " ++ err) results in
            let (m, l, c) =
              mem-enqueue_all n test waiting (cancel n.request_id (id ∷ []) registry)
                (ops.enqueue n id test st).1 next x (ground (arith, d)) in
            let i = lookup-insert x id (codes "failed: " ++ err) results in
            (
              ground (arith, e, m, d, mem-count_if x waiting, equal_iff x id, equal_iff id x),
              ground (arith, e, l, d, i, mem-count_if x waiting, equal_iff x id, equal_iff id x),
              ground (arith, e, c),
            )
      ]

  module _ {A : Type 0} (chs : ChannelSet A) where
    -- The error that `Enqueue` answers for a channel of the call, if any.
    abbrev pub error_of : Notification → List Bytes → Bool → S → Bytes → Option Bytes
    error_of n targets test st x = answer_to n test x (to_enqueue chs targets []) st

    -- With nothing to wait for, the results are those so far.
    dispatch_waiting :
        (n : Notification) (test : Bool) (arrivals : Arrivals) (waiting : List Bytes)
        (registry : Registry) (st : S) (results : Results)
        → (elim waiting as (λ w. Dispatched S) [
          | [] ↦ record { registry = registry; engine = st; results = results }
          | id ∷ ids ↦ dispatch_to ops chs n test arrivals (id ∷ ids) registry st results
        ]).results
          ≡ (dispatch_to ops chs n test arrivals waiting registry st results).results
    unfolding dispatch_to enqueue_all collect
    dispatch_waiting n test arrivals [] registry st results = refl
    dispatch_waiting n test arrivals (id ∷ ids) registry st results = refl

    -- Where the outcomes that arrive are of enabled targets whose enqueue did not fail, at most one of
    -- each: every target has one result and nothing else has any. A target that is unknown or
    -- disabled reports "disabled", one for which the engine answered with an error that error, and any
    -- other one the status that arrived, or "queued" if none did, however often the target is named.
    pub dispatch-results :
        (n : Notification) (targets : List Bytes) (test : Bool) (arrivals : Arrivals)
        (registry : Registry) (st : S)
        → ((x : Bytes)
            → count_if (is_of x) (arrivals.before ++ arrivals.drained) ≤ (
                if mem x targets && is_live chs x && is_none (error_of n targets test st x)
                then 1
                else 0))
        → (x : Bytes)
        → lookup x (dispatch ops chs n targets test arrivals registry st).results ≡ (
            if not (mem x targets)
            then none
            else if not (is_live chs x)
            then some (codes "disabled")
            else reported
                (error_of n targets test st x)
                (find_status x (arrivals.before ++ arrivals.drained)))
    unfolding dispatch dispatch_to lookup mem
    dispatch-results n targets test arrivals registry st h x =
        let waiting = (pick chs targets [] []).0 in
        let results = (pick chs targets [] []).1 in
        let registered = (add n.request_id waiting registry).1 in
        let (m, d, l) = mem-pick chs targets [] [] x in
        let sent = enqueue_all ops n test waiting registered st results in
        let same : (y : Bytes) → answer_to n test y waiting st ≡ error_of n targets test st y =
          λ y. ap (λ w. answer_to n test y w st) (pick_lem chs targets [] []) in
        let at : (y : Bytes)
            → (mem y sent.ids
                ≡ (mem y targets && is_live chs y && is_none (error_of n targets test st y)))
              × (count_if (equal y) sent.ids ≤ 1) =
          λ y.
            let (my, dy, _) = mem-pick chs targets [] [] y in
            let (sy, _, cy) = mem-enqueue_all n test waiting registered st results y dy in
            (ground (arith, my, sy, same y), omega (arith, cy, dy)) in
        let (_, f, _) = mem-enqueue_all n test waiting registered st results x d in
        let final : lookup x
              (collect (length sent.ids) arrivals.before arrivals.drained sent.ids sent.results).1
            ≡ or_else (find_status x (arrivals.before ++ arrivals.drained)) (
                or_else (lookup x sent.results)
                  (if mem x sent.ids then some (codes "queued") else none)) =
          lookup-collect (length sent.ids) arrivals.before arrivals.drained sent.ids sent.results
            (λ y. false) (λ y. (at y).1) (count_if-true sent.ids) (λ y t. ground (arith, t))
            (λ y. ground (arith, h y, (at y).0)) x in
        ap (λ r. lookup x r) (dispatch_waiting n test arrivals waiting registry st results)
        ∙ ground (
          arith,
          final,
          f,
          l,
          m,
          h x,
          (at x).0,
          same x,
          Option-cases (error_of n targets test st x),
          find_status-none x (arrivals.before ++ arrivals.drained),
        )
