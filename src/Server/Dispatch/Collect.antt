-- ===== src/Server/Dispatch/Collect.antt =====
-- What the wait of `dispatch` makes of the outcomes.
use hubbub.Common.{
  ℕ, zero, suc, ◌+◌, ◌≤◌, Bool, true, false, not, ◌&&◌, ◌||◌, List, [], ◌∷◌, ◌++◌, Option, none,
  some, ◌≢◌, inl, inr, ◌≡◌, refl, sym, arith, if◌then◌else◌, count_if, Bool-cases, Option-cases,
}
use hubbub.Common.Bytes.{Bytes, codes, equal, equal_iff, equal_refl, mem, mem-count_if}
use hubbub.Common.Assoc.{bytes_eq, lookup, insert, lookup-insert}
use hubbub.Outbox.Registry.{Outcome}
use hubbub.Server.{Results}
use hubbub.Server.Dispatch.{record_all, queue_rest, collect}

-- The status that the outcomes give a channel.
unfoldable pub find_status : Bytes → List Outcome → Option Bytes
find_status x [] = none
find_status x (o ∷ os) = if equal o.channel x then some o.status else find_status x os

abbrev pub is_of : Bytes → Outcome → Bool
is_of x o = equal o.channel x

-- The first of two that there is.
abbrev pub or_else : Option Bytes → Option Bytes → Option Bytes
or_else none b = b
or_else (some a) b = some a

pub find_status-none :
    (x : Bytes) (os : List Outcome) → count_if (is_of x) os ≤ 0 → find_status x os ≡ none
unfolding find_status
find_status-none x [] h = refl
find_status-none x (o ∷ os) h = ground (arith, h, find_status-none x os)

lookup-record_all :
    (x : Bytes) (os : List Outcome) (results : Results)
    → count_if (is_of x) os ≤ 1
    → lookup x (record_all os results) ≡ or_else (find_status x os) (lookup x results)
unfolding record_all find_status
lookup-record_all x [] results h = refl
lookup-record_all x (o ∷ os) results h = ground (
  arith,
  h,
  lookup-record_all x os (insert o.channel o.status results),
  lookup-insert x o.channel o.status results,
  find_status-none x os,
)

lookup-queue_rest :
    (x : Bytes) (ids : List Bytes) (results : Results)
    → lookup x (queue_rest ids results)
      ≡ or_else (lookup x results) (if mem x ids then some (codes "queued") else none)
unfolding queue_rest mem
lookup-queue_rest x [] results = ground (arith, Option-cases (lookup x results))
lookup-queue_rest x (id ∷ ids) results = elim (Option-cases (lookup id results)) [
  | inl e ↦ ground (
    arith,
    e,
    lookup-queue_rest x ids (insert id (codes "queued") results),
    lookup-insert x id (codes "queued") results,
    equal_iff id x,
    equal_iff x id,
    Option-cases (lookup x results),
  )
  | inr (v, e) ↦ ground (
    arith,
    e,
    lookup-queue_rest x ids results,
    equal_iff id x,
    equal_iff x id,
    Option-cases (lookup x results),
  )
]

-- One element less is left when it is taken out.
count_if-without :
    (p : Bytes → Bool) (c : Bytes) (ids : List Bytes)
    → count_if (equal c) ids ≤ 1
    → count_if p ids
      ≡ count_if (λ x. p x && not (equal c x)) ids + (if p c && mem c ids then 1 else 0)
unfolding mem
count_if-without p c [] h = ground arith
count_if-without p c (x ∷ ids) h =
    ground (arith, h, count_if-without p c ids, equal_iff c x, mem-count_if c ids)

none_left :
    (p : Bytes → Bool) (x : Bytes) (ids : List Bytes)
    → count_if p ids ≡ 0
    → mem x ids ≡ true
    → p x ≡ false
unfolding mem
none_left p x [] h m = ground (arith, m)
none_left p x (y ∷ ids) h m = ground (arith, h, m, equal_iff x y, none_left p x ids)

-- The wait ends with the statuses that arrived, and "queued" for the rest; `answered` tells for which
-- channels one has arrived so far.
pub lookup-collect :
    (pending : ℕ) (before drained : List Outcome) (ids : List Bytes) (results : Results)
    (answered : Bytes → Bool)
    → ((x : Bytes) → count_if (equal x) ids ≤ 1)
    → pending ≡ count_if (λ x. not (answered x)) ids
    → ((x : Bytes) → answered x ≡ true → lookup x results ≢ none)
    → ((x : Bytes)
        → count_if (is_of x) (before ++ drained) ≤ (if mem x ids && not (answered x) then 1 else 0))
    → (x : Bytes)
    → lookup x (collect pending before drained ids results).1
      ≡ or_else
          (find_status x (before ++ drained))
          (or_else (lookup x results) (if mem x ids then some (codes "queued") else none))
unfolding collect find_status
lookup-collect zero before drained ids results answered d n a c x = elim (Bool-cases (mem x ids)) [
  | inl m ↦
      let had : answered x ≡ true =
        ground (arith, n, none_left (λ y. not (answered y)) x ids (sym n) m) in
      ground (
        arith,
        m,
        a x had,
        find_status-none x (before ++ drained) (ground (arith, c x, m, had)),
        Option-cases (lookup x results),
      )
  | inr m ↦ ground (
    arith,
    m,
    find_status-none x (before ++ drained) (ground (arith, c x, m)),
    Option-cases (lookup x results),
  )
]
lookup-collect (suc pending) [] drained ids results answered d n a c x = ground (
  arith,
  c x,
  lookup-queue_rest x ids (record_all drained results),
  lookup-record_all x drained results,
)
lookup-collect (suc pending) (o ∷ before) drained ids results answered d n a c x =
    let k = o.channel in
    let one : mem k ids && not (answered k) ≡ true = ground (arith, c k, equal_refl k) in
    let rest : lookup x (collect pending before drained ids (insert k o.status results)).1
        ≡ or_else (find_status x (before ++ drained)) (
            or_else (lookup x (insert k o.status results))
              (if mem x ids then some (codes "queued") else none)) =
      lookup-collect pending before drained ids (insert k o.status results)
        (λ y. answered y || equal k y) d
        (ground (arith, n, one, count_if-without (λ y. not (answered y)) k ids (d k)))
        (λ y t f. ground (arith, t, f, a y, lookup-insert y k o.status results))
        (λ y. ground (arith, c y, one, equal_iff k y)) x in
    ground (
      arith,
      rest,
      c x,
      one,
      lookup-insert x k o.status results,
      equal_iff k x,
      find_status-none x (before ++ drained),
    )
