-- ===== src/Server/Dispatch/Keeps.antt =====
-- What `dispatch` does to the engine.
use hubbub.Common.{Bool, true, List, [], ◌∷◌, inl, inr, ◌≡◌, arith, Option-cases}
use hubbub.Common.Bytes.{Bytes, equal_refl, mem}
use hubbub.Common.{◌++◌}
use hubbub.Common.Bytes.{codes}
use hubbub.Common.Assoc.{bytes_eq, insert}
use hubbub.Config.Channels.{ChannelSet}
use hubbub.Notify.{Notification}
use hubbub.Outbox.Registry.{Registry, add, cancel}
use hubbub.Server.{Results, EngineOps}
use hubbub.Server.Dispatch.{Arrivals, is_live, pick, enqueue_all, Dispatched, dispatch_to, dispatch}
use hubbub.Server.Dispatch.Targets.{mem-pick}

module _ {S : Type 0} (ops : EngineOps S) (n : Notification) (test : Bool) (J : S → Type 0) where
  -- What every `Enqueue` for one of the channels keeps is kept.
  enqueue_all-keeps :
      (waiting : List Bytes) (registry : Registry) (st : S) (results : Results)
      → ((id : Bytes) (st : S) → mem id waiting ≡ true → J st → J (ops.enqueue n id test st).1)
      → J st
      → J (enqueue_all ops n test waiting registry st results).engine
  unfolding enqueue_all mem
  enqueue_all-keeps [] registry st results k j = j
  enqueue_all-keeps (id ∷ waiting) registry st results k j =
      let next = k id st (ground (arith, equal_refl id)) j in
      let kept : (x : Bytes) (st : S)
          → mem x waiting ≡ true
          → J st
          → J (ops.enqueue n x test st).1 =
        λ x st m. k x st (ground (arith, m)) in
      elim (Option-cases (ops.enqueue n id test st).0) [
        | inl e ↦
            rw (e, enqueue_all)
              (enqueue_all-keeps waiting registry (ops.enqueue n id test st).1 results kept next)
        | inr (err, e) ↦
            rw (e, enqueue_all)
              (enqueue_all-keeps waiting (cancel n.request_id (id ∷ []) registry)
                (ops.enqueue n id test st).1 (insert id (codes "failed: " ++ err) results) kept
                next)
      ]

  module _ {A : Type 0} (chs : ChannelSet A) where
    pub dispatch-keeps :
        (targets : List Bytes) (arrivals : Arrivals) (registry : Registry) (st : S)
        → ((id : Bytes) (st : S)
            → mem id targets ≡ true
            → is_live chs id ≡ true
            → J st
            → J (ops.enqueue n id test st).1)
        → J st
        → J (dispatch ops chs n targets test arrivals registry st).engine
    unfolding dispatch dispatch_to mem
    dispatch-keeps targets arrivals registry st k j =
        let (waiting, results) = pick chs targets [] [] in
        let kept : (x : Bytes) (st : S)
            → mem x (pick chs targets [] []).0 ≡ true
            → J st
            → J (ops.enqueue n x test st).1 =
          λ x st m.
            let (e, _, _) = mem-pick chs targets [] [] x in
            k x st (ground (arith, e, m)) (ground (arith, e, m)) in
        go (pick chs targets [] []).0 (pick chs targets [] []).1 kept
      where
        go :
            (waiting : List Bytes) (results : Results)
            → ((x : Bytes) (st : S) → mem x waiting ≡ true → J st → J (ops.enqueue n x test st).1)
            → J
                (elim waiting as (λ w. Dispatched S) [
                  | [] ↦ record { registry = registry; engine = st; results = results }
                  | id ∷ ids ↦ dispatch_to ops chs n test arrivals (id ∷ ids) registry st results
                ]).engine
        go [] results kept = j
        go (id ∷ ids) results kept =
            enqueue_all-keeps (id ∷ ids) (add n.request_id (id ∷ ids) registry).1 st results kept j
