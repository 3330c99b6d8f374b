-- ===== src/Outbox/Engine/Kept.antt =====
-- What a new set of channels does to the engine: its workers and its spools.
use hubbub.Common.{
  Bool, false, not, ◌&&◌, ◌||◌, List, [], ◌∷◌, inl, inr, ◌≡◌, refl, ◌∙◌, arith, ◌==◌, length,
  Bool-cases, Option-cases,
}
use hubbub.Common.Bytes.{Bytes, equal}
use hubbub.Common.Assoc.{bytes_eq, lookup, insert, lookup-insert, lookup-remove}
use hubbub.Config.{safe_spool_name}
use hubbub.Outbox.Spool.{list}
use hubbub.Outbox.Worker.Sweep.{SweepFaults, purge_spool}
use hubbub.Outbox.Engine.{Wanted, Engine, shared_of, start_one, start_all, purge_channel}
use hubbub.Outbox.Engine.Reconcile.{start_one_wanted}

-- Two states of the engine with the same channels and workers, where only one spool may differ.
pub record IsBeside {A : Type 0} (id : Bytes) (e after : Engine A) : Type 0 where
  pub same_wanted : after.wanted ≡ e.wanted
  pub same_workers : after.workers ≡ e.workers
  pub same_spools : (j : Bytes) → equal id j ≡ false → lookup j after.spools ≡ lookup j e.spools

-- Whether a channel may have a worker started.
abbrev pub can_start : (Bytes → Bool) → Bytes → Bool
can_start init_fails id = safe_spool_name id && not (init_fails id)

module _ {A : Type 0} where
  pub purge_channel-IsBeside :
      (io : SweepFaults) (remove_fails : Bool) (id : Bytes) (e : Engine A)
      → IsBeside id e (purge_channel io remove_fails id e)
  unfolding purge_channel
  purge_channel-IsBeside io remove_fails id e = elim (Option-cases (lookup id e.spools)) [
    | inl n ↦
        rw (n, purge_channel)
          (record { same_wanted = refl; same_workers = refl; same_spools = λ j h. refl })
    | inr (d, n) ↦ elim (Option-cases (list io.list_fails d)) [
      | inl l ↦
          rw (n, l, purge_channel)
            (record { same_wanted = refl; same_workers = refl; same_spools = λ j h. refl })
      | inr (names, l) ↦
          let s = purge_spool io id (shared_of id e) in
          record {
            same_wanted =
                ground (arith, n, l, Bool-cases (remove_fails || not (length s.dir == 0)));
            same_workers =
                ground (arith, n, l, Bool-cases (remove_fails || not (length s.dir == 0)));
            same_spools = λ j h. ground (
              arith,
              n,
              l,
              h,
              lookup-insert j id s.dir e.spools,
              lookup-remove j id (insert id s.dir e.spools),
              Bool-cases (remove_fails || not (length s.dir == 0)),
            );
          }
    ]
  ]

  start_all_wanted :
      (init_fails : Bytes → Bool) (more : Wanted A) (errs : List Bytes) (e : Engine A)
      → (start_all init_fails more (errs, e)).1.wanted ≡ e.wanted
  unfolding start_all
  start_all_wanted init_fails [] errs e = refl
  start_all_wanted init_fails ((id, ch) ∷ more) errs e =
      let next = start_one init_fails ch (errs, e) in
      start_all_wanted init_fails more next.0 next.1 ∙ start_one_wanted init_fails ch errs e
