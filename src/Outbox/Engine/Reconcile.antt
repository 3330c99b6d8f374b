-- ===== src/Outbox/Engine/Reconcile.antt =====
-- Which channels have a worker and which spools are kept.
use hubbub.Common.{
  Bool, true, not, ◌&&◌, ◌||◌, List, [], ◌∷◌, some, inl, inr, ◌≡◌, refl, ap, ◌∙◌, arith, Bool-cases,
  Option-cases,
}
use hubbub.Common.Bytes.{Bytes, equal, equal_iff, equal_refl}
use hubbub.Common.Assoc.{bytes_eq, lookup, insert, remove, has, has-insert, lookup-insert}
use hubbub.Config.{safe_spool_name}
use hubbub.Outbox.Spool.{Dir}
use hubbub.Outbox.Worker.{new_worker}
use hubbub.Outbox.Engine.{
  ChannelRuntime, Wanted, Workers, Engine, make_dir, start_worker, want_of, is_running_wanted,
  retire, start_one, start_all, reconcile,
}

-- A channel stands under its own id; and a worker runs for an enabled channel with a safe name whose
-- spool directory is there, unless it is one that has gone.
pub record IsReconciled {A : Type 0} (gone : Bytes → Bool) (e : Engine A) : Type 0 where
  pub named : (id : Bytes) (ch : ChannelRuntime A) → lookup id e.wanted ≡ some ch → ch.id ≡ id
  pub running :
      (id : Bytes)
      → has id e.workers ≡ true
      → (is_running_wanted e.wanted id ≡ true)
        × (safe_spool_name id ≡ true)
        × (has id e.spools || gone id ≡ true)

pub has-make_dir :
    (j id : Bytes) (spools : List (Bytes × Dir))
    → has j (make_dir id spools) ≡ (equal id j || has j spools)
has-make_dir j id spools = ground (arith, has-insert j id [] spools, equal_iff id j)

module _ {A : Type 0} where
  pub IsReconciled-start_worker :
      {gone : Bytes → Bool} (init_fails : Bytes → Bool) (ch : ChannelRuntime A) (e : Engine A)
      → IsReconciled gone e
      → is_running_wanted e.wanted ch.id ≡ true
      → IsReconciled gone (start_worker init_fails ch e).1
  unfolding start_worker
  IsReconciled-start_worker init_fails ch e v on =
      elim (Bool-cases (not (safe_spool_name ch.id) || init_fails ch.id)) [
        | inl f ↦ rw f v
        | inr f ↦ rw f (record {
          named = v.named;
          running = λ id r.
              let one : equal ch.id id || has id e.workers ≡ true = ground (
                arith,
                r,
                has-insert id ch.id
                    (record { worker = new_worker ch.id e.opts; adapter = ch.adapter }) e.workers,
              ) in
              ground (
                arith,
                one,
                on,
                f,
                v.running id,
                has-make_dir id ch.id e.spools,
                equal_iff ch.id id,
              );
        })
      ]

  pub IsReconciled-start_one :
      {gone : Bytes → Bool} (init_fails : Bytes → Bool) (ch : ChannelRuntime A) (errs : List Bytes)
      (e : Engine A)
      → IsReconciled gone e
      → lookup ch.id e.wanted ≡ some ch
      → IsReconciled gone (start_one init_fails ch (errs, e)).1
  unfolding start_one
  IsReconciled-start_one init_fails ch errs e v at = elim (Bool-cases ch.enabled) [
    | inr off ↦ rw off v
    | inl on ↦ elim (Option-cases (lookup ch.id e.workers)) [
      | inl n ↦ rw (on, n) (IsReconciled-start_worker init_fails ch e v (ground (arith, on, at)))
      | inr (w, n) ↦
          rw (on, n)
            (record {
              named = v.named;
              running = λ id r.
                  let one : equal ch.id id || has id e.workers ≡ true =
                    ground (
                      arith,
                      r,
                      has-insert id ch.id (record w { adapter = ch.adapter }) e.workers,
                    ) in
                  ground (arith, one, v.running id, n, equal_iff ch.id id);
            })
    ]
  ]

  pub has-retire :
      (want : Wanted A) (ws : Workers A) (id : Bytes)
      → has id (retire want ws) ≡ (is_running_wanted want id && has id ws)
  unfolding retire lookup
  has-retire want [] id = ground arith
  has-retire want ((j, w) ∷ ws) id = ground (arith, has-retire want ws id, equal_iff j id)

  -- The keys of the wanted channels are their ids.
  unfoldable pub NamesWanted : Wanted A → Type 0
  NamesWanted want = (id : Bytes) (ch : ChannelRuntime A) → lookup id want ≡ some ch → ch.id ≡ id

  pub want_of-names :
      (chs : List (ChannelRuntime A)) (want : Wanted A)
      → NamesWanted want
      → NamesWanted (want_of chs want)
  unfolding want_of NamesWanted
  want_of-names [] want v = v
  want_of-names (ch ∷ chs) want v =
      want_of-names chs (insert ch.id ch want)
        (λ id c h. ground (arith, h, v id c, lookup-insert id ch.id ch want, equal_iff ch.id id))

  pub start_one_wanted :
      (init_fails : Bytes → Bool) (ch : ChannelRuntime A) (errs : List Bytes) (e : Engine A)
      → (start_one init_fails ch (errs, e)).1.wanted ≡ e.wanted
  unfolding start_one start_worker
  start_one_wanted init_fails ch errs e = ground (arith, Option-cases (lookup ch.id e.workers))

  -- Each entry stands under its own id, and is what the whole map has there.
  unfoldable pub Stands : Wanted A → Wanted A → Type 0
  Stands want [] = Unit
  Stands want ((id, ch) ∷ more) = (ch.id ≡ id) × (lookup id want ≡ some ch) × Stands want more

  Stands-insert :
      (ch : ChannelRuntime A) (want more : Wanted A)
      → Stands want more
      → Stands (insert ch.id ch want) (remove ch.id more)
  unfolding Stands remove
  Stands-insert ch want [] s = tt
  Stands-insert ch want ((id, c) ∷ more) (n, l, s) = elim (Bool-cases (equal id ch.id)) [
    | inl e ↦ rw e (Stands-insert ch want more s)
    | inr e ↦ rw e (
      n,
      ground (arith, e, l, lookup-insert id ch.id ch want, equal_iff ch.id id, equal_iff id ch.id),
      Stands-insert ch want more s,
    )
  ]

  pub Stands-want_of :
      (chs : List (ChannelRuntime A)) (want : Wanted A)
      → Stands want want
      → Stands (want_of chs want) (want_of chs want)
  unfolding want_of
  Stands-want_of [] want s = s
  Stands-want_of (ch ∷ chs) want s = Stands-want_of chs (insert ch.id ch want) (
      unfold insert Stands in
      (
        refl,
        ground (arith, lookup-insert ch.id ch.id ch want, equal_refl ch.id),
        Stands-insert ch want want s,
      ))

  -- What the loop over the wanted channels keeps, from what each round keeps.
  IsReconciled-start_all :
      {gone : Bytes → Bool} (init_fails : Bytes → Bool) (more : Wanted A) (errs : List Bytes)
      (e : Engine A)
      → Stands e.wanted more
      → IsReconciled gone e
      → IsReconciled gone (start_all init_fails more (errs, e)).1
  unfolding start_all Stands
  IsReconciled-start_all init_fails [] errs e s v = v
  IsReconciled-start_all init_fails ((id, ch) ∷ more) errs e (n, l, s) v =
      let next = start_one init_fails ch (errs, e) in
      IsReconciled-start_all init_fails more next.0 next.1
        (rw (start_one_wanted init_fails ch errs e) s)
        (IsReconciled-start_one init_fails ch errs e v (ap (λ j. lookup j e.wanted) n ∙ l))

  pub IsReconciled-reconcile :
      {gone : Bytes → Bool} (init_fails : Bytes → Bool) (chs : List (ChannelRuntime A))
      (e : Engine A)
      → IsReconciled gone e
      → IsReconciled gone (reconcile init_fails chs e).1
  unfolding reconcile Stands NamesWanted
  IsReconciled-reconcile init_fails chs e v =
      IsReconciled-start_all init_fails (want_of chs []) []
        (record e { wanted = want_of chs []; workers = retire (want_of chs []) e.workers })
        (Stands-want_of chs [] tt)
        (record {
          named = want_of-names chs [] (λ id ch h. unfold lookup in ground (arith, h));
          running =
              λ id r. ground (arith, r, has-retire (want_of chs []) e.workers id, v.running id);
        })
