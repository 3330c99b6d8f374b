-- ===== src/Outbox/Engine/Events.antt =====
-- The engine under its operations in any order. What one part of an operation decides under the lock
-- and does outside of it are events of their own, so others may come between them: the purges and
-- sweeps take channels that were chosen at any time before.
use hubbub.Common.{
  ℕ, Bool, true, false, not, ◌&&◌, ◌||◌, ◌⊎◌, if◌then◌else◌, List, [], ◌∷◌, inl, inr, ◌≡◌, refl,
  sym, ap, ◌∙◌, arith, Bool-cases, Option-cases,
}
use hubbub.Common.Bytes.{Bytes, equal, equal_iff}
use hubbub.Common.Assoc.{bytes_eq, lookup, has, has-insert}
use hubbub.Config.{safe_spool_name}
use hubbub.Notify.{Notification}
use hubbub.Outbox.Spool.{Dir}
use hubbub.Outbox.Registry.{Registry}
use hubbub.Outbox.Settle.{Shared}
use hubbub.Outbox.Worker.{Options, EnqueueFaults, enqueue}
use hubbub.Outbox.Worker.Sweep.{SweepFaults, expire_spool}
use hubbub.Outbox.Engine.{
  ChannelRuntime, Running, Wanted, Engine, shared_of, with_shared, start_worker, is_running_wanted,
  reconcile, purge_channel, purge_orphans, reap, find_worker, spool_item, shutdown, new_engine,
}
use hubbub.Outbox.Engine.Reconcile.{IsReconciled, IsReconciled-reconcile, IsReconciled-start_worker}
use hubbub.Outbox.Engine.Kept.{purge_channel-IsBeside}

pub data Event (A : Type 0) : Type 0 where
  reconciles : (Bytes → Bool) → List (ChannelRuntime A) → Event A
  purges : SweepFaults → Bool → Bytes → Event A
  finds : (Bytes → Bool) → Bytes → Event A
  spools_item : EnqueueFaults → Notification → Bool → ℕ → ℕ → Bytes → Running A → Event A
  reaps : (Bytes → SweepFaults) → (Bytes → Bytes → ℕ) → Wanted A → Event A
  shuts_down : Event A

unfoldable pub after_event : {A : Type 0} → Event A → Engine A → Engine A
after_event (reconciles init_fails chs) e = (reconcile init_fails chs e).1
after_event (purges io remove_fails id) e = purge_channel io remove_fails id e
after_event (finds init_fails id) e = (find_worker init_fails id e).1
after_event (spools_item io n test now later id w) e = (spool_item io n test now later id w e).1
after_event (reaps io now want) e = reap io now want e
after_event shuts_down e = shutdown e

unfoldable pub after_events : {A : Type 0} → List (Event A) → Engine A → Engine A
after_events [] e = e
after_events (ev ∷ evs) e = after_events evs (after_event ev e)

-- The event is a purge of the channel, which is configured all the same.
abbrev pub is_overtaken : {A : Type 0} → Bytes → Event A → Engine A → Bool
is_overtaken id (purges io remove_fails j) e = equal j id && has id e.wanted
is_overtaken id _ e = false

-- One of the events is such a purge.
unfoldable pub overtaken : {A : Type 0} → Bytes → List (Event A) → Engine A → Bool
overtaken id [] e = false
overtaken id (ev ∷ evs) e = is_overtaken id ev e || overtaken id evs (after_event ev e)

module _ {A : Type 0} where
  IsReconciled-with_shared :
      {gone : Bytes → Bool} (id : Bytes) (s : Shared) (e : Engine A)
      → IsReconciled gone e
      → IsReconciled gone (with_shared id s e)
  IsReconciled-with_shared id s e v = record {
    named = v.named;
    running = λ j r. ground (arith, v.running j r, has-insert j id s.dir e.spools);
  }

  IsReconciled-find_worker :
      {gone : Bytes → Bool} (init_fails : Bytes → Bool) (id : Bytes) (e : Engine A)
      → IsReconciled gone e
      → IsReconciled gone (find_worker init_fails id e).1
  unfolding find_worker start_worker
  IsReconciled-find_worker init_fails id e v = elim (Option-cases (lookup id e.workers)) [
    | inr (w, n) ↦ rw (n, find_worker) v
    | inl n ↦ elim (Option-cases (lookup id e.wanted)) [
      | inl m ↦ rw (n, m, find_worker) v
      | inr (ch, m) ↦ elim (Bool-cases ch.enabled) [
        | inr off ↦ rw (n, m, off, find_worker) v
        | inl on ↦
            rw (n, m, on, find_worker)
              (IsReconciled-start_worker init_fails ch e v (ground (arith, m, on, v.named id ch m)))
      ]
    ]
  ]

  -- A step that starts no worker, removes no spool and leaves the wanted channels.
  IsReconciled-steady :
      {gone : Bytes → Bool} (e after : Engine A)
      → after.wanted ≡ e.wanted
      → ((j : Bytes) → has j after.workers ≡ true → has j e.workers ≡ true)
      → ((j : Bytes) → has j e.spools ≡ true → has j after.spools ≡ true)
      → IsReconciled gone e
      → IsReconciled gone after
  IsReconciled-steady e after w n k v = record {
    named = λ j ch h. v.named j ch (ap (λ x. lookup j x) (sym w) ∙ h);
    running = λ j r.
        let (on, safe, dir) = v.running j (n j r) in
        (ap (λ x. is_running_wanted x j) w ∙ on, safe, ground (arith, k j, dir));
  }

  IsReconciled-spool_item :
      {gone : Bytes → Bool} (io : EnqueueFaults) (n : Notification) (test : Bool) (now later : ℕ)
      (id : Bytes) (w : Running A) (e : Engine A)
      → IsReconciled gone e
      → IsReconciled gone (spool_item io n test now later id w e).1
  unfolding spool_item
  IsReconciled-spool_item io n test now later id w e v =
      let st =
        (enqueue io n test now later (record { shared = shared_of id e; worker = w.worker })).1 in
      IsReconciled-steady e (spool_item io n test now later id w e).1
        (ground (arith, Option-cases (lookup id e.spools)))
        (λ j h. elim (Option-cases (lookup id e.workers)) [
          | inl k ↦ ground (arith, h, k, Option-cases (lookup id e.spools))
          | inr (r, k) ↦ ground (
            arith,
            h,
            k,
            Option-cases (lookup id e.spools),
            has-insert j id (record r { worker = st.worker }) e.workers,
            equal_iff id j,
          )
        ])
        (λ j h.
          ground
            (arith, h, Option-cases (lookup id e.spools), has-insert j id st.shared.dir e.spools))
        v

  IsReconciled-reap :
      {gone : Bytes → Bool} (io : Bytes → SweepFaults) (now : Bytes → Bytes → ℕ) (want : Wanted A)
      (e : Engine A)
      → IsReconciled gone e
      → IsReconciled gone (reap io now want e)
  unfolding reap
  IsReconciled-reap io now [] e v = v
  IsReconciled-reap io now ((id, ch) ∷ want) e v =
      elim (Bool-cases (not ch.enabled && safe_spool_name id)) [
        | inr k ↦ rw (k, reap) (IsReconciled-reap io now want e v)
        | inl k ↦ elim (Option-cases (lookup id e.spools)) [
          | inl d ↦ rw (k, d, reap) (IsReconciled-reap io now want e v)
          | inr (dir, d) ↦
              rw (k, d, reap)
                (IsReconciled-reap io now want _ (
                  IsReconciled-with_shared id
                    (expire_spool (io id) e.opts.ttl (now id) id (shared_of id e)) e v))
        ]
      ]

  -- A purge takes the directory of a channel away, which matters only if the channel is configured.
  IsReconciled-purge_channel :
      {gone : Bytes → Bool} (io : SweepFaults) (remove_fails : Bool) (id : Bytes) (e : Engine A)
      → IsReconciled gone e
      → IsReconciled
          (λ j. gone j || is_overtaken j (purges io remove_fails id) e)
          (purge_channel io remove_fails id e)
  IsReconciled-purge_channel {gone} io remove_fails id e v =
      let b = purge_channel-IsBeside io remove_fails id e in
      let w = b.same_wanted in
      let m = b.same_workers in
      record {
        named = λ j ch h. v.named j ch (ap (λ x. lookup j x) (sym w) ∙ h);
        running = λ j r.
            let (on, safe, dir) = v.running j (ap (λ x. has j x) (sym m) ∙ r) in
            (
              ap (λ x. is_running_wanted x j) w ∙ on,
              safe,
              elim (Bool-cases (equal id j)) [
                | inl s ↦ ground (arith, s, on)
                | inr s ↦ ground (arith, s, dir, b.same_spools j s)
              ],
            );
      }

  -- More that has gone is no harm.
  IsReconciled-more :
      {gone more : Bytes → Bool} (e : Engine A)
      → ((id : Bytes) → gone id ≡ true → more id ≡ true)
      → IsReconciled gone e
      → IsReconciled more e
  IsReconciled-more {gone} {more} e k v = record {
    named = v.named;
    running = λ id r. ground (arith, v.running id r, k id);
  }

  IsReconciled-after_event :
      {gone : Bytes → Bool} (ev : Event A) (e : Engine A)
      → IsReconciled gone e
      → IsReconciled (λ id. gone id || is_overtaken id ev e) (after_event ev e)
  unfolding after_event
  IsReconciled-after_event {gone} (reconciles init_fails chs) e v =
      IsReconciled-more _ (λ id g. ground (arith, g)) (IsReconciled-reconcile init_fails chs e v)
  IsReconciled-after_event {gone} (purges io remove_fails id) e v =
      IsReconciled-purge_channel io remove_fails id e v
  IsReconciled-after_event {gone} (finds init_fails id) e v =
      IsReconciled-more _ (λ j g. ground (arith, g)) (IsReconciled-find_worker init_fails id e v)
  IsReconciled-after_event {gone} (spools_item io n test now later id w) e v =
      IsReconciled-more _ (λ j g. ground (arith, g))
        (IsReconciled-spool_item io n test now later id w e v)
  IsReconciled-after_event {gone} (reaps io now want) e v =
      IsReconciled-more _ (λ j g. ground (arith, g)) (IsReconciled-reap io now want e v)
  IsReconciled-after_event {gone} shuts_down e v =
      unfold lookup in record { named = v.named; running = λ j r. ground (arith, r) }

  IsReconciled-after_events :
      (evs : List (Event A)) (e : Engine A) (gone : Bytes → Bool)
      → IsReconciled gone e
      → IsReconciled (λ id. gone id || overtaken id evs e) (after_events evs e)
  unfolding after_events overtaken
  IsReconciled-after_events [] e gone v = IsReconciled-more _ (λ id g. ground (arith, g)) v
  IsReconciled-after_events (ev ∷ evs) e gone v =
      IsReconciled-more _ (λ id g. ground (arith, g))
        (IsReconciled-after_events evs (after_event ev e) (λ id. gone id || is_overtaken id ev e)
          (IsReconciled-after_event ev e v))

  -- After any operations of the engine, their parts interleaved, from its start over any spools: each
  -- worker in the table is of a channel that is configured and enabled, whose name is one component
  -- of a path, and whose spool directory is there, unless a purge of the channel that was chosen
  -- before ran when the channel was configured.
  pub after_events-running :
      (opts : Options) (spools : List (Bytes × Dir)) (registry : Registry) (evs : List (Event A))
      (id : Bytes)
      → has id (after_events evs (new_engine {A = A} opts spools registry)).workers ≡ true
      → let e : Engine A = after_events evs (new_engine opts spools registry) in
        (is_running_wanted e.wanted id ≡ true)
        × (safe_spool_name id ≡ true)
        × ((has id e.spools ≡ true)
            ⊎ (overtaken id evs (new_engine {A = A} opts spools registry) ≡ true))
  after_events-running opts spools registry evs id h =
      let start : IsReconciled {A = A} (λ id. false) (new_engine opts spools registry) =
        unfold lookup in
        record { named = λ j ch h. ground (arith, h); running = λ j r. ground (arith, r) } in
      let (on, safe, dir) = (IsReconciled-after_events evs _ (λ j. false) start).running id h in
      (
        on,
        safe,
        elim (Bool-cases
            (has id (after_events evs (new_engine {A = A} opts spools registry)).spools)) [
              | inl k ↦ inl k
              | inr k ↦ inr (ground (arith, dir, k))
            ],
      )

  -- The purges of `SetChannels`, one event for each directory that it goes through.
  abbrev orphans : (Bytes → SweepFaults) → Bool → Wanted A → List (Bytes × Dir) → List (Event A)
  orphans io remove_fails want [] = []
  orphans io remove_fails want ((id, d) ∷ dirs) =
      let rest = orphans io remove_fails want dirs in
      if has id want || not (safe_spool_name id)
      then rest
      else purges (io id) remove_fails id ∷ rest

  purge_orphans-after_events :
      (io : Bytes → SweepFaults) (remove_fails : Bool) (want : Wanted A) (dirs : List (Bytes × Dir))
      (e : Engine A)
      → purge_orphans io remove_fails want dirs e
        ≡ after_events (orphans io remove_fails want dirs) e
  unfolding purge_orphans after_events after_event
  purge_orphans-after_events io remove_fails want [] e = refl
  purge_orphans-after_events io remove_fails want ((id, d) ∷ dirs) e =
      elim (Bool-cases (has id want || not (safe_spool_name id))) [
        | inl k ↦ rw (k, purge_orphans) (purge_orphans-after_events io remove_fails want dirs e)
        | inr k ↦
            rw (k, purge_orphans, after_events, after_event)
              (purge_orphans-after_events io remove_fails want dirs _)
      ]
