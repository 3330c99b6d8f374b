-- ===== src/Outbox/Engine.antt =====
-- internal/outbox/engine.go: the set of channels and their workers. What stands under the spool
-- directory is an association list of the channels' directories. A part of an operation that holds
-- the engine's lock, or that touches one channel, is one function; which system calls fail is an
-- argument. Only the reaction of a worker to its context is left out: a worker that is stopped is
-- taken out of the table.
pub mod Reconcile
pub mod Kept
pub mod Events
pub mod Orphans
use hubbub.Common.{
  ℕ, Bool, true, false, not, ◌&&◌, ◌||◌, List, [], ◌∷◌, Option, none, some, if◌then◌else◌, ◌==◌,
  length, map,
}
use hubbub.Common.Bytes.{Bytes}
use hubbub.Common.Assoc.{bytes_eq, lookup, insert, remove, has}
use hubbub.Config.{safe_spool_name}
use hubbub.Notify.{Notification}
use hubbub.Outbox.Spool.{Dir, list}
use hubbub.Outbox.Registry.{Registry}
use hubbub.Outbox.Settle.{LogLine, Shared}
use hubbub.Outbox.Worker.{Options, Worker, State, new_worker, EnqueueFaults, enqueue}
use hubbub.Outbox.Worker.Sweep.{SweepFaults, purge_spool, expire_spool}

pub record ChannelRuntime (A : Type 0) : Type 0 where
  pub id : Bytes
  pub enabled : Bool
  pub adapter : Option A

-- A worker with the adapter that it uses.
pub record Running (A : Type 0) : Type 0 where
  pub worker : Worker
  pub adapter : Option A

abbrev pub Wanted : Type 0 → Type 0
Wanted A = List (Bytes × ChannelRuntime A)

abbrev pub Workers : Type 0 → Type 0
Workers A = List (Bytes × Running A)

pub record Engine (A : Type 0) : Type 0 where
  pub opts : Options
  pub workers : Workers A
  pub wanted : Wanted A
  pub spools : List (Bytes × Dir)
  pub registry : Registry
  pub log : List LogLine
  pub metrics : List (Bytes × Bytes)

-- `newSpool`: the directory is made unless it is there.
abbrev pub make_dir : Bytes → List (Bytes × Dir) → List (Bytes × Dir)
make_dir id spools = if has id spools then spools else insert id [] spools

-- What `Enqueue` answers.
pub data Enqueued : Type 0 where
  no_worker write_failed accepted : Enqueued

module _ {A : Type 0} where
  -- The spool of a channel, with what all channels share.
  abbrev pub shared_of : Bytes → Engine A → Shared
  shared_of id e = record {
    dir = (elim (lookup id e.spools) [ none ↦ [] | some d ↦ d ]);
    registry = e.registry;
    log = e.log;
    metrics = e.metrics;
  }

  abbrev pub with_shared : Bytes → Shared → Engine A → Engine A
  with_shared id s e = record e {
    spools = insert id s.dir e.spools;
    registry = s.registry;
    log = s.log;
    metrics = s.metrics;
  }

  -- `startWorkerLocked`: whether it started, and the state after.
  unfoldable pub start_worker : (Bytes → Bool) → ChannelRuntime A → Engine A → Bool × Engine A
  start_worker init_fails ch e =
      if not (safe_spool_name ch.id) || init_fails ch.id then (false, e) else (
        true,
        record e {
          workers =
              insert ch.id (record { worker = new_worker ch.id e.opts; adapter = ch.adapter })
                e.workers;
          spools = make_dir ch.id e.spools;
        },
      )

  -- `want`, from the channels in order.
  unfoldable pub want_of : List (ChannelRuntime A) → Wanted A → Wanted A
  want_of [] want = want
  want_of (ch ∷ chs) want = want_of chs (insert ch.id ch want)

  abbrev pub is_running_wanted : Wanted A → Bytes → Bool
  is_running_wanted want id = elim (lookup id want) [ none ↦ false | some ch ↦ ch.enabled ]

  -- The workers that are not stopped.
  unfoldable pub retire : Wanted A → Workers A → Workers A
  retire want [] = []
  retire want ((id, w) ∷ ws) =
      let rest = retire want ws in if is_running_wanted want id then (id, w) ∷ rest else rest

  -- One channel of the loop that starts workers; a channel that fails is listed.
  unfoldable pub start_one :
      (Bytes → Bool) → ChannelRuntime A → List Bytes × Engine A → List Bytes × Engine A
  start_one init_fails ch (errs, e) =
      if not ch.enabled then (errs, e) else elim (lookup ch.id e.workers) [
        | some w ↦ (
          errs,
          record e { workers = insert ch.id (record w { adapter = ch.adapter }) e.workers },
        )
        | none ↦
            (let (ok, started) = start_worker init_fails ch e in
              (if ok then errs else ch.id ∷ errs, started))
      ]

  unfoldable pub start_all :
      (Bytes → Bool) → Wanted A → List Bytes × Engine A → List Bytes × Engine A
  start_all init_fails [] r = r
  start_all init_fails ((id, ch) ∷ want) r = start_all init_fails want (start_one init_fails ch r)

  -- `SetChannels` under the lock.
  unfoldable pub reconcile :
      (Bytes → Bool) → List (ChannelRuntime A) → Engine A → List Bytes × Engine A
  reconcile init_fails chs e =
      let want = want_of chs [] in
      start_all init_fails want ([], record e { wanted = want; workers = retire want e.workers })

  -- `purgeSpool` and the removal of the directory, which only works if it is empty.
  unfoldable pub purge_channel : SweepFaults → Bool → Bytes → Engine A → Engine A
  purge_channel io remove_fails id e = elim (lookup id e.spools) [
    | none ↦ e
    | some d ↦ elim (list io.list_fails d) [
      | none ↦ e
      | some names ↦
          (let s = purge_spool io id (shared_of id e) in
            let purged = with_shared id s e in
            if remove_fails || not (length s.dir == 0)
            then purged
            else record purged { spools = remove id purged.spools })
    ]
  ]

  -- The loop of `purgeOrphanSpools` over the directories that are there.
  unfoldable pub purge_orphans :
      (Bytes → SweepFaults) → Bool → Wanted A → List (Bytes × Dir) → Engine A → Engine A
  purge_orphans io remove_fails want [] e = e
  purge_orphans io remove_fails want ((id, d) ∷ dirs) e = purge_orphans io remove_fails want dirs (
      if has id want || not (safe_spool_name id)
      then e
      else purge_channel (io id) remove_fails id e)

  -- `SetChannels`, when nothing runs between its parts.
  unfoldable pub set_channels :
      (Bytes → Bool)
      → (Bytes → SweepFaults)
      → Bool
      → List (ChannelRuntime A)
      → Engine A
      → List Bytes × Engine A
  set_channels init_fails io remove_fails chs e =
      let (errs, after) = reconcile init_fails chs e in
      (errs, purge_orphans io remove_fails (want_of chs []) after.spools after)

  -- The loop of `reapDisabled`; `now` reads the clock at each file of a channel.
  unfoldable pub reap : (Bytes → SweepFaults) → (Bytes → Bytes → ℕ) → Wanted A → Engine A → Engine A
  reap io now [] e = e
  reap io now ((id, ch) ∷ want) e = reap io now want (
      if not ch.enabled && safe_spool_name id
      then (elim (lookup id e.spools) [
        | none ↦ e
        | some d ↦ with_shared id (expire_spool (io id) e.opts.ttl (now id) id (shared_of id e)) e
      ])
      else e)

  abbrev pub reap_disabled : (Bytes → SweepFaults) → (Bytes → Bytes → ℕ) → Engine A → Engine A
  reap_disabled io now e = reap io now e.wanted e

  -- The worker to enqueue with, under the lock.
  unfoldable pub find_worker : (Bytes → Bool) → Bytes → Engine A → Option (Running A) × Engine A
  find_worker init_fails id e = elim (lookup id e.workers) [
    | some w ↦ (some w, e)
    | none ↦ elim (lookup id e.wanted) [
      | none ↦ (none, e)
      | some ch ↦
          (if not ch.enabled
            then (none, e)
            else let (ok, started) = start_worker init_fails ch e in
              (lookup id started.workers, started))
    ]
  ]

  -- `w.enqueue` of the worker that was found. Without its directory it fails.
  unfoldable pub spool_item :
      EnqueueFaults → Notification → Bool → ℕ → ℕ → Bytes → Running A → Engine A → Bool × Engine A
  spool_item io n test now later id w e = elim (lookup id e.spools) [
    | none ↦ (false, e)
    | some d ↦
        (let (done, st) =
            enqueue io n test now later (record { shared = shared_of id e; worker = w.worker }) in
          let spooled = with_shared id st.shared e in
          (
            done,
            record spooled {
              workers = elim (lookup id e.workers) [
                | none ↦ e.workers
                | some r ↦ insert id (record r { worker = st.worker }) e.workers
              ];
            },
          ))
  ]

  -- The check behind the write: a channel that was removed meanwhile is purged. The purge is outside
  -- the lock of the check; `between` is what others do before it.
  unfoldable pub recheck : SweepFaults → Bool → (Engine A → Engine A) → Bytes → Engine A → Engine A
  recheck io remove_fails between id e =
      if has id e.wanted then e else purge_channel io remove_fails id (between e)

  -- `Enqueue`, where `meanwhile` is what others do between the write and the check, and `between`
  -- what they do between the check and the purge.
  unfoldable pub engine_enqueue :
      (Bytes → Bool)
      → EnqueueFaults
      → SweepFaults
      → Bool
      → (Engine A → Engine A)
      → (Engine A → Engine A)
      → Notification
      → Bytes
      → Bool
      → ℕ
      → ℕ
      → Engine A
      → Enqueued × Engine A
  engine_enqueue init_fails io sweep remove_fails meanwhile between n id test now later e =
      let (found, started) = find_worker init_fails id e in
      elim found [
        | none ↦ (no_worker, started)
        | some w ↦
            (let (done, spooled) = spool_item io n test now later id w started in
              if not done
              then (write_failed, spooled)
              else (accepted, recheck sweep remove_fails between id (meanwhile spooled)))
      ]

  -- `Shutdown`, whose wait only gives the attempts time.
  abbrev pub shutdown : Engine A → Engine A
  shutdown e = record e { workers = [] }

-- `NewEngine`, over the directories that are there.
abbrev pub new_engine : {A : Type 0} → Options → List (Bytes × Dir) → Registry → Engine A
new_engine opts spools registry = record {
  opts = opts;
  workers = [];
  wanted = [];
  spools = spools;
  registry = registry;
  log = [];
  metrics = [];
}
