-- ===== src/Tests/EngineTests.antt =====
-- The engine's set of channels at concrete inputs.
use hubbub.Common.{ℕ, Bool, true, false, not, ◌&&◌, List, [], ◌∷◌, some, ◌⊎◌, ◌≡◌, refl}
use hubbub.Common.Bytes.{Bytes, codes, equal}
use hubbub.Common.Assoc.{bytes_eq, lookup, insert, remove, has}
use hubbub.Config.{safe_spool_name}
use hubbub.Outbox.Spool.{json_names, sort_names, list}
use hubbub.Outbox.Registry.{new_registry}
use hubbub.Outbox.Worker.Sweep.{purge_spool, purge_names}
use hubbub.Outbox.Engine.{
  ChannelRuntime, Engine, want_of, is_running_wanted, retire, start_worker, start_one, start_all,
  reconcile, purge_channel, purge_orphans, set_channels, new_engine,
}
use hubbub.Outbox.Engine.Events.{
  Event, reconciles, purges, after_event, after_events, overtaken, after_events-running,
}
use hubbub.Tests.Samples.{opts, sweep_well}

abbrev ntfy : Bool → ChannelRuntime ℕ
ntfy on = record { id = codes "ntfy"; enabled = on; adapter = some 1 }

abbrev all_well : Bytes → Bool
all_well id = false

-- A directory of a channel that is not configured stands beside.
abbrev fresh : Engine ℕ
fresh = new_engine opts ((codes "old", []) ∷ []) new_registry

abbrev started : Engine ℕ
started = (reconcile all_well (ntfy true ∷ []) fresh).1

-- The worker is started, and the directory of the other channel goes.
both_parts :
    has
        (codes "ntfy")
        (set_channels all_well (λ id. sweep_well) false (ntfy true ∷ []) fresh).1.workers
      && not (
          has
            (codes "old")
            (set_channels all_well (λ id. sweep_well) false (ntfy true ∷ []) fresh).1.spools)
    ≡ true
unfolding set_channels reconcile want_of retire start_worker start_one start_all purge_channel
    purge_orphans purge_spool purge_names list json_names sort_names safe_spool_name insert remove
    lookup equal
both_parts = refl

abbrev evs : List (Event ℕ)
evs = reconciles all_well (ntfy true ∷ []) ∷ purges sweep_well false (codes "old") ∷ []

ntfy_runs : has (codes "ntfy") (after_events evs fresh).workers ≡ true
unfolding after_events after_event reconcile want_of retire start_worker start_one start_all
    purge_channel purge_spool purge_names list json_names sort_names safe_spool_name insert remove
    lookup equal
ntfy_runs = refl

after_events-running_example :
    let e = after_events evs fresh in
    (is_running_wanted e.wanted (codes "ntfy") ≡ true)
    × (safe_spool_name (codes "ntfy") ≡ true)
    × ((has (codes "ntfy") e.spools ≡ true) ⊎ (overtaken (codes "ntfy") evs fresh ≡ true))
after_events-running_example =
    after_events-running opts ((codes "old", []) ∷ []) new_registry evs (codes "ntfy") ntfy_runs

-- The purge of a channel that was removed runs after the channel was added again: its worker is left
-- without a directory.
abbrev late_purge : List (Event ℕ)
late_purge =
    reconciles all_well (ntfy true ∷ [])
    ∷ reconciles all_well []
    ∷ reconciles all_well (ntfy true ∷ [])
    ∷ purges sweep_well false (codes "ntfy")
    ∷ []

worker_cut_off :
    has (codes "ntfy") (after_events late_purge fresh).workers
      && not (has (codes "ntfy") (after_events late_purge fresh).spools)
    ≡ true
unfolding after_events after_event reconcile want_of retire start_worker start_one start_all
    purge_channel purge_spool purge_names list json_names sort_names safe_spool_name insert remove
    lookup equal
worker_cut_off = refl

-- The channel is removed while its item is written.
abbrev removed : Engine ℕ → Engine ℕ
removed e = record e { wanted = []; workers = [] }
