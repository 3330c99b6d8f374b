-- ===== src/Outbox/Settle.antt =====
-- The terminal outcome of an item: internal/outbox/worker.go `finish` and `settle`, and `settle` of
-- internal/outbox/engine.go. `Shared` is what a worker and the engine's sweeps both touch: the
-- channel's spool, the registry, the delivery log and the delivery counters.
use hubbub.Common.{Bool, true, false, not, List, ◌∷◌, if◌then◌else◌}
use hubbub.Common.Bytes.{Bytes}
use hubbub.Outbox.Spool.{Dir, Claim, claimed, gone, failed, claim}
use hubbub.Outbox.Registry.{Outcome, Registry, resolve}

-- A `terminal` line of the delivery log, without its time.
pub record LogLine : Type 0 where
  pub request_id : Bytes
  pub caller_id : Bytes
  pub channel : Bytes
  pub outcome : Bytes

pub record Shared : Type 0 where
  pub dir : Dir
  pub registry : Registry
  pub log : List LogLine
  pub metrics : List (Bytes × Bytes)

-- `metrics.Delivery`; the newest count is first, as in the log.
abbrev pub delivery : Bytes → Bytes → Shared → Shared
delivery ch outcome s = record s { metrics = (ch, outcome) ∷ s.metrics }

handed : Bytes → Bytes → Bytes → Bytes → Shared → Bool × Registry → Shared
handed ch req caller status s (true, r) = record s { registry = r }
handed ch req caller status s (false, r) = record s {
  registry = r;
  log = record { request_id = req; caller_id = caller; channel = ch; outcome = status } ∷ s.log;
}

-- The worker's `settle`: to a waiter, or to the delivery log if nobody waits.
unfoldable pub settle : Bytes → Bytes → Bytes → Outcome → Shared → Shared
unfolding handed
settle ch req caller o s = handed ch req caller o.status s (resolve req ch o s.registry)

-- The engine's `settle` counts the delivery first; its outcome is never `OK`.
unfoldable pub engine_settle : Bytes → Bytes → Bytes → Bytes → Bytes → Shared → Shared
engine_settle id req caller status metric s =
    settle id req caller (record { channel = id; status = status; ok = false })
      (delivery id metric s)

finish_claim : Claim → Bytes → Bytes → Bytes → Outcome → Bytes → Shared → Bool × Shared
finish_claim failed ch req caller o metric s =
    if not o.ok then (false, s) else (false, settle ch req caller o (delivery ch metric s))
finish_claim gone ch req caller o metric s = (true, s)
finish_claim claimed ch req caller o metric s =
    (true, settle ch req caller o (delivery ch metric s))

-- `finish`: unlink first, and settle what was won. The first argument says that the unlink fails;
-- the result is whether the file is gone.
unfoldable pub finish :
    Bool → Bytes → Bytes → Bytes → Bytes → Outcome → Bytes → Shared → Bool × Shared
unfolding finish_claim
finish fails ch name req caller o metric s =
    let (c, dir) = claim fails name s.dir in
    finish_claim c ch req caller o metric (record s { dir = dir })
