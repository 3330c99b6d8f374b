-- ===== src/Outbox/Worker/Sweep.antt =====
-- internal/outbox/engine.go: the sweeps that settle a channel's spool without its worker,
-- `expireSpool` of a disabled channel and `purgeSpool` of a removed one. A sweep is a loop over the
-- names of one `list`; each round is a step of its own, since a worker may run between rounds.
use hubbub.Common.{ℕ, ◌+◌, Bool, List, [], ◌∷◌, none, some, if◌then◌else◌, leb}
use hubbub.Common.Bytes.{Bytes, codes}
use hubbub.Outbox.Name.{request_id_from_name}
use hubbub.Outbox.Spool.{
  Dir, Claim, claimed, claim, Load, loaded, is_corrupt, unreadable, load, list,
}
use hubbub.Outbox.Settle.{Shared, engine_settle}

pub record SweepFaults : Type 0 where
  pub list_fails : Bool
  pub read_fails : Bytes → Bool
  pub claim_fails : Bytes → Bool

-- Settles what the claim won.
settle_claimed : Bytes → Bytes → Bytes → Bytes → Bytes → Shared → Claim × Dir → Shared
settle_claimed id req caller status metric s (claimed, dir) =
    engine_settle id req caller status metric (record s { dir = dir })
settle_claimed id req caller status metric s (_, dir) = s

unfoldable pub claim_and_settle :
    Bool → Bytes → Bytes → Bytes → Bytes → Bytes → Bytes → Shared → Shared
unfolding settle_claimed
claim_and_settle fails id name req caller status metric s =
    settle_claimed id req caller status metric s (claim fails name s.dir)

-- The ids that `purgeSpool` settles under: the item's, or those that the name gives.
abbrev pub settled_as : Bytes → Load → Bytes × Bytes
settled_as name (loaded it) = (it.notification.request_id, it.notification.caller_id)
settled_as name _ = (request_id_from_name name, [])

-- One round of `purgeSpool`.
unfoldable pub purge_one : SweepFaults → Bytes → Bytes → Shared → Shared
purge_one io id name s =
    let (req, caller) = settled_as name (load (io.read_fails name) name s.dir) in
    claim_and_settle (io.claim_fails name) id name req caller (codes "dropped: channel removed")
      (codes "removed") s

expire_load : SweepFaults → ℕ → ℕ → Bytes → Bytes → Shared → Load → Shared
expire_load io ttl now id name s unreadable = s
expire_load io ttl now id name s is_corrupt =
    claim_and_settle (io.claim_fails name) id name (request_id_from_name name) []
      (codes "dropped: corrupt") (codes "corrupt") s
expire_load io ttl now id name s (loaded it) =
    if leb now (it.enqueued_at + ttl)
    then s
    else claim_and_settle (io.claim_fails name) id name it.notification.request_id
        it.notification.caller_id (codes "dropped: expired") (codes "expired") s

-- One round of `expireSpool`.
unfoldable pub expire_one : SweepFaults → ℕ → ℕ → Bytes → Bytes → Shared → Shared
unfolding expire_load
expire_one io ttl now id name s =
    expire_load io ttl now id name s (load (io.read_fails name) name s.dir)

unfoldable pub purge_names : SweepFaults → Bytes → List Bytes → Shared → Shared
purge_names io id [] s = s
purge_names io id (name ∷ names) s = purge_names io id names (purge_one io id name s)

-- `purgeSpool`, when nothing runs beside it.
unfoldable pub purge_spool : SweepFaults → Bytes → Shared → Shared
purge_spool io id s = elim (list io.list_fails s.dir) [
  | none ↦ s
  | some names ↦ purge_names io id names s
]

unfoldable pub expire_names : SweepFaults → ℕ → (Bytes → ℕ) → Bytes → List Bytes → Shared → Shared
expire_names io ttl now id [] s = s
expire_names io ttl now id (name ∷ names) s =
    expire_names io ttl now id names (expire_one io ttl (now name) id name s)

-- `expireSpool`, when nothing runs beside it; `now` is the reading of the clock at each name.
unfoldable pub expire_spool : SweepFaults → ℕ → (Bytes → ℕ) → Bytes → Shared → Shared
expire_spool io ttl now id s = elim (list io.list_fails s.dir) [
  | none ↦ s
  | some names ↦ expire_names io ttl now id names s
]
