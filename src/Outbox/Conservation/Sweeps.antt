-- ===== src/Outbox/Conservation/Sweeps.antt =====
-- The accounts over a round of the engine's sweeps (internal/outbox/engine.go).
use hubbub.Common.{
  ℕ, ◌+◌, Bool, true, false, ◌&&◌, List, [], ◌≡◌, sym, arith, if◌then◌else◌, leb, Bool-cases, inl,
  inr,
}
use hubbub.Common.Bytes.{Bytes, codes, equal, mem}
use hubbub.Outbox.Name.{json, has_suffix, request_id_from_name}
use hubbub.Outbox.Spool.{Dir, remove_file, claimed, claim, load}
use hubbub.Outbox.Spool.Laws.{Load-cases, load-loaded}
use hubbub.Outbox.Settle.{Shared, delivery, engine_settle}
use hubbub.Outbox.Registry.{Outcome}
use hubbub.Outbox.Worker.Sweep.{SweepFaults, claim_and_settle, settled_as, purge_one, expire_one}
use hubbub.Outbox.Conservation.Measure.{terminal-settle, IsUnique, pending-remove_file}
use hubbub.Outbox.Conservation.Finish.{total, IsSound, IsSound-claim, dir-settle}

-- The unlink works and finds the file.
abbrev pub wins : Bool → Bytes → Dir → Bool
wins fails name dir = elim (claim fails name dir).0 [ claimed ↦ true | _ ↦ false ]

module _ (r : Bytes) (stuck : List Bytes) (fails : Bool) (ch name req caller status metric : Bytes)
    (s : Shared) where
  abbrev swept : Shared
  swept = claim_and_settle fails ch name req caller status metric s

  pub dir-claim_and_settle : swept.dir ≡ (claim fails name s.dir).1
  unfolding claim_and_settle claim engine_settle
  dir-claim_and_settle =
      let gone_dir : Shared = record s { dir = remove_file name s.dir } in
      ground (
        arith,
        dir-settle ch req caller (record { channel = ch; status = status; ok = false })
            (delivery ch metric gone_dir),
      )

  -- One claim of a sweep: the account of every request is as before, but for a stuck file that the
  -- sweep wins, which gets a second outcome.
  pub total-claim_and_settle :
      IsUnique s.dir
      → has_suffix name json ≡ true
      → req ≡ request_id_from_name name
      → total r stuck ch swept
        ≡ total r stuck ch s
          + (if wins fails name s.dir && mem name stuck && equal req r then 1 else 0)
  unfolding claim_and_settle claim engine_settle
  total-claim_and_settle u j e =
      let gone_dir : Shared = record s { dir = remove_file name s.dir } in
      let o : Outcome = record { channel = ch; status = status; ok = false } in
      ground (
        arith,
        dir-settle ch req caller o (delivery ch metric gone_dir),
        terminal-settle r ch req caller o (delivery ch metric gone_dir),
        pending-remove_file r stuck name s.dir u j,
      )

module _ (r : Bytes) (stuck : List Bytes) (io : SweepFaults) (ch name : Bytes) (s : Shared)
    (v : IsSound s.dir) (j : has_suffix name json ≡ true) where
  settled_as_named :
      (settled_as name (load (io.read_fails name) name s.dir)).0 ≡ request_id_from_name name
  settled_as_named = elim (Load-cases (load (io.read_fails name) name s.dir)) [
    | inl e ↦ rw e
    | inr (inl e) ↦ rw e
    | inr (inr (it, e)) ↦
        rw e (sym (v.named name it j (load-loaded (io.read_fails name) name s.dir it e)))
  ]

  -- In a sound directory, a round of the purge of a removed channel on a `.json` name keeps the
  -- account of every request, unless it wins a file that is stuck, which its worker had delivered
  -- and could not remove. The item of that file has its outcome already, and gets a second one.
  pub total-purge_one :
      total r stuck ch (purge_one io ch name s)
      ≡ total r stuck ch s
        + (if wins (io.claim_fails name) name s.dir
              && mem name stuck
              && equal (request_id_from_name name) r
            then 1
            else 0)
  unfolding purge_one
  total-purge_one =
      let (req, caller) = settled_as name (load (io.read_fails name) name s.dir) in
      rw (← settled_as_named) (
        total-claim_and_settle r stuck (io.claim_fails name) ch name req caller
          (codes "dropped: channel removed") (codes "removed") s v.unique j settled_as_named)

  -- In a sound directory, a round of the sweep of a disabled channel on a `.json` name that is not
  -- stuck keeps the account of every request, for any TTL and clock and whichever calls fail: the
  -- item is never lost or settled twice.
  pub total-expire_one :
      (ttl now : ℕ)
      → mem name stuck ≡ false
      → total r stuck ch (expire_one io ttl now ch name s) ≡ total r stuck ch s
  unfolding expire_one
  total-expire_one ttl now m = elim (Load-cases (load (io.read_fails name) name s.dir)) [
    | inl e ↦ rw (e, expire_one)
    | inr (inl e) ↦
        rw (e, expire_one)
          (ground (
            arith,
            total-claim_and_settle r stuck (io.claim_fails name) ch name (request_id_from_name name)
                [] (codes "dropped: corrupt") (codes "corrupt") s v.unique j,
          ))
    | inr (inr (it, e)) ↦
        rw (e, expire_one)
          (ground (
            arith,
            v.named name it j (load-loaded (io.read_fails name) name s.dir it e),
            total-claim_and_settle r stuck (io.claim_fails name) ch name it.notification.request_id
                it.notification.caller_id (codes "dropped: expired") (codes "expired") s v.unique j,
          ))
  ]

module _ (io : SweepFaults) (ch name : Bytes) (s : Shared) (v : IsSound s.dir) where
  claim_and_settle-IsSound :
      (req caller status metric : Bytes)
      → IsSound (claim_and_settle (io.claim_fails name) ch name req caller status metric s).dir
  claim_and_settle-IsSound req caller status metric =
      rw (dir-claim_and_settle [] [] (io.claim_fails name) ch name req caller status metric s)
        (IsSound-claim (io.claim_fails name) name v)

  pub purge_one-IsSound : IsSound (purge_one io ch name s).dir
  unfolding purge_one
  purge_one-IsSound = claim_and_settle-IsSound _ _ _ _

  pub expire_one-IsSound : (ttl now : ℕ) → IsSound (expire_one io ttl now ch name s).dir
  unfolding expire_one
  expire_one-IsSound ttl now = elim (Load-cases (load (io.read_fails name) name s.dir)) [
    | inl e ↦ rw (e, expire_one) v
    | inr (inl e) ↦ rw (e, expire_one) (claim_and_settle-IsSound _ _ _ _)
    | inr (inr (it, e)) ↦ elim (Bool-cases (leb now (it.enqueued_at + ttl))) [
      | inl early ↦ rw (e, expire_one, early) v
      | inr late ↦ rw (e, expire_one, late) (claim_and_settle-IsSound _ _ _ _)
    ]
  ]
