-- ===== src/Outbox/Worker/Attempt.antt =====
-- internal/outbox/worker.go: `process` and `reschedule`, one delivery attempt of the item in flight.
use hubbub.Common.{ℕ, ◌+◌, min, max, Bool, true, false, [], ◌∷◌, ◌++◌, if◌then◌else◌, ltb}
use hubbub.Common.Bytes.{Bytes, codes}
use hubbub.Outbox.Name.{Item}
use hubbub.Outbox.Spool.{WriteFaults, rewrite}
use hubbub.Outbox.Registry.{Outcome}
use hubbub.Outbox.Settle.{delivery, finish}
use hubbub.Outbox.Worker.{State, outcome, rate_limit_floor, backoff, set_held}

-- internal/adapter/adapter.go: `Kind` and `SendError`.
pub data Kind : Type 0 where
  permanent retryable rate_limited : Kind

pub record SendError : Type 0 where
  pub kind : Kind
  pub not_before : ℕ
  pub reason : Bytes

-- What `Send` returns: nil, a `SendError`, or an error of another type.
pub data Answer : Type 0 where
  delivered : Answer
  send_error : SendError → Answer
  other_error : Bytes → Answer

pub record AttemptFaults : Type 0 where
  pub claim_fails : Bool
  pub write : WriteFaults

-- `finishItem`.
unfoldable pub finish_item : Bool → Bytes → Item → Outcome → Bytes → State → Bool × State
finish_item fails name it o metric st =
    let (removed, s) =
      finish fails st.worker.channel_id name it.notification.request_id it.notification.caller_id o
        metric st.shared in
    (removed, record st { shared = s })

unfoldable pub reschedule : WriteFaults → Bytes → Item → State → State
reschedule io name it st =
    let capped = record it {
      not_before = min it.not_before (it.enqueued_at + st.worker.opts.ttl);
    } in
    record {
      shared = record st.shared { dir = (rewrite io name capped st.shared.dir).1 };
      worker = record st.worker { hold = set_held name capped.not_before st.worker.hold };
    }

abbrev pub count_delivery : Bytes → State → State
count_delivery metric st = record st { shared = delivery st.worker.channel_id metric st.shared }

-- What `process` does with the item on a `SendError`; `later` is its second reading of the clock.
unfoldable pub refused : AttemptFaults → ℕ → Bytes → Item → Kind → SendError → State → State
refused io later name it permanent e st =
    (finish_item io.claim_fails name it
      (outcome st.worker.channel_id (codes "failed: " ++ e.reason)) (codes "failed") st).1
refused io later name it rate_limited e st = count_delivery (codes "rate_limited") (
    reschedule io.write name
      (record it {
        attempts = it.attempts + 1;
        not_before = max e.not_before (later + rate_limit_floor);
      })
      st)
refused io later name it retryable e st = count_delivery (codes "retry") (
    reschedule io.write name
      (record it { attempts = it.attempts + 1; not_before = later + backoff (it.attempts + 1) }) st)

-- A delivered item whose file stays is remembered as stuck.
unfoldable pub keep_stuck : Bytes → Bool × State → State
keep_stuck name (true, st) = st
keep_stuck name (false, st) = record st {
  worker = record st.worker { stuck = name ∷ st.worker.stuck };
}

abbrev pub ok_outcome : Bytes → Outcome
ok_outcome ch = record { channel = ch; status = codes "ok"; ok = true }

-- Behind the `Send`; the flag is `ctx.Err() != nil`.
unfoldable pub answered : AttemptFaults → ℕ → Bool → Bytes → Item → Answer → State → State
answered io later cancelled name it delivered st =
    keep_stuck name
      (finish_item io.claim_fails name it (ok_outcome st.worker.channel_id) (codes "ok") st)
answered io later cancelled name it (send_error e) st =
    if cancelled then st else refused io later name it e.kind e st
answered io later cancelled name it (other_error r) st =
    if cancelled
    then st
    else refused io later name it retryable
        (record { kind = retryable; not_before = 0; reason = r }) st

-- `process`; the adapter is asked only while the item is within its TTL.
unfoldable pub process :
    AttemptFaults → ℕ → ℕ → Bool → (Item → Answer) → Bytes → Item → State → State
process io now later cancelled send name it st =
    let st' =
      if ltb (it.enqueued_at + st.worker.opts.ttl) now
      then (finish_item io.claim_fails name it
          (outcome st.worker.channel_id (codes "dropped: expired")) (codes "expired") st).1
      else answered io later cancelled name it (send it) st in
    record st' { worker = record st'.worker { in_flight = [] } }
