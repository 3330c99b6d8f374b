-- ===== src/Outbox/Conservation/Attempts.antt =====
-- The accounts over a delivery attempt (internal/outbox/worker.go `process`).
use hubbub.Common.{
  ℕ, ◌+◌, min, Bool, true, false, List, [], ◌∷◌, none, ◌≡◌, ◌≢◌, refl, sym, ap, arith,
  if◌then◌else◌, Bool-cases, inl, inr, count_if, ltb,
}
use hubbub.Common.Bytes.{Bytes, equal_iff, mem}
use hubbub.Outbox.Name.{Item, json, has_suffix, request_id_from_name}
use hubbub.Outbox.Spool.{read_file, json_names, rewrite}
use hubbub.Outbox.Registry.{Outcome}
use hubbub.Outbox.Settle.{finish}
use hubbub.Outbox.Worker.{State}
use hubbub.Outbox.Worker.Attempt.{
  Kind, permanent, retryable, rate_limited, SendError, Answer, delivered, send_error, other_error,
  AttemptFaults, finish_item, reschedule, refused, process, keep_stuck, count_delivery, answered,
}
use hubbub.Outbox.Conservation.Measure.{
  pending_name, terminal, occurrences, pending-write_over, occurrences-read_file,
}
use hubbub.Outbox.Conservation.Finish.{
  IsSound, IsSound-claim, dir-finish, total-finish, dir-finish_left,
}
use hubbub.Outbox.Conservation.Enqueue.{account, IsSound-write}

-- A name that becomes stuck is no longer pending.
pending-stuck :
    (r name : Bytes) (stuck : List Bytes) (ns : List Bytes)
    → count_if (pending_name r (name ∷ stuck)) ns
        + (if pending_name r stuck name then occurrences name ns else 0)
      ≡ count_if (pending_name r stuck) ns
unfolding mem
pending-stuck r name stuck [] = ground arith
pending-stuck r name stuck (n ∷ ns) =
    ground (arith, pending-stuck r name stuck ns, equal_iff n name)

-- The item in flight: its file is there under its own name, and it is not stuck.
pub record InFlight (name : Bytes) (it : Item) (st : State) : Type 0 where
  pub sound : IsSound st.shared.dir
  pub is_json : has_suffix name json ≡ true
  pub unstuck : mem name st.worker.stuck ≡ false
  pub own_name : request_id_from_name name ≡ it.notification.request_id
  pub present : read_file name st.shared.dir ≢ none

-- What an attempt keeps: the account of request `r`, and a sound directory.
record Keeps (r : Bytes) (st st' : State) : Type 0 where
  same : account r st' ≡ account r st
  sound' : IsSound st'.shared.dir

Keeps-count :
    {r : Bytes} {st st' : State} (metric : Bytes)
    → Keeps r st st'
    → Keeps r st (count_delivery metric st')
Keeps-count metric k = record { same = k.same; sound' = k.sound' }

Keeps-idle :
    {r : Bytes} {st st' : State}
    → Keeps r st st'
    → Keeps r st (record st' { worker = record st'.worker { in_flight = [] } })
Keeps-idle k = record { same = k.same; sound' = k.sound' }

module _ (r : Bytes) (io : AttemptFaults) (name : Bytes) (it : Item) (st : State)
    (f : InFlight name it st) where
  Keeps-drop :
      (o : Outcome) (metric : Bytes)
      → o.ok ≡ false
      → Keeps r st (finish_item io.claim_fails name it o metric st).1
  unfolding finish_item
  Keeps-drop o metric e =
      let ch = st.worker.channel_id in
      let req = it.notification.request_id in
      let caller = it.notification.caller_id in
      record {
        same = ground (
          arith,
          total-finish r st.worker.stuck io.claim_fails ch name req caller o metric st.shared
              f.sound.unique f.is_json f.unstuck (sym f.own_name),
        );
        sound' =
            rw (dir-finish r st.worker.stuck io.claim_fails ch name req caller o metric st.shared)
              (IsSound-claim io.claim_fails name f.sound);
      }

  Keeps-deliver :
      (o : Outcome) (metric : Bytes)
      → o.ok ≡ true
      → Keeps r st (keep_stuck name (finish_item io.claim_fails name it o metric st))
  unfolding finish_item keep_stuck
  Keeps-deliver o metric e =
      let ch = st.worker.channel_id in
      let req = it.notification.request_id in
      let caller = it.notification.caller_id in
      let stuck = st.worker.stuck in
      let step =
        total-finish r stuck io.claim_fails ch name req caller o metric st.shared f.sound.unique
          f.is_json f.unstuck (sym f.own_name) in
      let sound : IsSound (finish io.claim_fails ch name req caller o metric st.shared).1.dir =
        rw (dir-finish r stuck io.claim_fails ch name req caller o metric st.shared)
          (IsSound-claim io.claim_fails name f.sound) in
      let left = dir-finish_left r stuck io.claim_fails ch name req caller o metric st.shared in
      elim (Bool-cases (finish io.claim_fails ch name req caller o metric st.shared).0) [
        | inl gone ↦ rw (gone, keep_stuck) (record { same = ground (arith, step); sound' = sound })
        | inr kept ↦
            rw (kept, keep_stuck)
              (record {
                same = ground (
                  arith,
                  step,
                  left kept,
                  f.own_name,
                  f.unstuck,
                  pending-stuck r name stuck (json_names st.shared.dir),
                  occurrences-read_file name st.shared.dir f.is_json f.present,
                  f.sound.unique name,
                );
                sound' = sound;
              })
      ]

  Keeps-reschedule :
      (next : Item)
      → next.notification ≡ it.notification
      → Keeps r st (reschedule io.write name next st)
  unfolding reschedule rewrite
  Keeps-reschedule next e =
      let capped = record next {
        not_before = min next.not_before (next.enqueued_at + st.worker.opts.ttl);
      } in
      let named : request_id_from_name name ≡ next.notification.request_id = rw e f.own_name in
      record {
        same =
            ap (λ k. k + terminal r st.worker.channel_id st.shared)
              (pending-write_over io.write name capped st.shared.dir f.is_json r st.worker.stuck
                f.sound.unique f.present);
        sound' = IsSound-write io.write name capped st.shared.dir f.is_json named f.sound;
      }

  Keeps-refused :
      (later : ℕ) (k : Kind) (e : SendError) → Keeps r st (refused io later name it k e st)
  unfolding refused
  Keeps-refused later permanent e = Keeps-drop _ _ refl
  Keeps-refused later rate_limited e = Keeps-count _ (Keeps-reschedule _ refl)
  Keeps-refused later retryable e = Keeps-count _ (Keeps-reschedule _ refl)

  Keeps-answered :
      (later : ℕ) (cancelled : Bool) (a : Answer)
      → Keeps r st (answered io later cancelled name it a st)
  unfolding answered
  Keeps-answered later cancelled delivered = Keeps-deliver _ _ refl
  Keeps-answered later true (send_error e) = record { same = refl; sound' = f.sound }
  Keeps-answered later false (send_error e) = Keeps-refused later e.kind e
  Keeps-answered later true (other_error x) = record { same = refl; sound' = f.sound }
  Keeps-answered later false (other_error x) = Keeps-refused later retryable _

  Keeps-process :
      (now later : ℕ) (cancelled : Bool) (send : Item → Answer)
      → Keeps r st (process io now later cancelled send name it st)
  unfolding process
  Keeps-process now later cancelled send =
      elim (Bool-cases (ltb (it.enqueued_at + st.worker.opts.ttl) now)) [
        | inl late ↦ rw late (Keeps-idle (Keeps-drop _ _ refl))
        | inr early ↦ rw early (Keeps-idle (Keeps-answered later cancelled (send it)))
      ]

-- An attempt on an item in flight keeps the account of every request, whatever the adapter answers, whether or not the
-- worker is being stopped, and whichever system calls fail: the item is still to be settled after
-- it, or it got one outcome, never both and never neither.
pub account-process :
    (r : Bytes) (io : AttemptFaults) (now later : ℕ) (cancelled : Bool) (send : Item → Answer)
    (name : Bytes) (it : Item) (st : State)
    → InFlight name it st
    → account r (process io now later cancelled send name it st) ≡ account r st
account-process r io now later cancelled send name it st f =
    (Keeps-process r io name it st f now later cancelled send).same

pub process-IsSound :
    (io : AttemptFaults) (now later : ℕ) (cancelled : Bool) (send : Item → Answer) (name : Bytes)
    (it : Item) (st : State)
    → InFlight name it st
    → IsSound (process io now later cancelled send name it st).shared.dir
process-IsSound io now later cancelled send name it st f =
    (Keeps-process [] io name it st f now later cancelled send).sound'
