-- ===== src/Outbox/Worker.antt =====
-- internal/outbox/worker.go: the serial delivery worker of one channel. Each function runs under
-- the worker's lock or touches only what the lock does not guard, so it is one step. The clock, the
-- answer of the adapter's `Send` and the failing system calls are arguments; a duration and a time
-- are nanoseconds.
pub mod Attempt
pub mod Sweep
pub mod Waits
use hubbub.Common.{
  ℕ, zero, suc, ◌+◌, ◌-◌, ◌*◌, ◌^◌, min, max, Bool, true, false, not, ◌&&◌, ◌||◌, List, [], ◌∷◌,
  ◌++◌, Option, none, some, if◌then◌else◌, ltb, leb, ◌==◌, select,
}
use hubbub.Common.Bytes.{Bytes, codes, equal, mem}
use hubbub.Notify.{Notification}
use hubbub.Outbox.Name.{Item, request_id_from_name}
use hubbub.Outbox.Spool.{
  Dir, WriteFaults, Claim, claimed, gone, failed, claim, put, rewrite, list, count, Load, loaded,
  is_corrupt, unreadable, load, oldest_evictable,
}
use hubbub.Outbox.Registry.{Outcome}
use hubbub.Outbox.Settle.{Shared, delivery, finish}

pub record Options : Type 0 where
  pub ttl : ℕ
  pub cap_per_channel : ℕ

pub record Worker : Type 0 where
  pub channel_id : Bytes
  pub opts : Options
  -- the file being delivered, "" when idle
  pub in_flight : Bytes
  pub stuck : List Bytes
  pub hold : List (Bytes × ℕ)
  pub wake : Bool

pub record State : Type 0 where
  pub shared : Shared
  pub worker : Worker

abbrev pub new_worker : Bytes → Options → Worker
new_worker id opts = record {
  channel_id = id;
  opts = opts;
  in_flight = [];
  stuck = [];
  hold = [];
  wake = false;
}

abbrev pub second : ℕ
second = 10 ^ 9

abbrev pub minute : ℕ
minute = 60 * second

abbrev pub rate_limit_floor : ℕ
rate_limit_floor = 30 * second

unfoldable pub backoff : ℕ → ℕ
backoff attempts =
    if leb attempts 1
    then 30 * second
    else if attempts == 2
    then minute
    else if attempts == 3
    then 2 * minute
    else 5 * minute

-- The held not-before times, a Go map.
unfoldable pub held : Bytes → List (Bytes × ℕ) → Option ℕ
held name [] = none
held name ((n, t) ∷ hold) = if equal n name then some t else held name hold

unfoldable pub set_held : Bytes → ℕ → List (Bytes × ℕ) → List (Bytes × ℕ)
set_held name t hold = (name, t) ∷ hold

-- `pruneHoldLocked`.
unfoldable pub prune_hold : List Bytes → List (Bytes × ℕ) → List (Bytes × ℕ)
prune_hold names hold = select (λ (h : Bytes × ℕ). mem h.0 names) hold

pub record EnqueueFaults : Type 0 where
  pub count_fails : Bool
  pub scan_fails : Bool
  pub claim_fails : Bytes → Bool
  pub write : WriteFaults

-- What eviction passes over: the stuck items and the one in flight.
abbrev pub protected : Worker → List Bytes
protected w = if equal w.in_flight [] then w.stuck else w.in_flight ∷ w.stuck

abbrev pub outcome : Bytes → Bytes → Outcome
outcome ch status = record { channel = ch; status = status; ok = false }

unfoldable pub evict : EnqueueFaults → Worker → Option Bytes → Shared → Shared
evict io w none s = s
evict io w (some []) s = s
evict io w (some (c ∷ cs)) s =
    (finish (io.claim_fails (c ∷ cs)) w.channel_id (c ∷ cs) (request_id_from_name (c ∷ cs)) []
      (outcome w.channel_id (codes "dropped: evicted")) (codes "evicted") s).1

-- The eviction at the head of `enqueue`.
unfoldable pub make_room : EnqueueFaults → Worker → Shared → Shared
unfolding evict
make_room io w s = elim (count io.count_fails s.dir) [
  | none ↦ s
  | some n ↦
      if leb w.opts.cap_per_channel n
      then evict io w (oldest_evictable io.scan_fails (protected w) s.dir) s
      else s
]

abbrev pub new_item : Notification → Bool → Bytes → ℕ → ℕ → Item
new_item n test ch now later = record {
  notification = n;
  channel = ch;
  attempts = 0;
  not_before = later;
  enqueued_at = now;
  test = test;
}

-- `enqueue`; `now` and `later` are its two readings of the clock, and the result is whether it
-- returned without an error.
unfoldable pub enqueue : EnqueueFaults → Notification → Bool → ℕ → ℕ → State → Bool × State
enqueue io n test now later st =
    let s = make_room io st.worker st.shared in
    let (done, dir) = put io.write (new_item n test st.worker.channel_id now later) s.dir in
    (
      done,
      record {
        shared = record s { dir = dir };
        worker = if done then record st.worker { wake = true } else st.worker;
      },
    )

pub record NextFaults : Type 0 where
  pub list_fails : Bool
  pub read_fails : Bytes → Bool
  pub claim_fails : Bytes → Bool

-- What a look at one name comes to: the scan goes on with a wait, or the item is taken.
pub data Look : Type 0 where
  passed : ℕ → State → Look
  taken : Bytes → Item → State → Look

unfoldable pub forget : Bytes → State → Claim × Dir → State
forget name st (failed, dir) = st
forget name st (_, dir) = record {
  shared = record st.shared { dir = dir };
  worker = record st.worker { stuck = select (λ n. not (equal n name)) st.worker.stuck };
}

abbrev pub not_before_of : Bytes → Item → Worker → ℕ
not_before_of name it w = elim (held name w.hold) [
  | none ↦ it.not_before
  | some h ↦ max it.not_before h
]

-- `until` is the later reading of the clock in `time.Until`; a wait that is over is 0 here.
unfoldable pub due : ℕ → ℕ → Bytes → ℕ → State → Item → Look
due now until name wait st it =
    let t = not_before_of name it st.worker in
    if ltb now t
    then passed (min wait (t - until)) st
    else taken name it (record st { worker = record st.worker { in_flight = name } })

unfoldable pub look_load : NextFaults → ℕ → ℕ → Bytes → ℕ → State → Load → Look
look_load io now until name wait st (loaded it) = due now until name wait st it
look_load io now until name wait st is_corrupt = passed wait (record st {
  shared =
      (finish (io.claim_fails name) st.worker.channel_id name (request_id_from_name name) []
        (outcome st.worker.channel_id (codes "dropped: corrupt")) (codes "corrupt") st.shared).1;
})
look_load io now until name wait st unreadable = passed wait st

-- One round of the loop of `next`.
unfoldable pub look : NextFaults → ℕ → ℕ → Bytes → ℕ → State → Look
look io now until name wait st =
    if mem name st.worker.stuck
    then passed wait (forget name st (claim (io.claim_fails name) name st.shared.dir))
    else look_load io now until name wait st (load (io.read_fails name) name st.shared.dir)

-- The loop of `next`, with the clock's reading at each name.
unfoldable pub scan_next : NextFaults → ℕ → (Bytes → ℕ) → List Bytes → ℕ → State → Look
scan_next io now until [] wait st = passed wait st
scan_next io now until (name ∷ names) wait st = elim (look io now (until name) name wait st) [
  | passed wait' st' ↦ scan_next io now until names wait' st'
  | taken n it st' ↦ taken n it st'
]

-- `next`: the first item in queue order that is due, claimed as in flight, or how long to sleep.
unfoldable pub next : NextFaults → ℕ → (Bytes → ℕ) → State → Look
next io now until st = elim (list io.list_fails st.shared.dir) [
  | none ↦ passed second st
  | some names ↦
      scan_next io now until names second
        (record st { worker = record st.worker { hold = prune_hold names st.worker.hold } })
]
