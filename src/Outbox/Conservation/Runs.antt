-- ===== src/Outbox/Conservation/Runs.antt =====
-- Runs of one channel: any interleaving of the worker's operations with rounds of the engine's
-- sweeps and with the handlers' calls of the registry. (internal/outbox).
use hubbub.Common.{ℕ, ◌+◌, Bool, true, false, ◌&&◌, List, [], none, ◌≡◌, ◌∙◌, arith, if◌then◌else◌}
use hubbub.Common.Bytes.{Bytes, equal, mem}
use hubbub.Notify.{Notification}
use hubbub.Outbox.Name.{Item, json, file_name, has_suffix}
use hubbub.Outbox.Spool.{read_file, json_names}
use hubbub.Outbox.Registry.{Registry, new_registry, add, cancel}
use hubbub.Outbox.Worker.{
  Options, State, new_worker, EnqueueFaults, enqueue, new_item, NextFaults, next,
}
use hubbub.Outbox.Worker.Attempt.{Answer, AttemptFaults, process}
use hubbub.Outbox.Worker.Sweep.{SweepFaults, purge_one, expire_one}
use hubbub.Outbox.Conservation.Measure.{pending, terminal}
use hubbub.Outbox.Conservation.Finish.{IsSound}
use hubbub.Outbox.Conservation.Sweeps.{
  total-purge_one, total-expire_one, purge_one-IsSound, expire_one-IsSound,
}
use hubbub.Outbox.Conservation.Enqueue.{account, account-enqueue, enqueue-IsSound}
use hubbub.Outbox.Conservation.Attempts.{InFlight, account-process, process-IsSound}
use hubbub.Outbox.Conservation.Queue.{end_state, next-Looked}

pub data Event : Type 0 where
  enqueued : EnqueueFaults → Notification → Bool → ℕ → ℕ → Event
  scanned : NextFaults → ℕ → (Bytes → ℕ) → Event
  attempted : AttemptFaults → ℕ → ℕ → Bool → (Item → Answer) → Bytes → Item → Event
  purged : SweepFaults → Bytes → Event
  expired : SweepFaults → ℕ → Bytes → Event
  waited : Bytes → List Bytes → Event
  gave_up : Bytes → List Bytes → Event

abbrev with_registry : (Registry → Registry) → State → State
with_registry f st = record st { shared = record st.shared { registry = f st.shared.registry } }

abbrev pub happen : Event → State → State
happen (enqueued io n test now later) st = (enqueue io n test now later st).1
happen (scanned io now until) st = end_state (next io now until st)
happen (attempted io now later cancelled send name it) st =
    process io now later cancelled send name it st
happen (purged io name) st = record st { shared = purge_one io st.worker.channel_id name st.shared }
happen (expired io now name) st = record st {
  shared = expire_one io st.worker.opts.ttl now st.worker.channel_id name st.shared;
}
happen (waited id chs) st = with_registry (λ reg. (add id chs reg).1) st
happen (gave_up id chs) st = with_registry (cancel id chs) st

-- When an event may happen: an enqueue writes a name that is not in use; an attempt is of an item
-- that is still on disk at its end; a sweep looks at a listed name that is not stuck.
abbrev pub May : Event → State → Type 0
May (enqueued io n test now later) st =
    (read_file (file_name (new_item n test st.worker.channel_id now later)) st.shared.dir ≡ none)
    × (mem (file_name (new_item n test st.worker.channel_id now later)) st.worker.stuck ≡ false)
May (scanned io now until) st = Unit {0}
May (attempted io now later cancelled send name it) st = InFlight name it st
May (purged io name) st = (has_suffix name json ≡ true) × (mem name st.worker.stuck ≡ false)
May (expired io now name) st = (has_suffix name json ≡ true) × (mem name st.worker.stuck ≡ false)
May (waited id chs) st = Unit {0}
May (gave_up id chs) st = Unit {0}

-- Whether the event accepts a notification of request `r`: an `enqueue` that returns no error.
abbrev pub accepts : Bytes → Event → State → ℕ
accepts r (enqueued io n test now later) st =
    if (enqueue io n test now later st).0 && equal n.request_id r then 1 else 0
accepts r _ st = 0

happen-IsSound :
    (e : Event) (st : State) → May e st → IsSound st.shared.dir → IsSound (happen e st).shared.dir
happen-IsSound (enqueued io n test now later) st m v =
    enqueue-IsSound io n test now later st v m.0 m.1
happen-IsSound (scanned io now until) st m v = (next-Looked [] io now until st v).sound
happen-IsSound (attempted io now later c send name it) st m v =
    process-IsSound io now later c send name it st m
happen-IsSound (purged io name) st m v = purge_one-IsSound io st.worker.channel_id name st.shared v
happen-IsSound (expired io now name) st m v =
    expire_one-IsSound io st.worker.channel_id name st.shared v st.worker.opts.ttl now
happen-IsSound (waited id chs) st m v = v
happen-IsSound (gave_up id chs) st m v = v

account-happen :
    (r : Bytes) (e : Event) (st : State)
    → May e st
    → IsSound st.shared.dir
    → account r (happen e st) ≡ account r st + accepts r e st
account-happen r (enqueued io n test now later) st m v =
    account-enqueue io n test now later st v m.0 m.1 r
account-happen r (scanned io now until) st m v =
    (next-Looked r io now until st v).same ∙ omega arith
account-happen r (attempted io now later c send name it) st m v =
    account-process r io now later c send name it st m ∙ omega arith
account-happen r (purged io name) st m v =
    ground (arith, total-purge_one r st.worker.stuck io st.worker.channel_id name st.shared v m.0)
account-happen r (expired io now name) st m v =
    total-expire_one r st.worker.stuck io st.worker.channel_id name st.shared v m.0
      st.worker.opts.ttl now m.1
    ∙ omega arith
account-happen r (waited id chs) st m v = unfold add in omega arith
account-happen r (gave_up id chs) st m v = unfold cancel in omega arith

-- A run from `s`, with the number of notifications of request `r` that it accepts.
pub data Run (r : Bytes) (s : State) : State → ℕ → Type 0 where
  start : Run r s s 0
  step :
      {t : State} {k : ℕ}
      → Run r s t k
      → (e : Event) → May e t
      → Run r s (happen e t) (k + accepts r e t)

pub Run-account :
    {r : Bytes} {s t : State} {k : ℕ}
    → IsSound s.shared.dir
    → Run r s t k
    → (account r t ≡ account r s + k) × IsSound t.shared.dir
Run-account v start = (omega arith, v)
Run-account {r} v (step {t = u} run e m) =
    let (same, sound) = Run-account v run in
    (omega (arith, same, account-happen r e u m sound), happen-IsSound e u m sound)

-- A channel that starts with an empty spool.
abbrev pub fresh : Bytes → Options → State
fresh id opts = record {
  shared = record { dir = []; registry = new_registry; log = []; metrics = [] };
  worker = new_worker id opts;
}

pub fresh-IsSound : (id : Bytes) (opts : Options) → IsSound (fresh id opts).shared.dir
unfolding read_file json_names
fresh-IsSound id opts = record { unique = λ k. omega arith; named = λ n it j h. cc }

-- In every run of a channel that starts with an empty spool, in which an enqueue uses a name that is
-- neither on disk nor stuck, an attempt is of a file that is still there, and a sweep looks at names
-- that are not stuck, the files of a request that are not stuck and its terminal outcomes are
-- together as many as its accepted notifications. So none of these is lost and none is settled
-- twice, whichever system calls fail and whatever is evicted, expired or purged meanwhile.
pub pending-terminal :
    (r id : Bytes) (opts : Options) {t : State} {k : ℕ}
    → Run r (fresh id opts) t k
    → pending r t.worker.stuck t.shared.dir + terminal r t.worker.channel_id t.shared ≡ k
pending-terminal r id opts run =
    let (same, sound) = Run-account (fresh-IsSound id opts) run in
    same ∙ (unfold json_names in omega arith)
