-- ===== src/Tests/ServerTests.antt =====
-- The handlers at concrete calls.
use hubbub.Common.{
  ℕ, ◌+◌, ◌^◌, ◌≤◌, Bool, true, false, not, ◌&&◌, inl, inr, sym, Bool-cases, List, [], ◌∷◌, ◌++◌,
  Option, none, some, ◌≡◌, refl, arith, if◌then◌else◌, ◌==◌, all, any, count_if,
}
use hubbub.Common.Bytes.{Bytes, codes, equal, equal_iff, mem, trim, trim_left, trim_right}
use hubbub.Common.Space.{trim_space}
use hubbub.Common.Assoc.{bytes_eq, lookup, insert, remove}
use hubbub.Config.Keys.{Caller, permitted}
use hubbub.Config.Channels.{ChannelSet, Channel}
use hubbub.Dlog.{other, Record, Query}
use hubbub.Dlog.Page.{Page}
use hubbub.Dlog.Recent.{View, recent}
use hubbub.Notify.{Notification, validate, sanitize_tags, strip_control, priority_of, byte_len}
use hubbub.Outbox.Registry.{
  new_registry, add, cancel, delete_waiters, delete_waiter, same_key, add_waiters, add_waiter,
  find_waiter,
}
use hubbub.Ratelimit.{RateLimiter, allow, still_inside}
use hubbub.Server.{Results, EngineOps, Hub, rate_capped, status_code}
use hubbub.Server.Dispatch.{
  Arrivals, is_live, pick, enqueue_all, record_all, queue_rest, collect, dispatch, dispatch_to,
}
use hubbub.Server.Dispatch.Collect.{find_status, is_of}
use hubbub.Server.Dispatch.Targets.{
  to_enqueue, answer_to, is_none, error_of, reported, dispatch-results,
}
use hubbub.Server.Handlers.{
  NotifyRequest, Call, Setup, authenticate, handle_notify, authenticated, admitted, targeted,
  checked, sent, selection,
}
use hubbub.Server.Handlers.Guards.{
  handle_notify-permitted, handle_notify-refused, handle_notify-retry, is_answer,
}
use hubbub.Server.Recent.{deliveries, handle_recent}
use hubbub.Server.Recent.Access.{may_read, discloses, handle_recent-refused}
use hubbub.Tests.Samples.{sample}

abbrev mixed : Results
mixed = (codes "ops", codes "ok") ∷ (codes "phone", codes "queued") ∷ []

-- An engine that only remembers what it was given, and takes nothing for one channel.
abbrev recording : EngineOps (List Bytes)
recording = record {
  enqueue = λ n id test st.
      if equal id (codes "full") then (some (codes "disk"), st) else (none, id ∷ st);
}

abbrev ready : Bytes → Bool → Bytes × Channel ℕ
ready id on = (id, record { id = id; type = codes "ntfy"; enabled = on; adapter = none })

abbrev set : ChannelSet ℕ
set = ready (codes "ops") true ∷ ready (codes "full") true ∷ ready (codes "off") false ∷ []

abbrev targets : List Bytes
targets = codes "ops" ∷ codes "off" ∷ codes "full" ∷ codes "ops" ∷ []

-- One outcome arrives in the window, before it closes.
abbrev arrivals : Arrivals
arrivals = record {
  before = record { channel = codes "ops"; status = codes "ok"; ok = true } ∷ [];
  drained = [];
}

dispatched :
    (dispatch recording set sample targets false arrivals new_registry []).results
    ≡ (codes "ops", codes "ok")
      ∷ (codes "full", codes "failed: disk")
      ∷ (codes "off", codes "disabled")
      ∷ []
unfolding dispatch dispatch_to pick enqueue_all collect record_all queue_rest add cancel
    delete_waiters delete_waiter same_key add_waiters add_waiter find_waiter lookup insert remove
    equal mem
dispatched = refl

arrivals_bounded :
    (x : Bytes)
    → count_if (is_of x) (arrivals.before ++ arrivals.drained) ≤ (
        if mem x targets
          && is_live set x
          && is_none (error_of recording set sample targets false [] x)
        then 1
        else 0)
arrivals_bounded x = elim (Bool-cases (equal (codes "ops") x)) [
  | inl e ↦
      rw (sym ((equal_iff (codes "ops") x).0 e))
        (unfold to_enqueue answer_to lookup equal mem in omega arith)
  | inr e ↦ ground (arith, e)
]

dispatch-results_example :
    lookup
      (codes "ops")
      (dispatch recording set sample targets false arrivals new_registry []).results
    ≡ (if not (mem (codes "ops") targets)
        then none
        else if not (is_live set (codes "ops"))
        then some (codes "disabled")
        else reported
            (error_of recording set sample targets false [] (codes "ops"))
            (find_status (codes "ops") arrivals.before))
dispatch-results_example =
    dispatch-results recording set sample targets false arrivals new_registry [] arrivals_bounded
      (codes "ops")

abbrev cron : Caller
cron = record {
  id = codes "cron";
  keys = codes "0123456789abcdef" ∷ [];
  channels = codes "ops" ∷ [];
  recent = true;
  url_tokens = [];
}

-- A body is decoded to the sample's texts with its raw channels list as the body itself; that list
-- names one channel.
abbrev decode_body : Bytes → Option NotifyRequest
decode_body body = some (record {
  title = sample.title;
  message = sample.message;
  html = [];
  priority = [];
  tags = [];
  channels = body;
})

abbrev setup : Setup (List Bytes) ℕ
setup = record {
  ops = recording;
  keyring = (codes "0123456789abcdef", cron) ∷ [];
  channels = set;
  decode = decode_body;
  unmarshal = λ raw. some (some (raw ∷ []));
  to_lower = λ c. c;
}

abbrev call : Bytes → Bytes → Call
call auth body = record {
  now = 7;
  authorization = auth;
  peer = codes "10.0.0.1";
  forwarded_for = [];
  body = body;
  request_id = codes "r1";
  arrivals = arrivals;
}

abbrev limiter : List ℕ → RateLimiter
limiter times = record { cap = 2; window = 10; times = times }

abbrev hub : List ℕ → Hub (List Bytes)
hub times = record {
  rate = limiter times;
  registry = new_registry;
  engine = [];
  log = [];
  metrics = [];
}

known_key : authenticate setup.keyring (codes "Bearer 0123456789abcdef") ≡ some cron
unfolding authenticate trim_space trim trim_left trim_right lookup equal
known_key = refl

keeps_ops :
    (who : Caller) (n : Notification) (id : Bytes) (st : List Bytes)
    → authenticate setup.keyring (codes "Bearer 0123456789abcdef") ≡ some who
    → permitted who id ≡ true
    → all (equal (codes "ops")) st ≡ true
    → all (equal (codes "ops")) (recording.enqueue n id false st).1 ≡ true
keeps_ops who n id st a p j =
    let same : who ≡ cron = ground (arith, a, known_key) in
    let inside : permitted cron id ≡ true = ground (arith, p, same) in
    let ops : codes "ops" ≡ id = unfold mem in ground (arith, inside, equal_iff id (codes "ops")) in
    ground (arith, j, equal_iff (codes "ops") id, ops)

-- What the engine was given is only "ops".
handle_notify-permitted_example :
    all
      (equal (codes "ops"))
      (handle_notify setup (call (codes "Bearer 0123456789abcdef") (codes "ops")) (hub [])).1.engine
    ≡ true
handle_notify-permitted_example =
    handle_notify-permitted setup (λ st. all (equal (codes "ops")) st ≡ true)
      (call (codes "Bearer 0123456789abcdef") (codes "ops")) (hub [])
      (λ who n id st a i p l v j. keeps_ops who n id st a p j) refl

-- A notification for "ops" reaches the engine.
enqueued_ops :
    (handle_notify setup (call (codes "Bearer 0123456789abcdef") (codes "ops")) (hub [])).1.engine
    ≡ codes "ops" ∷ []
unfolding handle_notify authenticated admitted targeted checked sent selection validate
    sanitize_tags strip_control priority_of byte_len authenticate allow still_inside dispatch
    dispatch_to pick enqueue_all collect add cancel delete_waiters delete_waiter same_key
    add_waiters add_waiter find_waiter trim_space trim trim_left trim_right lookup insert remove
    equal mem
enqueued_ops = refl

unknown_key :
    is_answer (handle_notify setup (call (codes "Bearer none") (codes "ops")) (hub [])).0 ≡ false
unfolding handle_notify authenticate trim_space trim trim_left trim_right lookup equal
unknown_key = refl

handle_notify-refused_example :
    let (response, after) =
      handle_notify setup (call (codes "Bearer none") (codes "ops")) (hub []) in
    (after.engine ≡ [])
    × (after.registry ≡ new_registry)
    × (any (λ code. code == status_code response) (401 ∷ 429 ∷ 400 ∷ 403 ∷ []) ≡ true)
    × (after.rate ≡ (if status_code response == 401 then limiter [] else (allow 7 (limiter [])).1))
handle_notify-refused_example =
    handle_notify-refused setup (call (codes "Bearer none") (codes "ops")) (hub []) unknown_key

capped :
    (handle_notify setup
      (call (codes "Bearer 0123456789abcdef") (codes "ops"))
      (hub (5 ∷ 6 ∷ []))).0
    ≡ rate_capped 1
unfolding handle_notify authenticated authenticate allow still_inside trim_space trim trim_left
    trim_right lookup equal
capped = refl

handle_notify-retry_example :
    (1 ≤ 1)
    × ((allow
          (7 + 10 ^ 9)
          (handle_notify setup
            (call (codes "Bearer 0123456789abcdef") (codes "ops"))
            (hub (5 ∷ 6 ∷ []))).1.rate).0.0
        ≡ true)
handle_notify-retry_example =
    handle_notify-retry setup (call (codes "Bearer 0123456789abcdef") (codes "ops"))
      (hub (5 ∷ 6 ∷ [])) 1 (7 + 10 ^ 9) (omega arith) capped (omega arith)

abbrev no_number : Bytes → Option ℕ
no_number raw = none

abbrev no_text : Query → ℕ → Bytes
no_text q n = []

abbrev one_page : Query → Option Page
one_page q = some (record { deliveries = []; truncated = false })

no_credential : may_read setup.keyring none [] ≡ false
unfolding equal
no_credential = refl

handle_recent-refused_example :
    let (response, after) =
      handle_recent no_number no_number no_text one_page setup.keyring none []
        (call [] [])
        (hub []) in
    (discloses response ≡ false)
    × (line : Record) × (after.log ≡ line ∷ [])
    × (line.kind ≡ other (codes "auth_fail"))
handle_recent-refused_example =
    handle_recent-refused no_number no_number no_text one_page setup.keyring none [] (call [] [])
      (hub []) no_credential

abbrev no_record : Bytes → Option Record
no_record line = none

abbrev no_lines : View
no_lines = record { file = []; stat_fails = false; read_fails = false }
