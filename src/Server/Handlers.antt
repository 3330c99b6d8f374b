-- ===== src/Server/Handlers.antt =====
-- internal/httpapi/server.go: `handleNotify` and `handleTest`. JSON decoding is a parameter, in two
-- parts: that of a body without unknown fields or trailing data, and that of the raw channels list,
-- whose value may be null. What a call reads of the outside (the time, a request id, the outcomes
-- that arrive in its window) comes with it.
pub mod Guards
use hubbub.Common.{
  ℕ, zero, suc, ◌+◌, ◌-◌, ◌*◌, ◌/◌, ◌^◌, Bool, true, false, not, ◌&&◌, ◌||◌, List, [], ◌∷◌, ◌++◌,
  Option, none, some, if◌then◌else◌, ltb, leb, ◌==◌, length, take, drop, get_or, all, within,
}
use hubbub.Common.Bytes.{Bytes, codes, equal}
use hubbub.Common.Space.{trim_space}
use hubbub.Common.Assoc.{bytes_eq, lookup}
use hubbub.Config.Keys.{Caller, Keyring, permitted}
use hubbub.Config.Channels.{ChannelSet, Channel, get}
use hubbub.Dlog.{Kind, other, Record, empty_record, append}
use hubbub.Notify.{
  Priority, low, default, high, urgent, Notification, parse_priority, sanitize_title,
  sanitize_message, sanitize_html_body, sanitize_tags, validate, byte_len, back_to_start,
}
use hubbub.Ratelimit.{RateLimiter, allow}
use hubbub.Server.{
  Results, EngineOps, Metric, auth_failure, request, Hub, Response, refusal, rate_capped, answer,
  status_for,
}
use hubbub.Server.Dispatch.{Arrivals, dispatch}

abbrev pub max_claimed_ip_bytes : ℕ
max_claimed_ip_bytes = 256

-- `clip`, on bytes; the mark of the cut is the three bytes of an ellipsis.
unfoldable pub clip : Bytes → ℕ → Bytes
clip s max =
    if leb (length s) max then s else take (back_to_start s max) s ++ 0xe2 ∷ 0x80 ∷ 0xa6 ∷ []

abbrev pub to_lower_ascii : ℕ → ℕ
to_lower_ascii c = if within b'A' b'Z' c then c + 32 else c

abbrev pub fold_ascii : Bytes → Bytes
fold_ascii [] = []
fold_ascii (c ∷ cs) = to_lower_ascii c ∷ fold_ascii cs

-- `authenticate` of the Authorization header.
unfoldable pub authenticate : Keyring → Bytes → Option Caller
authenticate ring auth =
    if ltb (length auth) 7 || not (equal (fold_ascii (take 7 auth)) (codes "bearer "))
    then none
    else lookup (trim_space (drop 7 auth)) ring

pub record NotifyRequest : Type 0 where
  pub title : Bytes
  pub message : Bytes
  pub html : Bytes
  pub priority : Bytes
  pub tags : List Bytes
  pub channels : Bytes

pub data Selection : Type 0 where
  absent : Selection
  unusable : Selection
  chosen : List Bytes → Selection

-- `selection`.
unfoldable pub selection : (Bytes → Option (Option (List Bytes))) → NotifyRequest → Selection
selection unmarshal r = if equal r.channels [] then absent else elim (unmarshal r.channels) [
  | none ↦ unusable
  | some none ↦ unusable
  | some (some channels) ↦ chosen channels
]

-- Twice `notify.MaxHTMLLen`.
abbrev pub max_body_bytes : ℕ
max_body_bytes = 2 * 131072

-- `decodeNotify`. A body over the limit fails, if not at its object then where the end should be.
abbrev pub decode_notify : (Bytes → Option NotifyRequest) → Bytes → Option NotifyRequest
decode_notify decode body = if ltb max_body_bytes (length body) then none else decode body

-- What a call brings with it.
pub record Call : Type 0 where
  pub now : ℕ
  pub authorization : Bytes
  pub peer : Bytes
  pub forwarded_for : Bytes
  pub body : Bytes
  pub request_id : Bytes
  pub arrivals : Arrivals

abbrev pub priority_text : Priority → Bytes
priority_text low = codes "low"
priority_text default = codes "default"
priority_text high = codes "high"
priority_text urgent = codes "urgent"

-- The parts of the server that a call does not change: the keys and the channels in force, and the
-- library functions.
pub record Setup (S A : Type 0) : Type 0 where
  pub ops : EngineOps S
  pub keyring : Keyring
  pub channels : ChannelSet A
  pub decode : Bytes → Option NotifyRequest
  pub unmarshal : Bytes → Option (Option (List Bytes))
  pub to_lower : ℕ → ℕ

-- `int(math.Ceil(retryAfter.Seconds()))`.
abbrev pub retry_seconds : ℕ → ℕ
retry_seconds wait = (wait + 10 ^ 9 - 1) / 10 ^ 9

module _ {S A : Type 0} (u : Setup S A) where
  abbrev pub logged : Call → Record → Hub S → Hub S
  logged c r h = record h { log = append c.now r h.log }

  abbrev pub counted : Metric → Hub S → Hub S
  counted m h = record h { metrics = m ∷ h.metrics }

  abbrev pub rejected : Hub S → Response × Hub S
  rejected h = (refusal 400, counted (request (codes "rejected")) h)

  -- `dispatch` and the line and the response that report it; a test send is not counted.
  unfoldable pub sent : Call → Notification → List Bytes → Hub S → Response × Hub S
  sent c n targets h =
      let d = dispatch u.ops u.channels n targets false c.arrivals h.registry h.engine in
      let (status, result) = status_for d.results in
      let line = record empty_record {
        kind = Kind.request;
        request_id = n.request_id;
        caller_id = n.caller_id;
        result = result;
        channels = d.results;
        title = n.title;
        msg_bytes = byte_len n.message;
        html_bytes = byte_len n.html;
        priority = priority_text n.priority;
      } in
      (
        answer status result n.request_id d.results,
        logged c line
            (counted (request result) (record h { registry = d.registry; engine = d.engine })),
      )

  abbrev pub built : Call → Caller → NotifyRequest → Priority → Notification
  built c caller r priority = record {
    title = sanitize_title r.title;
    message = sanitize_message r.message;
    html = sanitize_html_body r.html;
    priority = priority;
    tags = sanitize_tags r.tags;
    caller_id = caller.id;
    request_id = c.request_id;
    created_at = c.now;
  }

  -- From the check that there is a target on.
  unfoldable pub checked : Call → Notification → List Bytes → Hub S → Response × Hub S
  checked c n [] h = rejected h
  checked c n (id ∷ targets) h = elim (validate n) [
    | some err ↦ rejected h
    | none ↦ sent c n (id ∷ targets) h
  ]

  -- The channel selection.
  unfoldable pub targeted : Call → Caller → Selection → Notification → Hub S → Response × Hub S
  targeted c caller absent n h = checked c n caller.channels h
  targeted c caller unusable n h = rejected h
  targeted c caller (chosen []) n h = rejected h
  targeted c caller (chosen (id ∷ ids)) n h =
      if all (permitted caller) (id ∷ ids)
      then checked c n (id ∷ ids) h
      else (refusal 403, counted (request (codes "forbidden")) h)

  -- From the decoding on.
  unfoldable pub admitted : Call → Caller → Hub S → Response × Hub S
  admitted c caller h = elim (decode_notify u.decode c.body) [
    | none ↦ rejected h
    | some r ↦ elim (parse_priority u.to_lower r.priority) [
      | none ↦ rejected h
      | some priority ↦ targeted c caller (selection u.unmarshal r) (built c caller r priority) h
    ]
  ]

  -- From the rate cap on.
  unfoldable pub authenticated : Call → Caller → Hub S → Response × Hub S
  authenticated c caller h =
      let ((allowed, wait), rate') = allow c.now h.rate in
      let h' = record h { rate = rate' } in
      if allowed then admitted c caller h' else (
        rate_capped (retry_seconds wait),
        logged c
            (record empty_record {
              kind = Kind.request;
              caller_id = caller.id;
              result = codes "rate_capped";
            })
            (counted (request (codes "rate_capped")) h'),
      )

  -- `handleNotify`.
  unfoldable pub handle_notify : Call → Hub S → Response × Hub S
  handle_notify c h = elim (authenticate u.keyring c.authorization) [
    | none ↦ (
      refusal 401,
      logged c
          (record empty_record {
            kind = other (codes "auth_fail");
            peer = c.peer;
            claimed_ip = clip c.forwarded_for max_claimed_ip_bytes;
          })
          (counted auth_failure h),
    )
    | some caller ↦ authenticated c caller h
  ]

  -- `handleTest`; its message, which the text of the time is part of, is an argument.
  unfoldable pub handle_test : Bytes → Call → Bytes → Hub S → Response × Hub S
  handle_test message c id h = elim (get u.channels id) [
    | none ↦ (refusal 404, h)
    | some ch ↦
        (if not ch.enabled
          then (refusal 409, h)
          else let n : Notification = record {
            title = codes "hubbub test";
            message = message;
            html = [];
            priority = default;
            tags = [];
            caller_id = codes "test-cta";
            request_id = c.request_id;
            created_at = c.now;
          } in
            let d = dispatch u.ops u.channels n (id ∷ []) true c.arrivals h.registry h.engine in
            let (status, result) = status_for d.results in
            (
              answer status result n.request_id d.results,
              logged c
                  (record empty_record {
                    kind = Kind.request;
                    request_id = n.request_id;
                    caller_id = n.caller_id;
                    result = result;
                    channels = d.results;
                    title = n.title;
                  })
                  (record h { registry = d.registry; engine = d.engine }),
            ))
  ]
