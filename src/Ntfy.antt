-- ===== src/Ntfy.antt =====
-- internal/adapter/ntfy.go: how an answer of the ntfy server is reported to the worker. The request
-- itself, `strconv.Atoi` and the parsing of a date are outside: a number is its sign and its size,
-- and a date is the time until it, which is 0 if it has passed. A duration is the 64 bits of an
-- int64.
pub mod Answers
use hubbub.Common.{
  ℕ, ◌+◌, ◌-◌, ◌*◌, ◌^◌, ◌%◌, Bool, true, false, not, ◌&&◌, ◌||◌, [], Option, none, some,
  if◌then◌else◌, ltb, leb, ◌==◌,
}
use hubbub.Common.Bytes.{Bytes, codes, equal}
use hubbub.Common.Space.{trim_space}
use hubbub.Outbox.Worker.Attempt.{
  Kind, permanent, retryable, rate_limited, SendError, Answer, delivered, send_error,
}

pub record Number : Type 0 where
  pub negative : Bool
  pub size : ℕ

-- `time.Duration(secs) * time.Second`, which wraps around.
abbrev pub seconds : Number → ℕ
seconds n = let d = n.size * 10 ^ 9 % 2 ^ 64 in if n.negative then (2 ^ 64 - d) % 2 ^ 64 else d

-- `d > 0`.
abbrev pub is_positive : ℕ → Bool
is_positive d = ltb 0 d && ltb d (2 ^ 63)

-- `ParseRetryAfter`.
unfoldable pub parse_retry_after : (Bytes → Option Number) → (Bytes → Option ℕ) → Bytes → ℕ → ℕ
parse_retry_after atoi until v fallback =
    let t = trim_space v in
    if equal t [] then fallback else elim (atoi t) [
      | some n ↦ (if is_positive (seconds n) then seconds n else fallback)
      | none ↦ elim (until t) [ none ↦ fallback | some d ↦ (if is_positive d then d else fallback) ]
    ]

-- What the HTTP client comes back with.
pub data Reply : Type 0 where
  redirected : Reply
  network_error : Reply
  response : ℕ → Bytes → Reply

abbrev pub retry_fallback : ℕ
retry_fallback = 30 * 10 ^ 9

-- The end of `Send`, from the client's answer on, with the text of the error.
unfoldable pub send_result :
    (Bytes → Option Number) → (Bytes → Option ℕ) → ℕ → Bytes → Reply → Answer
send_result atoi until now reason redirected =
    send_error (record { kind = permanent; not_before = 0; reason = reason })
send_result atoi until now reason network_error =
    send_error (record { kind = retryable; not_before = 0; reason = reason })
send_result atoi until now reason (response status header) =
    if leb 200 status && ltb status 300
    then delivered
    else if status == 429
    then send_error (record {
      kind = rate_limited;
      not_before = now + parse_retry_after atoi until header retry_fallback;
      reason = reason;
    })
    else if leb 500 status
    then send_error (record { kind = retryable; not_before = 0; reason = reason })
    else send_error (record { kind = permanent; not_before = 0; reason = reason })
