-- ===== src/Ntfy/Answers.antt =====
-- The wait that a throttled delivery is told.
use hubbub.Common.{
  ℕ, ◌+◌, ◌^◌, ◌<◌, true, [], Option, inl, inr, ◌≡◌, refl, arith, Bool-cases, Option-cases,
}
use hubbub.Common.Bytes.{Bytes, equal}
use hubbub.Common.Space.{trim_space}
use hubbub.Outbox.Worker.Attempt.{rate_limited, SendError, send_error}
use hubbub.Ntfy.{
  Number, seconds, is_positive, parse_retry_after, Reply, redirected, network_error, response,
  retry_fallback, send_result,
}

-- Whatever the header says, a number that overflows, a negative one or a date that has passed
-- included, the wait is positive and within an int64, as the fallback is.
parse_retry_after-is_positive :
    (atoi : Bytes → Option Number) (until : Bytes → Option ℕ) (v : Bytes) (fallback : ℕ)
    → is_positive fallback ≡ true
    → is_positive (parse_retry_after atoi until v fallback) ≡ true
unfolding parse_retry_after
parse_retry_after-is_positive atoi until v fallback h =
    elim (Bool-cases (equal (trim_space v) [])) [
      | inl e ↦ rw (e, parse_retry_after) h
      | inr e ↦ elim (Option-cases (atoi (trim_space v))) [
        | inr (n, f) ↦ elim (Bool-cases (is_positive (seconds n))) [
          | inl g ↦ rw (e, f, g, parse_retry_after) g
          | inr g ↦ rw (e, f, g, parse_retry_after) h
        ]
        | inl f ↦ elim (Option-cases (until (trim_space v))) [
          | inl g ↦ rw (e, f, g, parse_retry_after) h
          | inr (d, g) ↦ elim (Bool-cases (is_positive d)) [
            | inl k ↦ rw (e, f, g, k, parse_retry_after) k
            | inr k ↦ rw (e, f, g, k, parse_retry_after) h
          ]
        ]
      ]
    ]

-- A delivery that the server throttles is held back until a time that is still to come, whatever the
-- header of the response says, and by less than an int64 of nanoseconds.
pub send_result-throttled :
    (atoi : Bytes → Option Number) (until : Bytes → Option ℕ) (now : ℕ) (reason : Bytes)
    (reply : Reply) (err : SendError)
    → send_result atoi until now reason reply ≡ send_error err
    → err.kind ≡ rate_limited
    → (now < err.not_before) × (err.not_before < now + 2 ^ 63)
unfolding send_result
send_result-throttled atoi until now reason redirected err h k = ground (arith, h, k)
send_result-throttled atoi until now reason network_error err h k = ground (arith, h, k)
send_result-throttled atoi until now reason (response status header) err h k =
    let positive : is_positive (parse_retry_after atoi until header retry_fallback) ≡ true =
      parse_retry_after-is_positive atoi until header retry_fallback refl in
    (ground (arith, h, k, positive), ground (arith, h, k, positive))
