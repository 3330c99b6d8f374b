-- ===== src/Tests/AdapterTests.antt =====
-- A throttled delivery at a concrete response.
use hubbub.Common.{ℕ, ◌+◌, ◌*◌, ◌^◌, ◌<◌, false, [], Option, none, some, ◌≡◌, refl}
use hubbub.Common.Bytes.{Bytes, codes, equal}
use hubbub.Common.Space.{trim_space}
use hubbub.Outbox.Worker.Attempt.{rate_limited, SendError, send_error}
use hubbub.Ntfy.{Number, response, parse_retry_after, send_result}
use hubbub.Ntfy.Answers.{send_result-throttled}

-- A number of seconds whose nanoseconds overflow to a negative duration.
abbrev atoi_large : Bytes → Option Number
atoi_large t = some (record { negative = false; size = 9_300_000_000 })

abbrev no_date : Bytes → Option ℕ
no_date t = none

abbrev throttled : SendError
throttled = record { kind = rate_limited; not_before = 5 + 30 * 10 ^ 9; reason = [] }

was_throttled :
    send_result atoi_large no_date 5 [] (response 429 (codes "9300000000")) ≡ send_error throttled
unfolding send_result parse_retry_after equal trim_space
was_throttled = refl

send_result-throttled_example : (5 < 5 + 30 * 10 ^ 9) × (5 + 30 * 10 ^ 9 < 5 + 2 ^ 63)
send_result-throttled_example =
    send_result-throttled atoi_large no_date 5 [] (response 429 (codes "9300000000")) throttled
      was_throttled refl
