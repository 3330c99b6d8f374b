-- ===== src/Tests/RequestTests.antt =====
-- internal/notify and the rate limiter of internal/httpapi at concrete inputs.
use hubbub.Common.{ℕ, ◌≤◌, true, false, List, [], ◌∷◌, ◌≡◌, refl, arith}
use hubbub.Common.Bytes.{Bytes, codes}
use hubbub.Notify.{truncate_bytes, back_to_start, strip_control}
use hubbub.Notify.Truncate.{encode}
use hubbub.Ratelimit.{RateLimiter, still_inside, allow}
use hubbub.Ratelimit.Window.{admitted, count_in, admitted_bound}

-- "a€b" cut to 4 bytes with a marker of one byte: the euro sign does not fit and is not split.
abbrev euro : Bytes
euro = b'a' ∷ 0x20ac ∷ b'b' ∷ []

cut_euro : truncate_bytes (encode euro) 4 (codes "~") ≡ codes "a~"
unfolding truncate_bytes back_to_start encode
cut_euro = refl

abbrev burst : List ℕ
burst = 5 ∷ 6 ∷ 7 ∷ 30 ∷ []

burst_served : admitted burst (record { cap = 2; window = 10; times = [] }) ≡ 5 ∷ 6 ∷ 30 ∷ []
unfolding admitted allow still_inside
burst_served = refl

admitted_bound_example :
    count_in 5 10 (admitted burst (record { cap = 2; window = 10; times = [] })) ≤ 2
admitted_bound_example =
    admitted_bound 2 10 5 5 burst (omega arith)
      (omega arith, (omega arith, (omega arith, (omega arith, tt))))

abbrev full : RateLimiter
full = record { cap = 2; window = 10; times = 5 ∷ 6 ∷ [] }

full_refuses : allow 7 full ≡ ((false, 1_000_000_000), full)
unfolding allow still_inside
full_refuses = refl

no_return : strip_control true (codes "a\tb\r\n") ≡ codes "a\tb\n"
unfolding strip_control
no_return = refl
