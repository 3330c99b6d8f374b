-- ===== src/Ratelimit.antt =====
-- internal/httpapi/ratelimit.go: the rolling window over all requests. Times and durations are
-- nanoseconds from 0; `t.After(now.Add(-window))` is `now < t + window`, and a negative cap is 0.
pub mod Window
use hubbub.Common.{
  ℕ, ◌+◌, ◌-◌, ◌^◌, max, Bool, true, false, List, [], ◌∷◌, ◌++◌, if◌then◌else◌, ltb, leb, ◌==◌,
  length, get_or, select,
}

pub record RateLimiter : Type 0 where
  pub cap : ℕ
  pub window : ℕ
  pub times : List ℕ

abbrev pub new_rate_limiter : ℕ → ℕ → RateLimiter
new_rate_limiter cap window = record { cap = cap; window = window; times = [] }

-- The loop of `Allow`: the recorded requests that are still inside the window.
unfoldable pub still_inside : ℕ → ℕ → List ℕ → List ℕ
still_inside now window times = select (λ t. ltb now (t + window)) times

-- The least `Retry-After`, a second.
abbrev pub least_retry : ℕ
least_retry = 10 ^ 9

-- `Allow`: whether the request is admitted, how long to wait if not, and the state after it.
unfoldable pub allow : ℕ → RateLimiter → (Bool × ℕ) × RateLimiter
allow now r =
    let keep = still_inside now r.window r.times in
    if r.cap == 0
    then ((true, 0), r)
    else if leb r.cap (length keep)
    then ((false, max (get_or keep 0 0 + r.window - now) least_retry), record r { times = keep })
    else ((true, 0), record r { times = keep ++ now ∷ [] })
