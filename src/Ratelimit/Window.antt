-- ===== src/Ratelimit/Window.antt =====
-- The rate limiter over sequences of requests (internal/httpapi/ratelimit.go).
use hubbub.Common.{
  ℕ, ◌+◌, ◌≤◌, ◌<◌, true, false, ◌&&◌, List, [], ◌∷◌, ◌≡◌, inl, inr, refl, arith, if◌then◌else◌,
  ltb, leb, length, length-append, length-select, count_if, count_if-append, Bool-cases,
}
use hubbub.Ratelimit.{RateLimiter, still_inside, allow}

-- The times of those requests that are admitted, when requests come at the listed times.
unfoldable pub admitted : List ℕ → RateLimiter → List ℕ
admitted [] r = []
admitted (t ∷ ts) r =
    let rest = admitted ts (allow t r).1 in if (allow t r).0.0 then t ∷ rest else rest

-- The clock does not go back.
abbrev pub IsLater : ℕ → List ℕ → Type 0
IsLater now [] = Unit {0}
IsLater now (t ∷ ts) = (now ≤ t) × IsLater t ts

abbrev pub count_in : ℕ → ℕ → List ℕ → ℕ
count_in from window = count_if (λ t. leb from t && ltb t (from + window))

count_in-length : (from w : ℕ) (ts : List ℕ) → count_in from w ts ≤ length ts
count_in-length from w [] = omega arith
count_in-length from w (t ∷ ts) = ground (arith, count_in-length from w ts)

-- Requests behind the window do not count in it.
count_in-later :
    (from w now : ℕ) (ts : List ℕ) (r : RateLimiter)
    → from + w ≤ now
    → IsLater now ts
    → count_in from w (admitted ts r) ≡ 0
unfolding admitted
count_in-later from w now [] r h l = refl
count_in-later from w now (t ∷ ts) r h l =
    ground (arith, l.0, count_in-later from w t ts (allow t r).1 (omega (arith, h, l.0)) l.1)

-- What leaves the window of `now` is in no window that `now` is in.
count_in-still_inside :
    (from w now : ℕ) (ts : List ℕ)
    → now < from + w
    → count_in from w (still_inside now w ts) ≡ count_in from w ts
unfolding still_inside
count_in-still_inside from w now [] h = refl
count_in-still_inside from w now (t ∷ ts) h = ground (arith, count_in-still_inside from w now ts)

-- One call of `Allow` with a positive cap.
module _ (now : ℕ) (r : RateLimiter) (c : 1 ≤ r.cap) where
  allow_window :
      (from : ℕ)
      → now < from + r.window
      → count_in from r.window (allow now r).1.times
        ≡ count_in from r.window r.times
          + (if (allow now r).0.0 then count_in from r.window (now ∷ []) else 0)
  unfolding allow
  allow_window from h = ground (
    arith,
    count_in-still_inside from r.window now r.times,
    count_if-append (λ t. leb from t && ltb t (from + r.window)) (still_inside now r.window r.times)
        (now ∷ []),
  )

  allow_same : ((allow now r).1.cap ≡ r.cap) × ((allow now r).1.window ≡ r.window)
  unfolding allow
  allow_same = ground arith

  allow_room : length r.times ≤ r.cap → length (allow now r).1.times ≤ r.cap
  unfolding allow still_inside
  allow_room h = ground (
    arith,
    length-select (λ t. ltb now (t + r.window)) r.times,
    length-append (still_inside now r.window r.times) (now ∷ []),
  )

-- The requests to come add to those on record at most what the cap leaves.
window-admitted :
    (from now : ℕ) (ts : List ℕ) (r : RateLimiter)
    → 1 ≤ r.cap
    → length r.times ≤ r.cap
    → IsLater now ts
    → count_in from r.window r.times + count_in from r.window (admitted ts r) ≤ r.cap
unfolding admitted
window-admitted from now [] r c room l = omega (arith, count_in-length from r.window r.times, room)
window-admitted from now (t ∷ ts) r c room l = elim (Bool-cases (ltb t (from + r.window))) [
  | inl inside ↦ ground (
    arith,
    l.1,
    allow_same t r c,
    allow_room t r c room,
    allow_window t r c from,
    window-admitted from t ts (allow t r).1,
  )
  | inr behind ↦ ground (
    arith,
    l.1,
    count_in-length from r.window r.times,
    count_in-later from r.window t ts (allow t r).1,
  )
]

-- Of any sequence of requests at times that do not go back, a new limiter with a positive cap
-- admits at most `cap` in any window of its length.
pub admitted_bound :
    (cap window from now : ℕ) (ts : List ℕ)
    → 1 ≤ cap
    → IsLater now ts
    → count_in from window (admitted ts (record { cap = cap; window = window; times = [] })) ≤ cap
admitted_bound k w from now ts c l = omega (
  arith,
  window-admitted from now ts (record { cap = k; window = w; times = [] }) c (omega arith) l,
)

-- After a refusal at `now` with a wait, the oldest record is gone at the end of the wait.
still_inside-shrinks :
    (now at w : ℕ) (t : ℕ) (ts : List ℕ)
    → t + w ≤ at
    → length (still_inside at w (t ∷ ts)) ≤ length ts
unfolding still_inside
still_inside-shrinks now at w t ts h = ground (arith, length-select (λ t. ltb at (t + w)) ts)

module _ (now at : ℕ) (r : RateLimiter) where
  -- A refused request that comes again after the wait that it was told, with no other request
  -- admitted between, is admitted, when the limiter holds no more records than its cap.
  pub allow-retry :
      length r.times ≤ r.cap
      → (allow now r).0.0 ≡ false
      → now + (allow now r).0.1 ≤ at
      → (allow at (allow now r).1).0.0 ≡ true
  unfolding allow
  allow-retry room refused late =
      go (still_inside now r.window r.times)
        (unfold still_inside in length-select (λ t. ltb now (t + r.window)) r.times) refl
    where
      go :
          (keep : List ℕ)
          → length keep ≤ length r.times
          → still_inside now r.window r.times ≡ keep
          → (allow at (allow now r).1).0.0 ≡ true
      go [] s e = ground (arith, e, refused, room)
      go (t ∷ ts) s e =
          ground (arith, e, refused, room, late, still_inside-shrinks now at r.window t ts)
