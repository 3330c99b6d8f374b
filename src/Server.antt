-- ===== src/Server.antt =====
-- internal/httpapi/server.go: what the handlers share. A response is its status and what its body
-- says; the texts of refusals, the other headers and the encoding of JSON are left out.
pub mod Dispatch
pub mod Handlers
pub mod Status
pub mod Recent
use hubbub.Common.{
  ℕ, zero, suc, ◌+◌, Bool, true, false, not, ◌&&◌, ◌||◌, List, [], ◌∷◌, Option, if◌then◌else◌, ◌==◌,
  length, map, count_if,
}
use hubbub.Common.Bytes.{Bytes, codes, equal}
use hubbub.Dlog.{Record}
use hubbub.Notify.{Notification}
use hubbub.Outbox.Registry.{Registry}
use hubbub.Ratelimit.{RateLimiter}

-- The results by channel, a Go map.
abbrev pub Results : Type 0
Results = List (Bytes × Bytes)

-- What the handlers call of the outbox engine, over its state: `Enqueue` with the error's text.
pub record EngineOps (S : Type 0) : Type 0 where
  pub enqueue : Notification → Bytes → Bool → S → Option Bytes × S

pub data Metric : Type 0 where
  auth_failure : Metric
  request : Bytes → Metric
  recent_read : Bytes → Metric

-- The shared state behind `Server`; the last log line and the last count come first.
pub record Hub (S : Type 0) : Type 0 where
  pub rate : RateLimiter
  pub registry : Registry
  pub engine : S
  pub log : List Record
  pub metrics : List Metric

pub data Response : Type 0 where
  refusal : ℕ → Response
  rate_capped : ℕ → Response
  answer : ℕ → Bytes → Bytes → Results → Response

abbrev pub status_code : Response → ℕ
status_code (refusal code) = code
status_code (rate_capped retry_after) = 429
status_code (answer code result request_id channels) = code

abbrev pub is_ok : Bytes → Bool
is_ok v = equal v (codes "ok")

abbrev pub is_queued : Bytes → Bool
is_queued v = equal v (codes "queued")

abbrev pub is_disabled : Bytes → Bool
is_disabled v = equal v (codes "disabled")

-- A failed one or a dropped one.
abbrev pub is_failed : Bytes → Bool
is_failed v = not (is_ok v || is_queued v || is_disabled v)

abbrev pub statuses : Results → List Bytes
statuses results = map (λ (p : Bytes × Bytes). p.1) results

-- `statusFor`.
unfoldable pub status_for : Results → ℕ × Bytes
status_for results =
    let vs = statuses results in
    let total = length vs in
    if count_if is_ok vs == total
    then (200, codes "delivered")
    else if count_if is_queued vs == total
    then (202, codes "queued")
    else if count_if is_failed vs == total
    then (502, codes "failed")
    else if count_if is_disabled vs == total
    then (207, codes "partial")
    else (207, codes "partial")
