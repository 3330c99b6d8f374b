-- ===== src/Dlog.antt =====
-- internal/dlog: the delivery log. A time is the nanoseconds since Go's zero time, which is 0, so
-- `IsZero` is a test for 0 and `After` is `<`. A line that JSON decoding accepts is a `Record`.
pub mod Parse
pub mod Page
pub mod Recent
use hubbub.Common.{ℕ, [], ◌∷◌, ◌==◌, ◌-◌, ◌%◌, ◌^◌, List, if◌then◌else◌, ltb}
use hubbub.Common.Bytes.{Bytes}

-- The kinds that a read tells apart; every other one with its name.
pub data Kind : Type 0 where
  request : Kind
  terminal : Kind
  other : Bytes → Kind

pub record Record : Type 0 where
  pub time : ℕ
  pub kind : Kind
  pub request_id : Bytes
  pub caller_id : Bytes
  pub result : Bytes
  pub channels : List (Bytes × Bytes)
  pub title : Bytes
  pub msg_bytes : ℕ
  pub html_bytes : ℕ
  pub priority : Bytes
  pub channel : Bytes
  pub outcome : Bytes
  pub actor : Bytes
  pub action : Bytes
  pub peer : Bytes
  pub claimed_ip : Bytes
  pub detail : Bytes

pub record Delivery : Type 0 where
  pub time : ℕ
  pub settled : ℕ
  pub request_id : Bytes
  pub caller_id : Bytes
  pub channel : Bytes
  pub title : Bytes
  pub priority : Bytes
  pub outcome : Bytes

-- `Delivery.Changed`.
abbrev pub changed_at : Delivery → ℕ
changed_at d = if ltb d.time d.settled then d.settled else d.time

abbrev pub time_resolution : ℕ
time_resolution = 10 ^ 6

-- `Time.Truncate(timeResolution)`.
abbrev pub truncate : ℕ → ℕ
truncate t = t - t % time_resolution

pub record Query : Type 0 where
  pub limit : ℕ
  pub since : ℕ
  pub channel : Bytes

abbrev pub empty_record : Record
empty_record = record {
  time = 0;
  kind = other [];
  request_id = [];
  caller_id = [];
  result = [];
  channels = [];
  title = [];
  msg_bytes = 0;
  html_bytes = 0;
  priority = [];
  channel = [];
  outcome = [];
  actor = [];
  action = [];
  peer = [];
  claimed_ip = [];
  detail = [];
}

-- `Append` at a time, to the lines so far, the last one first. A line that cannot be written is only
-- reported.
abbrev pub append : ℕ → Record → List Record → List Record
append now r lines = (if r.time == 0 then record r { time = now } else r) ∷ lines
