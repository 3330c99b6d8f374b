-- ===== src/Outbox/Name.antt =====
-- internal/outbox/spool.go: `Item`, its file name, and what a file name says of its item.
-- A time is the nanoseconds since the Unix epoch.
pub mod RoundTrip
use hubbub.Common.{
  ℕ, zero, suc, ◌+◌, ◌-◌, ◌*◌, ◌/◌, ◌%◌, ◌^◌, Bool, true, false, ◌&&◌, List, [], ◌∷◌, ◌++◌, Option,
  none, some, if◌then◌else◌, ltb, leb, ◌==◌, within, length, take, drop,
}
use hubbub.Common.Bytes.{Bytes, codes, equal, cut_at}
use hubbub.Notify.{Notification}

pub record Item : Type 0 where
  pub notification : Notification
  pub channel : Bytes
  pub attempts : ℕ
  pub not_before : ℕ
  pub enqueued_at : ℕ
  pub test : Bool

-- The last `k` decimal digits of a number, zero-padded. An `int64` has at most 19 digits, so with
-- `k = 20` this is what `%020d` prints.
unfoldable pub pad : ℕ → ℕ → Bytes
pad zero n = []
pad (suc k) n = pad k (n / 10) ++ (48 + n % 10) ∷ []

abbrev pub json : Bytes
json = codes ".json"

abbrev pub dash : ℕ
dash = b'-'

-- The name without its extension.
abbrev pub stem : Item → Bytes
stem it =
    (if it.test then b'0' else b'1')
    ∷ dash
    ∷ (pad 20 it.enqueued_at ++ dash ∷ it.notification.request_id)

unfoldable pub file_name : Item → Bytes
file_name it = stem it ++ json

-- `strings.TrimSuffix`, and `strings.HasSuffix`.
unfoldable pub has_suffix : Bytes → Bytes → Bool
has_suffix s end = leb (length end) (length s) && equal (drop (length s - length end) s) end

unfoldable pub trim_suffix : Bytes → Bytes → Bytes
trim_suffix s end = if has_suffix s end then take (length s - length end) s else s

-- `strings.SplitN(base, "-", 3)`, when it has three parts.
unfoldable pub split_name : Bytes → Option (Bytes × Bytes × Bytes)
split_name base = elim (cut_at dash base) [
  | none ↦ none
  | some (class, rest) ↦ elim (cut_at dash rest) [
    | none ↦ none
    | some (nanos, id) ↦ some (class, nanos, id)
  ]
]

unfoldable pub request_id_from_name : Bytes → Bytes
request_id_from_name name = elim (split_name (trim_suffix name json)) [
  | none ↦ []
  | some (class, nanos, id) ↦ id
]

abbrev pub max_int64 : ℕ
max_int64 = 2 ^ 63 - 1

unfoldable pub digits_value : ℕ → Bytes → Option ℕ
digits_value acc [] = some acc
digits_value acc (c ∷ cs) =
    if within b'0' b'9' c then digits_value (acc * 10 + (c - b'0')) cs else none

in_range : Option ℕ → Option ℕ
in_range none = none
in_range (some n) = if leb n max_int64 then some n else none

unsigned : Bytes → Option ℕ
unfolding digits_value in_range
unsigned [] = none
unsigned (c ∷ cs) = in_range (digits_value 0 (c ∷ cs))

-- `strconv.ParseInt(s, 10, 64)` on a part between dashes, which holds no minus sign.
unfoldable pub parse_int : Bytes → Option ℕ
unfolding unsigned
parse_int [] = none
parse_int (c ∷ cs) = if c == b'+' then unsigned cs else unsigned (c ∷ cs)

unfoldable pub enqueue_nanos_from_name : Bytes → Option ℕ
enqueue_nanos_from_name name = elim (split_name (trim_suffix name json)) [
  | none ↦ none
  | some (class, nanos, id) ↦ parse_int nanos
]
