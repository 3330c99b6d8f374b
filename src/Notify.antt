-- ===== src/Notify.antt =====
-- internal/notify/notify.go: the notification type, its sanitisers and its ingest checks. A Go
-- string is the list of its code points, which is what `range` yields of a valid one; `byte_len` is
-- its `len`, and only `TruncateBytes` reads bytes. `unicode.ToLower` is a parameter.
pub mod Truncate
pub mod Accepted
use hubbub.Common.{
  ℕ, zero, suc, ◌+◌, ◌-◌, ◌*◌, ◌/◌, ◌%◌, Bool, true, false, not, ◌&&◌, ◌||◌, List, [], ◌∷◌, ◌++◌,
  Option, none, some, if◌then◌else◌, ◌==◌, leb, ltb, length, take, get_or, select, all, any,
}
use hubbub.Common.Bytes.{Bytes, codes, equal, trim}

pub data Priority : Type 0 where
  low default high urgent : Priority

pub record Notification : Type 0 where
  pub title : Bytes
  pub message : Bytes
  pub html : Bytes
  pub priority : Priority
  pub tags : List Bytes
  pub caller_id : Bytes
  pub request_id : Bytes
  pub created_at : ℕ

-- The white space of `strings.TrimSpace`, the Unicode property White_Space.
abbrev pub is_white : ℕ → Bool
is_white r =
    (leb 0x09 r && leb r 0x0d)
    || r == 0x20
    || r == 0x85
    || r == 0xa0
    || r == 0x1680
    || (leb 0x2000 r && leb r 0x200a)
    || r == 0x2028
    || r == 0x2029
    || r == 0x202f
    || r == 0x205f
    || r == 0x3000

abbrev map_runes : (ℕ → ℕ) → Bytes → Bytes
map_runes f [] = []
map_runes f (r ∷ rs) = f r ∷ map_runes f rs

-- `ParsePriority`; `none` is its error.
unfoldable pub priority_of : Bytes → Option Priority
priority_of s =
    if equal s []
    then some default
    else if equal s (codes "low")
    then some low
    else if equal s (codes "default")
    then some default
    else if equal s (codes "high")
    then some high
    else if equal s (codes "urgent")
    then some urgent
    else none

abbrev pub parse_priority : (ℕ → ℕ) → Bytes → Option Priority
parse_priority to_lower s = priority_of (map_runes to_lower (trim is_white s))

-- The control characters: below the space, DEL, and those from 0x80 to 0x9f.
abbrev pub is_control : ℕ → Bool
is_control r = ltb r 0x20 || r == 0x7f || (leb 0x80 r && leb r 0x9f)

unfoldable pub strip_control : Bool → Bytes → Bytes
strip_control keep_newlines s =
    select (λ r. (keep_newlines && (r == b'\n' || r == b'\t')) || not (is_control r)) s

abbrev pub sanitize_title : Bytes → Bytes
sanitize_title = strip_control false

abbrev pub sanitize_message : Bytes → Bytes
sanitize_message = strip_control true

abbrev pub sanitize_html_body : Bytes → Bytes
sanitize_html_body = strip_control true

unfoldable pub sanitize_tags : List Bytes → List Bytes
sanitize_tags [] = []
sanitize_tags (t ∷ ts) =
    let c = strip_control false t in
    let rest = sanitize_tags ts in if equal c [] then rest else c ∷ rest

abbrev pub rune_len : ℕ → ℕ
rune_len r = if ltb r 0x80 then 1 else if ltb r 0x800 then 2 else if ltb r 0x10000 then 3 else 4

unfoldable pub byte_len : Bytes → ℕ
byte_len [] = 0
byte_len (r ∷ rs) = rune_len r + byte_len rs

pub data Invalid : Type 0 where
  no_title no_message long_title long_message long_html many_tags long_tag : Invalid

-- `Validate`; `none` is no error. Its caps are MaxTitleLen, MaxMessageLen, MaxHTMLLen, MaxTags and
-- MaxTagLen.
unfoldable pub validate : Notification → Option Invalid
validate n =
    if all is_white n.title
    then some no_title
    else if all is_white n.message
    then some no_message
    else if ltb 256 (byte_len n.title)
    then some long_title
    else if ltb 4096 (byte_len n.message)
    then some long_message
    else if ltb 131072 (byte_len n.html)
    then some long_html
    else if ltb 16 (length n.tags)
    then some many_tags
    else if any (λ t. ltb 64 (byte_len t)) n.tags
    then some long_tag
    else none

-- `utf8.RuneStart`.
abbrev pub rune_start : ℕ → Bool
rune_start b = not (leb 0x80 b && ltb b 0xc0)

-- The loop of `TruncateBytes`.
unfoldable pub back_to_start : Bytes → ℕ → ℕ
back_to_start s zero = zero
back_to_start s (suc cut) =
    let rest = back_to_start s cut in if rune_start (get_or s (suc cut) 0) then suc cut else rest

-- `TruncateBytes`, on bytes.
unfoldable pub truncate_bytes : Bytes → ℕ → Bytes → Bytes
truncate_bytes s max_bytes marker =
    if leb (length s) max_bytes
    then s
    else take (back_to_start s (max_bytes - length marker)) s ++ marker
