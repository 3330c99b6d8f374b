-- ===== src/Config.antt =====
-- The names that may become a directory or a table: internal/config/channels.go `ValidChannelID`,
-- internal/config/keys.go `ValidCallerID` and internal/outbox/engine.go `safeSpoolName`. A name is
-- its bytes: a byte from 0x80 on belongs to a rune that none of the three allows.
pub mod Ids
pub mod Keys
pub mod Channels
pub mod Store
use hubbub.Common.{
  ℕ, Bool, true, false, not, ◌&&◌, ◌||◌, List, [], ◌∷◌, Option, none, some, if◌then◌else◌, ◌==◌,
  leb, ltb, length, all,
}
use hubbub.Common.Bytes.{Bytes, codes, equal}

abbrev pub is_letter_or_digit : ℕ → Bool
is_letter_or_digit r =
    (leb b'a' r && leb r b'z') || (leb b'A' r && leb r b'Z') || (leb b'0' r && leb r b'9')

abbrev pub is_channel_char : ℕ → Bool
is_channel_char r = is_letter_or_digit r || r == b'-' || r == b'_' || r == b'.'

abbrev pub is_caller_char : ℕ → Bool
is_caller_char r = is_letter_or_digit r || r == b'-' || r == b'_'

pub data IdError : Type 0 where
  empty_id path_reference long_id bad_character : IdError

-- `none` is no error.
unfoldable pub valid_channel_id : Bytes → Option IdError
valid_channel_id id =
    if equal id []
    then some empty_id
    else if equal id (codes ".") || equal id (codes "..")
    then some path_reference
    else if ltb 64 (length id)
    then some long_id
    else if all is_channel_char id
    then none
    else some bad_character

unfoldable pub valid_caller_id : Bytes → Option IdError
valid_caller_id id =
    if equal id []
    then some empty_id
    else if ltb 64 (length id)
    then some long_id
    else if all is_caller_char id
    then none
    else some bad_character

unfoldable pub safe_spool_name : Bytes → Bool
safe_spool_name id =
    if equal id [] || equal id (codes ".") || equal id (codes "..") || ltb 64 (length id)
    then false
    else all is_channel_char id
