-- ===== src/Notify/Truncate.antt =====
-- `TruncateBytes` on the UTF-8 form of a string (internal/notify/notify.go).
use hubbub.Common.{ℕ, ◌+◌, ◌/◌, ◌%◌, [], ◌∷◌, ◌++◌, if◌then◌else◌, ltb}
use hubbub.Common.Bytes.{Bytes}

-- The UTF-8 form of a code point, and of a string.
abbrev tail_byte : ℕ → ℕ
tail_byte n = 0x80 + n % 64

abbrev pub encode_rune : ℕ → Bytes
encode_rune r =
    if ltb r 0x80
    then r ∷ []
    else if ltb r 0x800
    then (0xc0 + r / 64) ∷ tail_byte r ∷ []
    else if ltb r 0x10000
    then (0xe0 + r / 4096) ∷ tail_byte (r / 64) ∷ tail_byte r ∷ []
    else (0xf0 + r / 262144) ∷ tail_byte (r / 4096) ∷ tail_byte (r / 64) ∷ tail_byte r ∷ []

unfoldable pub encode : Bytes → Bytes
encode [] = []
encode (r ∷ rs) = encode_rune r ++ encode rs
