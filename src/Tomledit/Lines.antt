-- ===== src/Tomledit/Lines.antt =====
-- internal/tomledit/tomledit.go: physical lines, and the string and bracket state that `advance`
-- carries across them. A loop over an index is a recursion on the bytes from that index on, and a
-- jump of the index is a number of bytes still to be skipped.
pub mod Cover
use hubbub.Common.{
  ℕ, zero, suc, ◌+◌, ◌-◌, Bool, true, false, ◌&&◌, ◌||◌, List, [], ◌∷◌, ◌++◌, if◌then◌else◌, ◌==◌,
  ltb,
}
use hubbub.Common.Bytes.{Bytes, has_prefix}

-- The lines with their newlines; only the last may have none.
abbrev pub cons_line : ℕ → List Bytes → List Bytes
cons_line c [] = (c ∷ []) ∷ []
cons_line c (l ∷ ls) = (c ∷ l) ∷ ls

unfoldable pub split_lines : Bytes → List Bytes
split_lines [] = []
split_lines (c ∷ cs) =
    let rest = split_lines cs in if c == b'\n' then (c ∷ []) ∷ rest else cons_line c rest

pub data MlKind : Type 0 where
  none basic literal : MlKind

abbrev pub quote : ℕ
quote = b'"'

abbrev pub apostrophe : ℕ
apostrophe = 0x27

abbrev pub backslash : ℕ
backslash = b'\\'

-- `skipBasic`, as the number of bytes consumed behind the opening quote.
unfoldable pub skip_basic : Bytes → ℕ
skip_basic [] = 0
skip_basic (c ∷ []) = if c == b'\n' then 0 else 1
skip_basic (c ∷ d ∷ cs) =
    let escaped = 2 + skip_basic cs in
    let plain = 1 + skip_basic (d ∷ cs) in
    if c == backslash then escaped else if c == quote then 1 else if c == b'\n' then 0 else plain

-- `skipLiteral`, in the same way.
unfoldable pub skip_literal : Bytes → ℕ
skip_literal [] = 0
skip_literal (c ∷ cs) =
    let rest = 1 + skip_literal cs in if c == apostrophe then 1 else if c == b'\n' then 0 else rest

abbrev pub three : ℕ → Bytes
three c = c ∷ c ∷ c ∷ []

-- What `advance` does at one byte: it stops at a comment, or goes on behind some more bytes.
pub data Move : Type 0 where
  stop : Move
  go : ℕ → MlKind → ℕ → Move

in_basic : ℕ → Bytes → ℕ → Move
in_basic c rest depth =
    if c == backslash
    then go 1 MlKind.basic depth
    else if has_prefix (c ∷ rest) (three quote)
    then go 2 MlKind.none depth
    else go 0 MlKind.basic depth

in_literal : ℕ → Bytes → ℕ → Move
in_literal c rest depth =
    if has_prefix (c ∷ rest) (three apostrophe)
    then go 2 MlKind.none depth
    else go 0 MlKind.literal depth

outside : ℕ → Bytes → ℕ → Move
outside c rest depth =
    if c == b'#'
    then stop
    else if c == quote
    then (if has_prefix (c ∷ rest) (three quote)
        then go 2 MlKind.basic depth
        else go (skip_basic rest) MlKind.none depth)
    else if c == apostrophe
    then (if has_prefix (c ∷ rest) (three apostrophe)
        then go 2 MlKind.literal depth
        else go (skip_literal rest) MlKind.none depth)
    else if c == b'[' || c == b'{'
    then go 0 MlKind.none (depth + 1)
    else if c == b']' || c == b'}'
    then go 0 MlKind.none (depth - 1)
    else go 0 MlKind.none depth

unfoldable pub advance_at : MlKind → ℕ → Bytes → ℕ → Move
unfolding in_basic in_literal outside
advance_at MlKind.basic c rest depth = in_basic c rest depth
advance_at MlKind.literal c rest depth = in_literal c rest depth
advance_at MlKind.none c rest depth = outside c rest depth

unfoldable pub advance_from : ℕ → Bytes → MlKind → ℕ → MlKind × ℕ
advance_from skip [] ml depth = (ml, depth)
advance_from (suc skip) (c ∷ cs) ml depth = advance_from skip cs ml depth
advance_from zero (c ∷ cs) ml depth = elim (advance_at ml c cs depth) [
  | stop ↦ (ml, depth)
  | go skip ml' depth' ↦ advance_from skip cs ml' depth'
]

unfoldable pub advance : Bytes → MlKind → ℕ → MlKind × ℕ
unfolding advance_from advance_at
advance raw ml depth = advance_from 0 raw ml depth
