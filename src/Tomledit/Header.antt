-- ===== src/Tomledit/Header.antt =====
-- internal/tomledit/tomledit.go: `classify` and `parseHeader`. `unquoteBasic` asks the TOML parser,
-- a third-party package: it is a parameter, `none` when the parser refuses the string.
use hubbub.Common.{
  ℕ, zero, suc, Bool, true, false, not, ◌&&◌, ◌||◌, List, [], ◌∷◌, ◌++◌, Option, none, some,
  if◌then◌else◌, ◌==◌, take, drop, length,
}
use hubbub.Common.Bytes.{Bytes, codes, has_prefix, trim, trim_left, join}
use hubbub.Tomledit.Lines.{quote, apostrophe, skip_basic, skip_literal}

pub data LineKind : Type 0 where
  blank comment header other : LineKind

-- `Trim(…, " \t\r\n")`.
abbrev pub is_space : ℕ → Bool
is_space c = c == b' ' || c == b'\t' || c == b'\r' || c == b'\n'

abbrev pub bom : Bytes
bom = 0xef ∷ 0xbb ∷ 0xbf ∷ []

unfoldable pub trim_prefix : Bytes → Bytes → Bytes
trim_prefix s p = if has_prefix s p then drop (length p) s else s

abbrev closers : ℕ → Bool
closers c = c == b']' || c == b' ' || c == b'\t'

-- What the header loop does at one byte: it returns, or goes on with its parts, the current part
-- and whether a quoted key was read.
pub data HeaderMove : Type 0 where
  done : Option (Bytes × Bool) → HeaderMove
  more : ℕ → List Bytes → Bytes → Bool → HeaderMove

-- Behind the closing bracket only white space and a comment may stand.
clean_rest : Bytes → Bool
clean_rest [] = true
clean_rest (c ∷ cs) = c == b'#'

named : Bytes → Bool → Option (Bytes × Bool)
named [] simple = none
named (c ∷ cs) simple = some (c ∷ cs, simple)

unfoldable pub close_header : Bool → Bytes → List Bytes → Option (Bytes × Bool)
unfolding clean_rest named
close_header array_table rest parts =
    if clean_rest (trim_left closers rest)
    then named (join b'.' parts) (length parts == 1 && not array_table)
    else none

-- A literal key between apostrophes; `n` bytes are consumed behind the first.
literal_part : ℕ → Bytes → List Bytes → Bytes → HeaderMove
literal_part zero rest parts cur = done none
literal_part (suc n) rest parts cur = more (suc n) parts (cur ++ take n rest) true

module _ (unquote : Bytes → Option Bytes) where
  unquoted_part : Option Bytes → ℕ → List Bytes → Bytes → HeaderMove
  unquoted_part none n parts cur = done none
  unquoted_part (some s) n parts cur = more n parts (cur ++ s) true

  unfoldable pub header_at : Bool → ℕ → Bytes → List Bytes → Bytes → Bool → HeaderMove
  unfolding literal_part unquoted_part
  header_at array_table c rest parts cur quoted =
      if c == b']'
      then done (close_header array_table rest (parts ++ cur ∷ []))
      else if c == b'.'
      then more 0 (parts ++ cur ∷ []) [] quoted
      else if c == quote
      then unquoted_part (unquote (c ∷ take (skip_basic rest) rest)) (skip_basic rest) parts cur
      else if c == apostrophe
      then literal_part (skip_literal rest) rest parts cur
      else if c == b' ' || c == b'\t'
      then more 0 parts cur quoted
      else if quoted
      then done none
      else more 0 parts (cur ++ c ∷ []) quoted

  unfoldable pub header_from : Bool → ℕ → Bytes → List Bytes → Bytes → Bool → Option (Bytes × Bool)
  header_from array_table skip [] parts cur quoted = none
  header_from array_table (suc skip) (c ∷ cs) parts cur quoted =
      header_from array_table skip cs parts cur quoted
  header_from array_table zero (c ∷ cs) parts cur quoted =
      elim (header_at array_table c cs parts cur quoted) [
        | done r ↦ r
        | more skip parts' cur' quoted' ↦ header_from array_table skip cs parts' cur' quoted'
      ]

  -- The id and whether the header is a plain `[x]`.
  unfoldable pub parse_header : Bytes → Option (Bytes × Bool)
  parse_header t =
      let array_table = has_prefix t (codes "[[") in
      header_from array_table 0 (drop (if array_table then 2 else 1) t) [] [] false

  classified : Option (Bytes × Bool) → LineKind × Bytes × Bool
  classified none = (other, [], false)
  classified (some (id, simple)) = (header, id, simple)

  classify_trimmed : Bytes → LineKind × Bytes × Bool
  unfolding classified
  classify_trimmed [] = (blank, [], false)
  classify_trimmed (c ∷ cs) =
      if c == b'#'
      then (comment, [], false)
      else if c == b'['
      then classified (parse_header (c ∷ cs))
      else (other, [], false)

  unfoldable pub classify : Bytes → LineKind × Bytes × Bool
  unfolding classify_trimmed
  classify raw = classify_trimmed (trim is_space (trim_prefix raw bom))
