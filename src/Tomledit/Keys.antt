-- ===== src/Tomledit/Keys.antt =====
-- internal/tomledit/tomledit.go: the assignments of a body and the masking of its string values.
pub mod Mask
use hubbub.Common.{
  ℕ, zero, suc, ◌+◌, ◌-◌, Bool, true, false, not, ◌&&◌, ◌||◌, List, [], ◌∷◌, ◌++◌, Option, none,
  some, if◌then◌else◌, ◌==◌, ltb, length, take, drop, slice, get_or, any,
}
use hubbub.Common.Bytes.{Bytes, codes, equal, trim, cut_at, has_prefix}
use hubbub.Outbox.Name.{has_suffix}
use hubbub.Tomledit.Lines.{quote, apostrophe, skip_basic, skip_literal, three}
use hubbub.Tomledit.Header.{LineKind, blank, comment, header, other, is_space, classify}
use hubbub.Tomledit.Scan.{Line, scan, is_value}
use hubbub.Tomledit.Span.{Result, ok, err, ◌>>=◌, body_span}
use hubbub.Tomledit.Edit.{lf, dominant_eol, splice}

abbrev is_tab : ℕ → Bool
is_tab c = c == b' ' || c == b'\t'

-- The characters that make a key more than a bare one.
abbrev is_special : ℕ → Bool
is_special c = c == quote || c == apostrophe || c == b'.' || c == b'[' || c == b']' || c == b'#'

bare_key : Bytes → Option Bytes
bare_key k = if equal k [] || any is_special k then none else some k

unfoldable pub key_of : Bytes → Option Bytes
unfolding bare_key
key_of raw = elim (cut_at b'=' raw) [ none ↦ none | some (lhs, rhs) ↦ bare_key (trim is_tab lhs) ]

-- `logicalEnd`, given the end of the line and the lines behind it.
unfoldable pub logical_end : ℕ → List Line → ℕ
logical_end end [] = end
logical_end end (l ∷ ls) = let rest = logical_end l.stop ls in if l.structural then end else rest

pub record KeyLine : Type 0 where
  pub name : Bytes
  pub value : Bytes
  pub start : ℕ
  pub stop : ℕ

-- The name that a line assigns to, if it is an assignment.
unfoldable pub assigned : Bytes → Line → Option Bytes
assigned body l = if is_value l then key_of (slice l.start l.stop body) else none

abbrev right_side : Bytes → Bytes
right_side b = elim (cut_at b'=' b) [ none ↦ [] | some (lhs, rhs) ↦ rhs ]

unfoldable pub key_lines_from : Bytes → List Line → List KeyLine
key_lines_from body [] = []
key_lines_from body (l ∷ ls) = elim (assigned body l) [
  | none ↦ key_lines_from body ls
  | some name ↦
      record {
        name = name;
        value = trim is_space (right_side (slice l.start (logical_end l.stop ls) body));
        start = l.start;
        stop = logical_end l.stop ls;
      }
      ∷ key_lines_from body ls
]

-- Where the first assignment to the key stands.
unfoldable pub find_key : Bytes → Bytes → List Line → Option (ℕ × ℕ)
find_key key body [] = none
find_key key body (l ∷ ls) = elim (assigned body l) [
  | none ↦ find_key key body ls
  | some name ↦
      let rest = find_key key body ls in
      if equal name key then some (l.start, logical_end l.stop ls) else rest
]

-- The edit of `SetKeyInBlock` in a body that starts at `start`.
unfoldable pub set_key : Bytes → Bytes → ℕ → Bytes → Option (ℕ × ℕ) → Bytes
set_key src assign start body none = splice src start start (assign ++ dominant_eol src)
set_key src assign start body (some (a, b)) =
    splice src (start + a) (start + b)
      (assign ++ (if has_suffix (slice a b body) lf then dominant_eol src else []))

-- What `MaskStrings` does at one byte: it writes the rest of the line, or some bytes and goes on
-- behind some more.
pub data MaskMove : Type 0 where
  last : Bytes → MaskMove
  more : Bytes → ℕ → MaskMove

-- The number of bytes inside a string of which `n` bytes are consumed behind the opening quote.
abbrev pub inner_len : ℕ → Bytes → ℕ → ℕ
inner_len c rest n = if ltb 0 n && (get_or rest (n - 1) 0 == c) then n - 1 else n

abbrev masked : (Bytes → Bytes) → ℕ → Bytes → ℕ → MaskMove
masked mask c rest n =
    let m = inner_len c rest n in more (c ∷ (mask (take m rest) ++ slice m n rest)) n

unfoldable pub mask_at : (Bytes → Bytes) → ℕ → Bytes → MaskMove
mask_at mask c rest =
    if c == b'#'
    then last (c ∷ rest)
    else if has_prefix (c ∷ rest) (three quote) || has_prefix (c ∷ rest) (three apostrophe)
    then last (take 3 (c ∷ rest) ++ mask (drop 3 (c ∷ rest)))
    else if c == quote
    then masked mask c rest (skip_basic rest)
    else if c == apostrophe
    then masked mask c rest (skip_literal rest)
    else more (c ∷ []) 0

unfoldable pub mask_from : (Bytes → Bytes) → ℕ → Bytes → Bytes
mask_from mask skip [] = []
mask_from mask (suc skip) (c ∷ cs) = mask_from mask skip cs
mask_from mask zero (c ∷ cs) = elim (mask_at mask c cs) [
  | last out ↦ out
  | more out skip ↦ out ++ mask_from mask skip cs
]

-- An assignment is masked from behind its `=`, and a line without a bare key under the empty name.
unfoldable pub mask_line : (Bytes → Bytes → Bytes) → Bytes → Option Bytes → Bytes
mask_line mask line none = mask_from (mask []) 0 line
mask_line mask line (some name) = elim (cut_at b'=' line) [
  | none ↦ mask_from (mask name) 0 line
  | some (lhs, rhs) ↦ lhs ++ (b'=' ∷ mask_from (mask name) 0 rhs)
]

mask_kind : (Bytes → Bytes → Bytes) → Bytes → LineKind → Bytes
mask_kind mask line other = mask_line mask line (key_of line)
mask_kind mask line _ = line

module _ (unquote : Bytes → Option Bytes) where
  unfoldable pub key_lines : Bytes → List KeyLine
  key_lines body = key_lines_from body (scan unquote body)

  unfoldable pub set_key_in_block : Bytes → Bytes → Bytes → Bytes → Result Bytes
  set_key_in_block src id key value = do
    r ← body_span unquote src id
    let body = slice r.0 r.1 src
    ok (
        set_key src (key ++ (codes " = " ++ value)) r.0 body
          (find_key key body (scan unquote body)))

  unfoldable pub mask_strings : Bytes → (Bytes → Bytes → Bytes) → Bytes
  unfolding mask_kind
  mask_strings line mask = mask_kind mask line (classify unquote line).0
