-- ===== src/Tomledit/Span.antt =====
-- internal/tomledit/tomledit.go: `Span`, `BodySpan` and `trimTrailing`, on the lines of a scan. An
-- index out of range, which the code never reads, reads a value line here.
pub mod Trim
pub mod Bounds
use hubbub.Common.{
  ℕ, zero, suc, ◌+◌, ◌-◌, max, Bool, true, false, not, ◌&&◌, ◌||◌, List, [], ◌∷◌, ◌++◌, Option,
  none, some, if◌then◌else◌, ◌==◌, leb, ltb, length, get_or, drop, any,
}
use hubbub.Common.Bytes.{Bytes, equal, has_prefix}
use hubbub.Tomledit.Header.{LineKind, other}
use hubbub.Tomledit.Scan.{Line, scan, is_header, is_comment, is_blank}

pub data SpanError : Type 0 where
  not_found array_or_sub_table owns_sub_table : SpanError

pub data Result {ℓ} (T : Type ℓ) : Type ℓ where
  err : SpanError → Result T
  ok : T → Result T

abbrev pub ◌>>=◌ {ℓ κ} : {S : Type ℓ} {T : Type κ} → Result S → (S → Result T) → Result T
(err why) >>= next = err why
(ok it) >>= next = next it

infixl 5 ◌>>=◌
abbrev pub no_line : Line
no_line = record { start = 0; stop = 0; kind = other; structural = false; id = []; simple = false }

abbrev pub line_at : List Line → ℕ → Line
line_at lines i = get_or lines i no_line

-- The first header of that id, from index `i` on.
unfoldable pub find_table : Bytes → ℕ → List Line → Result ℕ
find_table id i [] = err not_found
find_table id i (l ∷ ls) =
    let rest = find_table id (suc i) ls in
    if is_header l && equal l.id id
    then (if l.simple then ok i else err array_or_sub_table)
    else rest

abbrev pub sub_table : Bytes → Line → Bool
sub_table id l = is_header l && has_prefix l.id (id ++ b'.' ∷ [])

-- The walk back over the comment run above the header.
unfoldable pub comment_run : List Line → ℕ → ℕ
comment_run lines zero = zero
comment_run lines (suc i) =
    let above = comment_run lines i in if is_comment (line_at lines i) then above else suc i

-- A run that reaches the top of the file is preamble.
abbrev pub first_line : List Line → ℕ → ℕ
first_line lines h = elim (comment_run lines h) [ zero ↦ h | suc i ↦ suc i ]

-- The index of the next header, from index `i` on, or the number of lines.
unfoldable pub next_header : ℕ → List Line → ℕ
next_header i [] = i
next_header i (l ∷ ls) = let rest = next_header (suc i) ls in if is_header l then i else rest

-- `for m > h && isBlank(m) { m-- }`, and the same of comments.
unfoldable pub back_while : (Line → Bool) → List Line → ℕ → ℕ → ℕ
back_while test lines h zero = zero
back_while test lines h (suc m) =
    let back = back_while test lines h m in
    if leb h m && test (line_at lines (suc m)) then back else suc m

-- The loop of `trimTrailing`; `none` when the fuel runs out. A round that does not leave the loop
-- lowers `m`.
unfoldable pub trim_loop : ℕ → List Line → ℕ → ℕ → Option ℕ
trim_loop zero lines h m = none
trim_loop (suc fuel) lines h m =
    let m' = back_while is_blank lines h m in
    let j = back_while is_comment lines h m' in
    let again = trim_loop fuel lines h j in
    if leb m' h || not (is_comment (line_at lines m'))
    then some m'
    else if not (is_blank (line_at lines j))
    then some m'
    else again

unfoldable pub trim_trailing : List Line → ℕ → ℕ → ℕ
trim_trailing lines h next = elim (trim_loop next lines h (next - 1)) [
  | none ↦ h
  | some m ↦ max m h
]

-- What `Span` makes of the header at index `h`.
unfoldable pub span_of : List Line → ℕ → ℕ × ℕ
span_of lines h =
    let next = next_header (suc h) (drop (suc h) lines) in
    ((line_at lines (first_line lines h)).start, (line_at lines (trim_trailing lines h next)).stop)

unfoldable pub span_lines : Bytes → List Line → Result (ℕ × ℕ)
span_lines id lines = do
  h ← find_table id 0 lines
  if any (sub_table id) (drop (suc h) lines) then err owns_sub_table else ok (span_of lines h)

-- The header line of the block that starts at `from`, and with it the body.
unfoldable pub body_from : Bytes → ℕ → ℕ → List Line → Result (ℕ × ℕ)
body_from id from end [] = err not_found
body_from id from end (l ∷ ls) =
    let rest = body_from id from end ls in
    if is_header l && equal l.id id && leb from l.start then ok (l.stop, max l.stop end) else rest

module _ (unquote : Bytes → Option Bytes) where
  unfoldable pub span : Bytes → Bytes → Result (ℕ × ℕ)
  span src id = span_lines id (scan unquote src)

  unfoldable pub body_span : Bytes → Bytes → Result (ℕ × ℕ)
  body_span src id = do block ← span src id; body_from id block.0 block.1 (scan unquote src)
