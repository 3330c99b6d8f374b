-- ===== src/Tomledit/Edit.antt =====
-- internal/tomledit/tomledit.go: `splice`, line endings, and the edits of whole blocks and bodies.
pub mod Eol
pub mod Splice
use hubbub.Common.{
  ℕ, zero, suc, ◌+◌, ◌-◌, max, Bool, true, false, not, ◌&&◌, ◌||◌, List, [], ◌∷◌, ◌++◌, Option,
  none, some, if◌then◌else◌, ◌==◌, leb, ltb, length, take, drop, slice,
}
use hubbub.Common.Bytes.{Bytes, equal, trim_right}
use hubbub.Outbox.Name.{has_suffix}
use hubbub.Tomledit.Header.{is_space}
use hubbub.Tomledit.Scan.{Line, scan, is_blank}
use hubbub.Tomledit.Span.{Result, ok, err, ◌>>=◌, span, body_span}

abbrev pub lf : Bytes
lf = b'\n' ∷ []

abbrev pub crlf : Bytes
crlf = b'\r' ∷ b'\n' ∷ []

-- `bytes.Count(src, "\r\n")` and `bytes.Count(src, "\n")`.
unfoldable pub count_crlf : Bytes → ℕ
count_crlf [] = 0
count_crlf (c ∷ []) = 0
count_crlf (c ∷ d ∷ cs) =
    let found = 1 + count_crlf cs in
    let more = count_crlf (d ∷ cs) in if c == b'\r' && d == b'\n' then found else more

unfoldable pub count_lf : Bytes → ℕ
count_lf [] = 0
count_lf (c ∷ cs) = (if c == b'\n' then 1 else 0) + count_lf cs

unfoldable pub dominant_eol : Bytes → Bytes
dominant_eol src = if ltb (count_lf src - count_crlf src) (count_crlf src) then crlf else lf

-- `bytes.ReplaceAll` of "\r\n" by "\n", of "\r" by "\n", and of "\n" by the line ending.
unfoldable pub crlf_to_lf : Bytes → Bytes
crlf_to_lf [] = []
crlf_to_lf (c ∷ []) = c ∷ []
crlf_to_lf (c ∷ d ∷ cs) =
    let found = b'\n' ∷ crlf_to_lf cs in
    let more = c ∷ crlf_to_lf (d ∷ cs) in if c == b'\r' && d == b'\n' then found else more

unfoldable pub cr_to_lf : Bytes → Bytes
cr_to_lf [] = []
cr_to_lf (c ∷ cs) = (if c == b'\r' then b'\n' else c) ∷ cr_to_lf cs

unfoldable pub lf_to : Bytes → Bytes → Bytes
lf_to eol [] = []
lf_to eol (c ∷ cs) = (if c == b'\n' then eol else c ∷ []) ++ lf_to eol cs

unfoldable pub normalise : Bytes → Bytes → Bytes
normalise b eol =
    let unix = cr_to_lf (crlf_to_lf b) in if equal eol lf then unix else lf_to eol unix

unfoldable pub splice : Bytes → ℕ → ℕ → Bytes → Bytes
splice src start end repl = take start src ++ (repl ++ drop end src)

-- The line whose blank follows the block goes with it.
unfoldable pub skip_blank : ℕ → List Line → ℕ
skip_blank end [] = end
skip_blank end (l ∷ ls) =
    let rest = skip_blank end ls in if l.start == end && is_blank l then l.stop else rest

unfoldable pub ends_with : Bytes → Bytes → Bytes
ends_with block eol = if has_suffix block eol then block else block ++ eol

-- `bytes.TrimSpace`, as far as ASCII goes: TOML has no other white space outside its strings.
abbrev pub is_ascii_space : ℕ → Bool
is_ascii_space c = is_space c || c == 0x0b || c == 0x0c

unfoldable pub append_block : Bytes → Bytes → Bytes
unfolding ends_with
append_block src block =
    let eol = dominant_eol src in
    let added = ends_with (normalise block eol) eol in
    if length (trim_right is_ascii_space src) == 0
    then added
    else trim_right is_space src ++ (eol ++ (eol ++ added))

module _ (unquote : Bytes → Option Bytes) where
  unfoldable pub block : Bytes → Bytes → Result Bytes
  block src id = do r ← span unquote src id; ok (slice r.0 r.1 src)

  unfoldable pub body : Bytes → Bytes → Result Bytes
  body src id = do r ← body_span unquote src id; ok (slice r.0 r.1 src)

  unfoldable pub replace_body : Bytes → Bytes → Bytes → Result Bytes
  replace_body src id new = do
    r ← body_span unquote src id
    ok (splice src r.0 r.1 (normalise new (dominant_eol src)))

  unfoldable pub replace_block : Bytes → Bytes → Bytes → Result Bytes
  replace_block src id new = do
    r ← span unquote src id
    ok (splice src r.0 r.1 (normalise new (dominant_eol src)))

  removed : Bytes → ℕ → Bytes → Bytes
  removed src start out =
      if leb (length out) start then trim_right is_space out ++ dominant_eol src else out

  unfoldable pub remove_block : Bytes → Bytes → Result Bytes
  unfolding removed
  remove_block src id = do
    r ← span unquote src id
    ok (removed src r.0 (splice src r.0 (skip_blank r.1 (scan unquote src)) []))
