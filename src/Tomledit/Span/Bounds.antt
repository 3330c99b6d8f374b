-- ===== src/Tomledit/Span/Bounds.antt =====
-- The ranges that `Span` and `BodySpan` answer (internal/tomledit/tomledit.go).
use hubbub.Common.{
  ℕ, zero, suc, ◌+◌, ◌≤◌, ◌<◌, true, ◌&&◌, List, [], ◌∷◌, Option, ◌≡◌, inl, inr, refl, arith,
  if◌then◌else◌, leb, length, drop, any, Bool-cases, length-drop,
}
use hubbub.Common.Bytes.{Bytes, equal, equal_iff}
use hubbub.Tomledit.Scan.{Line, scan, is_header}
use hubbub.Tomledit.Scan.Contiguous.{Covers, scan-Covers}
use hubbub.Tomledit.Span.{
  owns_sub_table, Result, ok, err, ◌>>=◌, line_at, find_table, comment_run, first_line, next_header,
  trim_trailing, span_of, span_lines, sub_table, body_from, span, body_span,
}
use hubbub.Tomledit.Span.Trim.{trim_trailing_bounds}

Covers-le : (lines : List Line) (pos end : ℕ) → Covers pos end lines → pos ≤ end
Covers-le [] pos end c = omega arith
Covers-le (x ∷ ls) pos end c = omega (arith, Covers-le ls x.stop end c.2)

pub line_in :
    (lines : List Line) (pos end i : ℕ)
    → Covers pos end lines
    → i < length lines
    → (pos ≤ (line_at lines i).start)
      × ((line_at lines i).start < (line_at lines i).stop)
      × ((line_at lines i).stop ≤ end)
line_in [] pos end i c l = absurd (omega arith)
line_in (x ∷ ls) pos end zero c l = omega (arith, Covers-le ls x.stop end c.2)
line_in (x ∷ ls) pos end (suc i) c l = omega (arith, line_in ls x.stop end i c.2 (omega arith))

pub line_mono :
    (lines : List Line) (pos end i j : ℕ)
    → Covers pos end lines
    → i ≤ j
    → j < length lines
    → (line_at lines i).start ≤ (line_at lines j).start
line_mono [] pos end i j c l u = absurd (omega arith)
line_mono (x ∷ ls) pos end zero zero c l u = omega arith
line_mono (x ∷ ls) pos end zero (suc j) c l u =
    omega (arith, line_in ls x.stop end j c.2 (omega arith))
line_mono (x ∷ ls) pos end (suc i) zero c l u = absurd (omega arith)
line_mono (x ∷ ls) pos end (suc i) (suc j) c l u =
    line_mono ls x.stop end i j c.2 (omega arith) (omega arith)

-- The line that `find_table` answers is a plain header of that id.
pub find_table_sound :
    (id : Bytes) (i : ℕ) (lines : List Line) {h : ℕ}
    → find_table id i lines ≡ ok h
    → (k : ℕ) × (h ≡ i + k)
      × (k < length lines)
      × (is_header (line_at lines k) ≡ true)
      × ((line_at lines k).id ≡ id)
      × ((line_at lines k).simple ≡ true)
unfolding find_table
find_table_sound id i [] e = cc
find_table_sound id i (l ∷ ls) {h} e = elim (Bool-cases (is_header l && equal l.id id)) [
  | inl here ↦ (
    0,
    ground arith,
    omega arith,
    ground arith,
    (equal_iff l.id id).0 (ground arith),
    ground arith,
  )
  | inr there ↦
      let (k, p, q, a, b, c) = find_table_sound id (suc i) ls {h = h} (ground arith) in
      (suc k, omega (arith, p), omega arith, a, b, c)
]

comment_run-le : (lines : List Line) (h : ℕ) → comment_run lines h ≤ h
unfolding comment_run
comment_run-le lines zero = omega arith
comment_run-le lines (suc h) = ground (arith, comment_run-le lines h)

first_line-le : (lines : List Line) (h : ℕ) → first_line lines h ≤ h
first_line-le lines h = ground (arith, comment_run-le lines h)

pub next_header_bounds :
    (i : ℕ) (ls : List Line) → (i ≤ next_header i ls) × (next_header i ls ≤ i + length ls)
unfolding next_header
next_header_bounds i [] = omega arith
next_header_bounds i (l ∷ ls) = ground (arith, next_header_bounds (suc i) ls)

-- A chain that succeeds has a first step that does.
pub bind-eq-ok {ℓ κ} :
    {S : Type ℓ} {T : Type κ} (first : Result S) (next : S → Result T) {t : T}
    → (first >>= next) ≡ ok t
    → (s : S) × (first ≡ ok s) × (next s ≡ ok t)
bind-eq-ok (err why) next e = cc
bind-eq-ok (ok s) next e = (s, refl, e)

stop_mono :
    (lines : List Line) (pos end i j : ℕ)
    → Covers pos end lines
    → i ≤ j
    → j < length lines
    → (line_at lines i).stop ≤ (line_at lines j).stop
stop_mono [] pos end i j c l u = absurd (omega arith)
stop_mono (x ∷ ls) pos end zero zero c l u = omega arith
stop_mono (x ∷ ls) pos end zero (suc j) c l u =
    omega (arith, line_in ls x.stop end j c.2 (omega arith))
stop_mono (x ∷ ls) pos end (suc i) zero c l u = absurd (omega arith)
stop_mono (x ∷ ls) pos end (suc i) (suc j) c l u =
    stop_mono ls x.stop end i j c.2 (omega arith) (omega arith)

span_of_eq :
    (id : Bytes) (lines : List Line) (h : ℕ) {r : ℕ × ℕ}
    → (if any (sub_table id) (drop (suc h) lines) then err owns_sub_table else ok (span_of lines h))
      ≡ ok r
    → span_of lines h ≡ r
span_of_eq id lines h p = ground arith

-- What `Span` answers for the header at index `h`.
module _ (lines : List Line) (end h : ℕ) (c : Covers 0 end lines) (l : h < length lines) where
  abbrev next : ℕ
  next = next_header (suc h) (drop (suc h) lines)

  next_bounds : (h < next) × (next ≤ length lines)
  next_bounds =
      omega (arith, next_header_bounds (suc h) (drop (suc h) lines), length-drop (suc h) lines)

  pub span_of_bounds :
      ((span_of lines h).0 ≤ (line_at lines h).start)
      × ((line_at lines h).stop ≤ (span_of lines h).1)
      × ((span_of lines h).1 ≤ end)
  unfolding span_of
  span_of_bounds =
      let n = next_bounds in
      let t = trim_trailing_bounds lines h next n.0 in
      (
        line_mono lines 0 end (first_line lines h) h c (first_line-le lines h) l,
        stop_mono lines 0 end h (trim_trailing lines h next) c t.0 (omega (arith, t.1, n.1)),
        (line_in lines 0 end (trim_trailing lines h next) c (omega (arith, t.1, n.1))).2,
      )

-- A span is a non-empty range of the file that holds the header line of its table: a plain header
-- with the id that was asked for.
pub span_bounds :
    (unquote : Bytes → Option Bytes) (src id : Bytes) {s e : ℕ}
    → span unquote src id ≡ ok (s, e)
    → (h : ℕ) × (is_header (line_at (scan unquote src) h) ≡ true)
      × ((line_at (scan unquote src) h).id ≡ id)
      × ((line_at (scan unquote src) h).simple ≡ true)
      × (s ≤ (line_at (scan unquote src) h).start)
      × ((line_at (scan unquote src) h).start < (line_at (scan unquote src) h).stop)
      × ((line_at (scan unquote src) h).stop ≤ e)
      × (e ≤ length src)
unfolding span span_lines
span_bounds unquote src id {s} {e} p =
    let lines = scan unquote src in
    let c = scan-Covers unquote src in
    let (h, found, fits) = bind-eq-ok (find_table id 0 lines) _ p in
    let (k, q, l, a, b, d) = find_table_sound id 0 lines found in
    let eq : h ≡ k = omega (arith, q) in
    let at_span : span_of lines k ≡ (s, e) = rw eq at (span_of_eq id lines h fits) in
    let bounds = rw at_span at (span_of_bounds lines (length src) k c l) in
    (k, a, b, d, bounds.0, (line_in lines 0 (length src) k c l).1, bounds.1, bounds.2)

body_from-bounds :
    (id : Bytes) (from end pos total : ℕ) (lines : List Line) {s e : ℕ}
    → Covers pos total lines
    → end ≤ total
    → body_from id from end lines ≡ ok (s, e)
    → (from < s) × (s ≤ e) × (end ≤ e) × (e ≤ total)
unfolding body_from
body_from-bounds id from end pos total [] c t p = cc
body_from-bounds id from end pos total (l ∷ ls) {s} {e} c t p =
    elim (Bool-cases (is_header l && equal l.id id && leb from l.start)) [
      | inl here ↦ ground (arith, Covers-le ls l.stop total c.2)
      | inr there ↦ body_from-bounds id from end l.stop total ls c.2 t (ground arith)
    ]

-- A body is a range of the file behind the start of its block, and reaches at least to the end of
-- the block.
pub body_span_bounds :
    (unquote : Bytes → Option Bytes) (src id : Bytes) {s e : ℕ}
    → body_span unquote src id ≡ ok (s, e)
    → (a : ℕ) × (b : ℕ) × (span unquote src id ≡ ok (a, b))
      × (a < s)
      × (s ≤ e)
      × (b ≤ e)
      × (e ≤ length src)
unfolding body_span
body_span_bounds unquote src id {s} {e} p =
    let ((a, b), q, rest) = bind-eq-ok (span unquote src id) _ p in
    let (h, h1, h2, h3, h4, h5, h6, h7) = span_bounds unquote src id {s = a} {e = b} q in
    let r =
      body_from-bounds id a b 0 (length src) (scan unquote src) {s = s} {e = e}
        (scan-Covers unquote src) h7 rest in
    (a, b, q, r.0, r.1, r.2, r.3)
