-- ===== src/Tomledit/Scan/Contiguous.antt =====
-- The byte ranges of the lines of a scan (internal/tomledit/tomledit.go `scan`).
use hubbub.Common.{
  ℕ, ◌+◌, ◌≤◌, ◌<◌, Bool, true, false, List, [], ◌∷◌, Option, ◌≡◌, refl, ap, arith, length,
  length-append,
}
use native.Mathlib.Nat.{add_assoc}
use hubbub.Common.Bytes.{Bytes}
use hubbub.Tomledit.Lines.{MlKind, split_lines, cons_line, advance}
use hubbub.Tomledit.Lines.Cover.{flatten, flatten-split_lines}
use hubbub.Tomledit.Scan.{Line, scan_from, scan, make_line, outside_values}

-- The lines run from `pos` to `end` without a gap, and none is empty.
abbrev pub Covers : ℕ → ℕ → List Line → Type 0
Covers pos end [] = pos ≡ end
Covers pos end (l ∷ ls) = (l.start ≡ pos) × (pos < l.stop) × Covers l.stop end ls

abbrev NonEmpty : List Bytes → Type 0
NonEmpty [] = Unit {0}
NonEmpty (l ∷ ls) = (1 ≤ length l) × NonEmpty ls

cons_line-NonEmpty : (c : ℕ) (ls : List Bytes) → NonEmpty ls → NonEmpty (cons_line c ls)
cons_line-NonEmpty c [] h = omega arith
cons_line-NonEmpty c (l ∷ ls) h = (omega arith, h.1)

split_lines-NonEmpty : (src : Bytes) → NonEmpty (split_lines src)
unfolding split_lines
split_lines-NonEmpty [] = tt
split_lines-NonEmpty (c ∷ cs) =
    ground (arith, split_lines-NonEmpty cs, cons_line-NonEmpty c (split_lines cs))

module _ (unquote : Bytes → Option Bytes) where
  pub make_line_span :
      (pos : ℕ) (raw : Bytes) (b : Bool)
      → ((make_line unquote pos raw b).start ≡ pos)
        × ((make_line unquote pos raw b).stop ≡ pos + length raw)
  unfolding make_line
  make_line_span pos raw true = (refl, refl)
  make_line_span pos raw false = (refl, refl)

  scan_from-Covers :
      (pos : ℕ) (ml : MlKind) (depth : ℕ) (raws : List Bytes)
      → NonEmpty raws
      → Covers pos (pos + length (flatten raws)) (scan_from unquote pos ml depth raws)
  unfolding scan_from flatten
  scan_from-Covers pos ml depth [] h = omega arith
  scan_from-Covers pos ml depth (raw ∷ raws) h =
      let (ml', depth') = advance raw ml depth in
      let (s, e) = make_line_span pos raw (outside_values ml depth) in
      (
        s,
        omega (arith, e, h.0),
        rw (e, length-append, ← add_assoc)
            (scan_from-Covers (pos + length raw) ml' depth' raws h.1),
      )

  -- The lines of a scan cover the file: they start at its first byte, follow one another without
  -- a gap or an empty line, and end at its last byte.
  pub scan-Covers : (src : Bytes) → Covers 0 (length src) (scan unquote src)
  unfolding scan
  scan-Covers src =
      let e : 0 + length (flatten (split_lines src)) ≡ length src =
        omega (arith, ap (λ (t : Bytes). length t) (flatten-split_lines src)) in
      rw e at (scan_from-Covers 0 MlKind.none 0 (split_lines src) (split_lines-NonEmpty src))
