-- ===== src/Tomledit/Scan.antt =====
-- internal/tomledit/tomledit.go: `scan`, and what only reads its lines.
pub mod Contiguous
use hubbub.Common.{
  ℕ, zero, suc, ◌+◌, Bool, true, false, ◌&&◌, ◌||◌, List, [], ◌∷◌, Option, none, some,
  if◌then◌else◌, ◌==◌, length, any,
}
use hubbub.Common.Bytes.{Bytes}
use hubbub.Tomledit.Lines.{MlKind, split_lines, advance}
use hubbub.Tomledit.Header.{LineKind, blank, comment, header, other, classify}

pub record Line : Type 0 where
  pub start : ℕ
  pub stop : ℕ
  pub kind : LineKind
  pub structural : Bool
  pub id : Bytes
  pub simple : Bool

abbrev pub outside_values : MlKind → ℕ → Bool
outside_values MlKind.none depth = depth == 0
outside_values _ depth = false

abbrev pub is_header : Line → Bool
is_header l =
    l.structural
    && (elim l.kind [ blank ↦ false | comment ↦ false | header ↦ true | other ↦ false ])

abbrev pub is_comment : Line → Bool
is_comment l =
    l.structural
    && (elim l.kind [ blank ↦ false | comment ↦ true | header ↦ false | other ↦ false ])

abbrev pub is_blank : Line → Bool
is_blank l =
    l.structural
    && (elim l.kind [ blank ↦ true | comment ↦ false | header ↦ false | other ↦ false ])

abbrev pub is_value : Line → Bool
is_value l =
    l.structural
    && (elim l.kind [ blank ↦ false | comment ↦ false | header ↦ false | other ↦ true ])

module _ (unquote : Bytes → Option Bytes) where
  unfoldable pub make_line : ℕ → Bytes → Bool → Line
  make_line pos raw true =
      let (k, i, s) = classify unquote raw in
      record {
        start = pos;
        stop = pos + length raw;
        kind = k;
        structural = true;
        id = i;
        simple = s;
      }
  make_line pos raw false = record {
    start = pos;
    stop = pos + length raw;
    kind = other;
    structural = false;
    id = [];
    simple = false;
  }

  unfoldable pub scan_from : ℕ → MlKind → ℕ → List Bytes → List Line
  scan_from pos ml depth [] = []
  scan_from pos ml depth (raw ∷ raws) =
      let (ml', depth') = advance raw ml depth in
      make_line pos raw (outside_values ml depth) ∷ scan_from (pos + length raw) ml' depth' raws

  unfoldable pub scan : Bytes → List Line
  scan src = scan_from 0 MlKind.none 0 (split_lines src)

  ids_of : List Line → List Bytes
  ids_of [] = []
  ids_of (l ∷ ls) = if is_header l && l.simple then l.id ∷ ids_of ls else ids_of ls

  -- `IDs`.
  unfoldable pub ids : Bytes → List Bytes
  unfolding ids_of
  ids src = ids_of (scan src)

  unfoldable pub has_table_header : Bytes → Bool
  has_table_header body = any is_header (scan body)
