-- ===== src/Tests/TomleditTests.antt =====
-- internal/tomledit at concrete inputs.
use hubbub.Common.{Option, none, some, false, ◌≡◌, refl, sym, length}
use hubbub.Common.Bytes.{Bytes, codes, equal, has_prefix, trim_left, trim_right, trim, join}
use hubbub.Tomledit.Lines.{split_lines, skip_basic, skip_literal, advance_at, advance_from, advance}
use hubbub.Tomledit.Header.{
  trim_prefix, close_header, header_at, header_from, parse_header, classify,
}
use hubbub.Tomledit.Scan.{make_line, scan_from, scan}
use hubbub.Tomledit.Scan.Contiguous.{Covers, scan-Covers}
use hubbub.Tomledit.Span.{
  ok, find_table, comment_run, next_header, back_while, trim_loop, trim_trailing, span_of,
  span_lines, body_from, span, body_span,
}
use hubbub.Tomledit.Edit.{block, body, replace_body}
use hubbub.Tomledit.Edit.Splice.{replace_body-body}
use hubbub.Tomledit.Verify.{
  Table, empty, entry, scalar, tables, end, panicked, look_up, equal_any, changes, check_old,
  check_new, check_both, verify_neighbours,
}
use hubbub.Tomledit.Verify.Equal.{Agree, IsMap, IsTable}
use hubbub.Tomledit.Verify.Neighbours.{verify_neighbours-Agree}

-- A quoted key without escapes is the text between its quotes.
abbrev plain_unquote : Bytes → Option Bytes
plain_unquote b = some b

abbrev two_tables : Bytes
two_tables = codes "# top\n\n# about a\n[a]\nx = 1\n\n[b]\ny = 2\n"

scan-Covers_example : Covers 0 (length two_tables) (scan plain_unquote two_tables)
scan-Covers_example = scan-Covers plain_unquote two_tables

span_of_a : span plain_unquote two_tables (codes "a") ≡ ok (7, 27)
unfolding span span_lines find_table scan scan_from split_lines make_line classify trim trim_prefix
    has_prefix advance parse_header header_from header_at close_header join equal trim_left
    trim_right advance_at advance_from skip_basic skip_literal back_while comment_run next_header
    span_of trim_loop trim_trailing
span_of_a = refl

body_span_of_a : body_span plain_unquote two_tables (codes "a") ≡ ok (21, 27)
unfolding body_span span body_from span_lines find_table scan scan_from split_lines make_line
    classify trim trim_prefix has_prefix advance parse_header header_from header_at close_header
    join equal trim_left trim_right advance_at advance_from skip_basic skip_literal back_while
    comment_run next_header span_of trim_loop trim_trailing
body_span_of_a = refl

block_of_a : block plain_unquote two_tables (codes "a") ≡ ok (codes "# about a\n[a]\nx = 1\n")
unfolding block
block_of_a = rw span_of_a refl

body_of_a : body plain_unquote two_tables (codes "a") ≡ ok (codes "x = 1\n")
unfolding body
body_of_a = rw body_span_of_a refl

replace_body-body_example :
    replace_body plain_unquote two_tables (codes "a") (codes "x = 1\n") ≡ ok two_tables
replace_body-body_example = replace_body-body plain_unquote two_tables (codes "a") refl body_of_a

-- A decoder of two tables, of which one depends on the text.
abbrev two_keys : Bytes → Option Table
two_keys b =
    some (entry (codes "kept") (scalar 1) (entry (codes "edited") (scalar (length b)) empty))

edit_passes : verify_neighbours two_keys (codes "x") (codes "xyz") (codes "edited") ≡ none
unfolding verify_neighbours check_both check_old check_new look_up equal_any equal
edit_passes = refl

edit_caught :
    verify_neighbours two_keys (codes "x") (codes "xyz") (codes "kept")
    ≡ some (changes (codes "edited"))
unfolding verify_neighbours check_both check_old check_new look_up equal_any equal
edit_caught = refl

kept_is_other : equal (codes "kept") (codes "edited") ≡ false
unfolding equal
kept_is_other = refl

two_keys-IsTable : (s : Bytes) (t : Table) → two_keys s ≡ some t → IsTable t
unfolding IsTable IsMap look_up equal
two_keys-IsTable s t h =
    let e : entry (codes "kept") (scalar 1) (entry (codes "edited") (scalar (length s)) empty) ≡ t =
      cc h in
    rw (sym e) (refl, tt, (refl, tt, tt))

verify_neighbours-Agree_example :
    (b : Table) × (a : Table) × (two_keys (codes "x") ≡ some b)
    × (two_keys (codes "xyz") ≡ some a)
    × Agree (look_up (codes "kept") b) (look_up (codes "kept") a)
verify_neighbours-Agree_example =
    verify_neighbours-Agree two_keys two_keys-IsTable (codes "x") (codes "xyz") (codes "edited")
      (codes "kept") edit_passes kept_is_other

-- An array of tables beside the edited table.
abbrev array_of_tables : Bytes → Option Table
array_of_tables b =
    some (entry (codes "kept") (tables end) (entry (codes "edited") (scalar (length b)) empty))

edit_panics :
    verify_neighbours array_of_tables (codes "x") (codes "xyz") (codes "edited") ≡ some panicked
unfolding verify_neighbours check_both check_old check_new look_up equal_any equal
edit_panics = refl
