-- ===== src/Tests/ConfigTests.antt =====
-- The checks of names and the diff of configuration files at concrete inputs.
use hubbub.Common.{true, false, none, some, ◌≡◌, refl}
use hubbub.Common.Bytes.{Bytes, codes, equal, split_at}
use hubbub.Config.{valid_channel_id, valid_caller_id, safe_spool_name, path_reference}
use hubbub.Outbox.Name.{trim_suffix, has_suffix}
use hubbub.Tomledit.Edit.{crlf_to_lf}
use hubbub.Confedit.Diff.{text_lines, lcs_row, lcs_table, walk, diff, changed, counts}
use hubbub.Confedit.Diff.Sides.{old_side, new_side, diff-sides}

parent_refused : valid_channel_id (codes "..") ≡ some path_reference
unfolding valid_channel_id equal
parent_refused = refl

mail_is_safe : safe_spool_name (codes "ops.mail-1") ≡ true
unfolding safe_spool_name equal
mail_is_safe = refl

cron_is_valid : valid_caller_id (codes "cron_1") ≡ none
unfolding valid_caller_id equal
cron_is_valid = refl

abbrev old_file : Bytes
old_file = codes "[a]\nx = 1\n"

abbrev new_file : Bytes
new_file = codes "[a]\r\nx = 2\r\n# two\r\n"

diff-sides_example :
    (old_side (diff old_file new_file) ≡ text_lines old_file)
    × (new_side (diff old_file new_file) ≡ text_lines new_file)
diff-sides_example = diff-sides old_file new_file

-- Two added lines and a deleted one.
old_new_counts : counts (diff old_file new_file) ≡ (2, 1)
unfolding diff walk lcs_table lcs_row text_lines split_at trim_suffix has_suffix crlf_to_lf equal
old_new_counts = refl

endings_unchanged : changed (diff old_file (codes "[a]\r\nx = 1\r\n")) ≡ false
unfolding diff walk lcs_table lcs_row text_lines split_at trim_suffix has_suffix crlf_to_lf equal
endings_unchanged = refl
