-- ===== src/Tests/LogTests.antt =====
-- The reading of the delivery log at a concrete log.
use hubbub.Common.{
  ℕ, ◌*◌, ◌^◌, ◌≤◌, Bool, true, false, not, ◌⊎◌, ◌&&◌, List, [], ◌∷◌, ◌++◌, Option, none, some, ◌≡◌,
  refl, if◌then◌else◌, ltb, ◌==◌, length, get_elem?, count_if, select,
}
use hubbub.Common.Bytes.{Bytes, codes, equal, less, split_at}
use hubbub.Common.Assoc.{pair_beq, bytes_eq, lookup, insert, remove}
use hubbub.Outbox.Spool.{sort_names, insert_name}
use hubbub.Dlog.{request, terminal, Record, Delivery, Query, empty_record, truncate}
use hubbub.Dlog.Parse.{
  outcome_in, see_terminal, see_request, see_channels, see_all, see, sorted_channels, records,
  whole_lines, parse_rows,
}
use hubbub.Dlog.Parse.Rows.{key_of}
use hubbub.Dlog.Parse.Lines.{told, find_row, parse_rows-find_row}
use hubbub.Dlog.Parse.Context.{or_else, first_request, last_terminal, parse_rows-lines}
use hubbub.Dlog.Page.{wanted, backward, insert_newest, sort_newest, page}
use hubbub.Dlog.Page.Order.{is_newest_first, at_time, page-newest}
use hubbub.Dlog.Recent.{View, tail, recent}
use hubbub.Dlog.Recent.Window.{IsFailed, IsAnswered, tail-whole_lines, recent-returns}

abbrev settled_line : Record
settled_line = record empty_record {
  time = 7 * 10 ^ 6;
  kind = terminal;
  request_id = codes "r";
  caller_id = codes "cron";
  channel = codes "ops";
  outcome = codes "ok";
}

abbrev accepted_line : Record
accepted_line = record empty_record {
  time = 5 * 10 ^ 6;
  kind = request;
  request_id = codes "r";
  caller_id = codes "cron";
  channels = (codes "ops", codes "queued") ∷ (codes "phone", codes "queued") ∷ [];
  title = codes "disk";
}

abbrev decode_sample : Bytes → Option Record
decode_sample line =
    if equal line (codes "t")
    then some settled_line
    else if equal line (codes "r")
    then some accepted_line
    else none

-- The terminal line stands before its request line.
abbrev sample_log : Bytes
sample_log = codes "t\nr\n\nx"

abbrev settled_row : Delivery
settled_row = record {
  time = 5 * 10 ^ 6;
  settled = 7 * 10 ^ 6;
  request_id = codes "r";
  caller_id = codes "cron";
  channel = codes "ops";
  title = codes "disk";
  priority = [];
  outcome = codes "ok";
}

abbrev queued_row : Delivery
queued_row = record {
  time = 5 * 10 ^ 6;
  settled = 0;
  request_id = codes "r";
  caller_id = codes "cron";
  channel = codes "phone";
  title = codes "disk";
  priority = [];
  outcome = codes "queued";
}

sample_rows : parse_rows decode_sample sample_log false ≡ settled_row ∷ queued_row ∷ []
unfolding parse_rows records see_all see see_terminal see_request see_channels sorted_channels
    sort_names insert_name less equal split_at lookup insert remove
sample_rows = refl

parse_rows-find_row_example :
    (find_row (codes "r", codes "ops") (parse_rows decode_sample sample_log false)
      ≡ told (codes "r", codes "ops") (records decode_sample (whole_lines sample_log false)))
    × (count_if
          (λ d. pair_beq (key_of d) (codes "r", codes "ops"))
          (parse_rows decode_sample sample_log false)
        ≤ 1)
parse_rows-find_row_example =
    parse_rows-find_row decode_sample sample_log false (codes "r", codes "ops")

first_row : get_elem? (parse_rows decode_sample sample_log false) 0 ≡ some settled_row
unfolding parse_rows records see_all see see_terminal see_request see_channels sorted_channels
    sort_names insert_name less equal split_at lookup insert remove
first_row = refl

parse_rows-lines_example :
    let rs = records decode_sample (whole_lines sample_log false) in
    (codes "ok"
      ≡ or_else
          (λ t. t.outcome)
          (last_terminal (key_of settled_row) rs)
          (or_else
            (λ r. outcome_in (codes "ops") r.channels)
            (first_request (key_of settled_row) rs)
            []))
    × (codes "disk" ≡ or_else (λ r. r.title) (first_request (key_of settled_row) rs) [])
    × ([] ≡ or_else (λ r. r.priority) (first_request (key_of settled_row) rs) [])
    × (5 * 10 ^ 6
        ≡ or_else (λ r. truncate r.time) (first_request (key_of settled_row) rs) (5 * 10 ^ 6))
parse_rows-lines_example = parse_rows-lines decode_sample sample_log false 0 settled_row first_row

abbrev one_row : Query
one_row = record { limit = 1; since = 0; channel = [] }

page-newest_example :
    let p = page (settled_row ∷ queued_row ∷ []) one_row in
    let matching = select (wanted one_row) (backward (settled_row ∷ queued_row ∷ [])) in
    (dropped : List Delivery) × (is_newest_first (p.deliveries ++ dropped) ≡ true)
    × ((t : ℕ) → at_time t (p.deliveries ++ dropped) ≡ at_time t matching)
    × (p.truncated ≡ (ltb 0 1 && ltb 1 (length matching)))
    × (p.truncated ≡ ltb 0 (length dropped))
    × (length p.deliveries ≡ (if p.truncated then 1 else length matching))
page-newest_example = page-newest (settled_row ∷ queued_row ∷ []) one_row

cut_page :
    page (settled_row ∷ queued_row ∷ []) one_row
    ≡ record { deliveries = queued_row ∷ []; truncated = true }
unfolding page sort_newest insert_newest equal
cut_page = refl

abbrev readable : View
readable = record { file = sample_log; stat_fails = false; read_fails = false }

tail-whole_lines_example :
    ((false ≡ true) × (tail 4 readable ≡ none))
    ⊎ ((buf : Bytes) × (cut : Bool) × (earlier : List Bytes) × (tail 4 readable ≡ some (buf, cut))
        × (earlier ++ whole_lines buf cut ≡ split_at b'\n' sample_log)
        × (ltb 4 (length sample_log) ≡ not (length earlier == 0)))
tail-whole_lines_example = tail-whole_lines 4 readable

recent-returns_example :
    IsFailed decode_sample (λ w. readable) one_row (recent decode_sample (λ w. readable) one_row)
    ⊎ IsAnswered decode_sample
        (λ w. readable)
        one_row
        (recent decode_sample (λ w. readable) one_row)
recent-returns_example = recent-returns decode_sample (λ w. readable) one_row
