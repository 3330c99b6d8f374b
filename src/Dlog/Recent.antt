-- ===== src/Dlog/Recent.antt =====
-- internal/dlog/read.go: `tail` and `Recent` of a log that is open. What the file holds at each pass
-- of the loop, and whether it can be read then, are arguments.
pub mod Window
use hubbub.Common.{
  ℕ, zero, suc, ◌+◌, ◌-◌, ◌*◌, ◌^◌, Bool, true, false, not, ◌&&◌, ◌||◌, List, [], ◌∷◌, Option, none,
  some, if◌then◌else◌, ltb, leb, ◌==◌, length, drop,
}
use hubbub.Common.Bytes.{Bytes}
use hubbub.Dlog.{Record, Query}
use hubbub.Dlog.Parse.{parse_rows}
use hubbub.Dlog.Page.{Page, page}

-- With a byte of overlap, whether the buffer starts inside a record.
cut_lead : Bytes → Bytes × Bool
cut_lead [] = ([], false)
cut_lead (c ∷ buf) = (buf, not (c == b'\n'))

-- What a pass finds: the file as it is then, and which system calls fail.
pub record View : Type 0 where
  pub file : Bytes
  pub stat_fails : Bool
  pub read_fails : Bool

-- The bytes that `tail` reads of the last `max`, with its test of the byte of overlap.
unfoldable pub last_bytes : ℕ → Bytes → Bytes × Bool
unfolding cut_lead
last_bytes max file =
    if ltb max (length file) then cut_lead (drop (length file - max - 1) file) else (file, false)

-- `tail`; nothing if it returns an error.
unfoldable pub tail : ℕ → View → Option (Bytes × Bool)
tail max v = if v.stat_fails || v.read_fails then none else some (last_bytes max v.file)

abbrev pub initial_tail_bytes : ℕ
initial_tail_bytes = 2 * 2 ^ 20

abbrev pub max_tail_bytes : ℕ
max_tail_bytes = 16 * 2 ^ 20

-- What `Recent` returns, or that the fuel ran out.
pub data ReadResult : Type 0 where
  answered : Page → ReadResult
  read_failed : ReadResult
  out_of_fuel : ReadResult

module _ (decode : Bytes → Option Record) where
  -- The loop of `Recent`, whose pass over a window finds the view of that window.
  unfoldable pub grow : ℕ → ℕ → (ℕ → View) → Query → ReadResult
  grow zero window view q = out_of_fuel
  grow (suc fuel) window view q =
      let wider = grow fuel (window * 4) view q in
      elim (tail window (view window)) [
        | none ↦ read_failed
        | some (buf, cut) ↦
            (let p = page (parse_rows decode buf cut) q in
              if (ltb 0 q.limit && leb q.limit (length p.deliveries))
                || not cut
                || leb max_tail_bytes window
              then answered p
              else wider)
      ]

  -- `Recent`. Three windows reach `maxTailBytes`.
  unfoldable pub recent : (ℕ → View) → Query → ReadResult
  recent view q = grow 3 initial_tail_bytes view q

-- What a handler gets of it: a page, or an error.
abbrev pub page_of : ReadResult → Option Page
page_of (answered p) = some p
page_of read_failed = none
page_of out_of_fuel = none
