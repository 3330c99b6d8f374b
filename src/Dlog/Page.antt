-- ===== src/Dlog/Page.antt =====
-- internal/dlog/read.go: `page`, which filters, orders and cuts the deliveries of a read.
pub mod Order
use hubbub.Common.{
  ℕ, Bool, true, false, not, ◌&&◌, ◌||◌, List, [], ◌∷◌, ◌++◌, if◌then◌else◌, ltb, ◌==◌, length,
  take, select,
}
use hubbub.Common.Bytes.{Bytes, equal}
use hubbub.Dlog.{Delivery, changed_at, truncate, Query}

pub record Page : Type 0 where
  pub deliveries : List Delivery
  pub truncated : Bool

-- The rows that a query asks for.
abbrev pub wanted : Query → Delivery → Bool
wanted q d =
    (equal q.channel [] || equal d.channel q.channel)
    && (q.since == 0 || ltb (truncate q.since) (changed_at d))

-- `slices.Backward`.
abbrev pub backward : List Delivery → List Delivery
backward [] = []
backward (d ∷ ds) = backward ds ++ d ∷ []

-- `sort.SliceStable` by `Time.After`: a row goes in front of the rows that are not newer.
unfoldable pub insert_newest : Delivery → List Delivery → List Delivery
insert_newest d [] = d ∷ []
insert_newest d (e ∷ es) =
    let rest = insert_newest d es in if ltb d.time e.time then e ∷ rest else d ∷ e ∷ es

unfoldable pub sort_newest : List Delivery → List Delivery
sort_newest [] = []
sort_newest (d ∷ ds) = insert_newest d (sort_newest ds)

unfoldable pub page : List Delivery → Query → Page
page rows q =
    let out = sort_newest (select (wanted q) (backward rows)) in
    if ltb 0 q.limit && ltb q.limit (length out)
    then record { deliveries = take q.limit out; truncated = true }
    else record { deliveries = out; truncated = false }
