-- ===== src/Dlog/Page/Order.antt =====
-- The order of a page and where it is cut.
use hubbub.Common.{
  ℕ, suc, ◌≤◌, Bool, true, ◌&&◌, List, [], ◌∷◌, ◌++◌, append-nil, ◌≡◌, refl, arith, if◌then◌else◌,
  ltb, leb, ◌==◌, length, drop, select, all, take-append-drop, length-take, length-drop, inl, inr,
  Bool-cases,
}
use hubbub.Dlog.{Delivery, Query}
use hubbub.Dlog.Page.{wanted, backward, insert_newest, sort_newest, page}

-- Each row is at least as new as all that follow it.
unfoldable pub is_newest_first : List Delivery → Bool
is_newest_first [] = true
is_newest_first (d ∷ ds) = all (λ e. leb e.time d.time) ds && is_newest_first ds

-- The rows of one time.
abbrev pub at_time : ℕ → List Delivery → List Delivery
at_time t ds = select (λ d. d.time == t) ds

all-insert_newest :
    (p : Delivery → Bool) (d : Delivery) (ds : List Delivery)
    → all p (insert_newest d ds) ≡ (p d && all p ds)
unfolding insert_newest
all-insert_newest p d [] = ground arith
all-insert_newest p d (e ∷ ds) = ground (arith, all-insert_newest p d ds)

all-leb :
    (t s : ℕ) (ds : List Delivery)
    → t ≤ s
    → all (λ e. leb e.time t) ds ≡ true
    → all (λ e. leb e.time s) ds ≡ true
all-leb t s [] h a = refl
all-leb t s (d ∷ ds) h a = ground (arith, all-leb t s ds h)

is_newest_first-insert_newest :
    (d : Delivery) (ds : List Delivery)
    → is_newest_first ds ≡ true
    → is_newest_first (insert_newest d ds) ≡ true
unfolding is_newest_first insert_newest
is_newest_first-insert_newest d [] h = refl
is_newest_first-insert_newest d (e ∷ ds) h = ground (
  arith,
  is_newest_first-insert_newest d ds,
  all-insert_newest (λ x. leb x.time e.time) d ds,
  all-leb e.time d.time ds,
)

is_newest_first-sort_newest : (ds : List Delivery) → is_newest_first (sort_newest ds) ≡ true
unfolding is_newest_first sort_newest
is_newest_first-sort_newest [] = refl
is_newest_first-sort_newest (d ∷ ds) =
    is_newest_first-insert_newest d (sort_newest ds) (is_newest_first-sort_newest ds)

at_time-insert_newest :
    (t : ℕ) (d : Delivery) (ds : List Delivery)
    → at_time t (insert_newest d ds) ≡ at_time t (d ∷ ds)
unfolding insert_newest
at_time-insert_newest t d [] = refl
at_time-insert_newest t d (e ∷ ds) = ground (arith, at_time-insert_newest t d ds)

at_time-sort_newest : (t : ℕ) (ds : List Delivery) → at_time t (sort_newest ds) ≡ at_time t ds
unfolding sort_newest
at_time-sort_newest t [] = refl
at_time-sort_newest t (d ∷ ds) =
    ground (arith, at_time-insert_newest t d (sort_newest ds), at_time-sort_newest t ds)

length-insert_newest :
    (d : Delivery) (ds : List Delivery) → length (insert_newest d ds) ≡ suc (length ds)
unfolding insert_newest
length-insert_newest d [] = refl
length-insert_newest d (e ∷ ds) = ground (arith, length-insert_newest d ds)

length-sort_newest : (ds : List Delivery) → length (sort_newest ds) ≡ length ds
unfolding sort_newest
length-sort_newest [] = refl
length-sort_newest (d ∷ ds) =
    omega (arith, length-insert_newest d (sort_newest ds), length-sort_newest ds)

-- A page is the start of a list that is newest first, that has the wanted rows, and that keeps rows
-- of the same time in the reverse of the order in which the log gave them. The page is marked
-- truncated exactly if there is a limit and more rows are wanted, which is also exactly if the list
-- goes on behind the page; it then has as many rows as the limit, and otherwise all of them.
pub page-newest :
    (rows : List Delivery) (q : Query)
    → let p = page rows q in
      let matching = select (wanted q) (backward rows) in
      (dropped : List Delivery) × (is_newest_first (p.deliveries ++ dropped) ≡ true)
      × ((t : ℕ) → at_time t (p.deliveries ++ dropped) ≡ at_time t matching)
      × (p.truncated ≡ (ltb 0 q.limit && ltb q.limit (length matching)))
      × (p.truncated ≡ ltb 0 (length dropped))
      × (length p.deliveries ≡ (if p.truncated then q.limit else length matching))
unfolding page
page-newest rows q =
    let matching = select (wanted q) (backward rows) in
    let out = sort_newest matching in
    let n : length out ≡ length matching = length-sort_newest matching in
    elim (Bool-cases (ltb 0 q.limit && ltb q.limit (length out))) [
      | inl e ↦ rw e (
        drop q.limit out,
        rw (take-append-drop q.limit out) (is_newest_first-sort_newest matching),
        (λ t. rw (take-append-drop q.limit out) (at_time-sort_newest t matching)),
        ground (arith, n, e),
        ground (arith, length-drop q.limit out, e),
        ground (arith, e, length-take q.limit out),
      )
      | inr e ↦ rw e (
        [],
        rw (append-nil out) (is_newest_first-sort_newest matching),
        (λ t. rw (append-nil out) (at_time-sort_newest t matching)),
        ground (arith, n, e),
        refl,
        n,
      )
    ]

-- A page holds no more rows than a limit that is not 0.
pub page_short :
    (rows : List Delivery) (q : Query) → 1 ≤ q.limit → length (page rows q).deliveries ≤ q.limit
page_short rows q one =
    let (dropped, _, _, t, _, n) = page-newest rows q in ground (arith, t, n, one)
