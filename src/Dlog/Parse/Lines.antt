-- ===== src/Dlog/Parse/Lines.antt =====
-- What the log lines make of each delivery, and of the rows together.
use hubbub.Common.{
  ℕ, zero, suc, ◌≤◌, Bool, true, false, ◌&&◌, ◌||◌, List, [], ◌∷◌, ◌++◌, Option, none, some, ◌≡◌,
  ◌≢◌, inl, inr, refl, sym, ap, ◌∙◌, arith, if◌then◌else◌, ◌==◌, get_elem?, map, count_if,
  Bool-cases, Option-cases,
}
use hubbub.Common.Bytes.{Bytes, equal, equal_iff, mem, mem-count_if}
use hubbub.Common.Assoc.{pair_eq, bytes_eq, pair_beq, pair_beq_iff, lookup}
use hubbub.Outbox.Spool.{sort_names}
use hubbub.Outbox.Spool.Order.{count_if-sort_names}
use hubbub.Dlog.{Kind, request, terminal, other, Record, Delivery}
use hubbub.Dlog.Parse.{
  Key, Fold, no_rows, reversed, sorted_channels, see_request, see_channels, see_kind, see, see_all,
}
use hubbub.Dlog.Parse.Rows.{key_of, row, row_at}
use hubbub.Dlog.Parse.{records, whole_lines, parse_rows}
use hubbub.Dlog.Parse.Life.{
  Cell, cell, accept, live_kind, live_all, IsTracked, see_terminal-IsTracked, see_request-IsTracked,
  see_channels-IsTracked, cell-see_request, cell-see_terminal,
}

accept-accept : (r : Record) (k : Key) (c : Cell) → accept r k (accept r k c) ≡ accept r k c
accept-accept r k none = refl
accept-accept r k (some (d, true)) = refl
accept-accept r k (some (d, false)) = refl

cell-see_channels :
    (r : Record) (chs : List Bytes) (st : Fold)
    → IsTracked st
    → (k : Key)
    → cell k (see_channels r chs st)
      ≡ (if equal r.request_id k.0 && mem k.1 chs then accept r k (cell k st) else cell k st)
unfolding see_channels mem
cell-see_channels r [] st v k = ground arith
cell-see_channels r (ch ∷ chs) st v k = ground (
  arith,
  cell-see_channels r chs (see_request r ch st) (see_request-IsTracked r ch st v) k,
  cell-see_request r ch st v k,
  accept-accept r k (cell k st),
  equal_iff k.1 ch,
  equal_iff ch k.1,
)

mem-concat : (x y : Bytes) (xs : List Bytes) → mem x (xs ++ y ∷ []) ≡ (mem x xs || equal x y)
unfolding mem
mem-concat x y [] = ground arith
mem-concat x y (z ∷ xs) = ground (arith, mem-concat x y xs)

mem-reversed : (x : Bytes) (xs : List Bytes) → mem x (reversed xs) ≡ mem x xs
unfolding mem
mem-reversed x [] = refl
mem-reversed x (y ∷ xs) = ground (arith, mem-reversed x xs, mem-concat x y (reversed xs))

mem-sorted_channels :
    (ch : Bytes) (m : List (Bytes × Bytes))
    → mem ch (sorted_channels m) ≡ mem ch (map (λ (p : Bytes × Bytes). p.0) m)
unfolding sorted_channels
mem-sorted_channels ch m =
    mem-reversed ch (sort_names (map (λ (p : Bytes × Bytes). p.0) m))
    ∙ ground (
      arith,
      mem-count_if ch (sort_names (map (λ (p : Bytes × Bytes). p.0) m)),
      mem-count_if ch (map (λ (p : Bytes × Bytes). p.0) m),
      count_if-sort_names (equal ch) (map (λ (p : Bytes × Bytes). p.0) m),
    )

mem-lookup :
    (ch : Bytes) (m : List (Bytes × Bytes))
    → mem ch (map (λ (p : Bytes × Bytes). p.0) m)
      ≡ (elim (lookup ch m) [ none ↦ false | some o ↦ true ])
unfolding mem lookup
mem-lookup ch [] = refl
mem-lookup ch ((j, o) ∷ m) = ground (arith, mem-lookup ch m, equal_iff ch j, equal_iff j ch)

see_kind-IsTracked :
    (kd : Kind) (r : Record) (st : Fold) → IsTracked st → IsTracked (see_kind kd r st)
unfolding see_kind
see_kind-IsTracked request r st v = see_channels-IsTracked r (sorted_channels r.channels) st v
see_kind-IsTracked terminal r st v = see_terminal-IsTracked r st v
see_kind-IsTracked (other name) r st v = v

see-IsTracked : (r : Record) (st : Fold) → IsTracked st → IsTracked (see r st)
unfolding see
see-IsTracked r st v = see_kind-IsTracked r.kind r st v

cell-see_kind :
    (kd : Kind) (r : Record) (st : Fold)
    → IsTracked st
    → (k : Key) → cell k (see_kind kd r st) ≡ live_kind kd r k (cell k st)
unfolding see_kind
cell-see_kind request r st v k = ground (
  arith,
  cell-see_channels r (sorted_channels r.channels) st v k,
  mem-sorted_channels k.1 r.channels,
  mem-lookup k.1 r.channels,
)
cell-see_kind terminal r st v k = cell-see_terminal r st v.rows k
cell-see_kind (other name) r st v k = refl

see_all-IsTracked : (rs : List Record) (st : Fold) → IsTracked st → IsTracked (see_all rs st)
unfolding see_all
see_all-IsTracked [] st v = v
see_all-IsTracked (r ∷ rs) st v = see_all-IsTracked rs (see r st) (see-IsTracked r st v)

cell-see_all :
    (rs : List Record) (st : Fold)
    → IsTracked st
    → (k : Key) → cell k (see_all rs st) ≡ live_all k rs (cell k st)
unfolding see_all see
cell-see_all [] st v k = refl
cell-see_all (r ∷ rs) st v k =
    cell-see_all rs (see r st) (see-IsTracked r st v) k
    ∙ ap (live_all k rs) (cell-see_kind r.kind r st v k)

no_rows-IsTracked : IsTracked no_rows
no_rows-IsTracked =
    unfold lookup in
    record {
      rows = record { indexed = λ k i h. ground (arith, h); listed = λ i d h. ground (arith, h) };
      waiting = λ k h. refl;
    }

-- What the lines say of one delivery.
abbrev pub told : Key → List Record → Option Delivery
told k rs = elim (live_all k rs none) [ none ↦ none | some (d, w) ↦ some d ]

see_all-told :
    (rs : List Record) (k : Key)
    → row k (see_all rs no_rows).out (see_all rs no_rows).index ≡ told k rs
unfolding lookup
see_all-told rs k = ground (arith, cell-see_all rs no_rows no_rows-IsTracked k)

-- The first row of a delivery.
unfoldable pub find_row : Key → List Delivery → Option Delivery
find_row k [] = none
find_row k (d ∷ ds) = if pair_beq (key_of d) k then some d else find_row k ds

find_row-get_elem? :
    (k : Key) (ds : List Delivery) (e : Delivery)
    → find_row k ds ≡ some e
    → (i : ℕ) × (get_elem? ds i ≡ some e) × (key_of e ≡ k)
unfolding find_row
find_row-get_elem? k [] e h = ground (arith, h)
find_row-get_elem? k (d ∷ ds) e h = elim (Bool-cases (pair_beq (key_of d) k)) [
  | inl b ↦ (0, ground (arith, h, b), ground (arith, h, b, pair_beq_iff (key_of d) k))
  | inr b ↦ let (i, g, q) = find_row-get_elem? k ds e (ground (arith, h, b)) in (suc i, g, q)
]

get_elem?-find_row :
    (k : Key) (ds : List Delivery) (i : ℕ) (d : Delivery)
    → get_elem? ds i ≡ some d
    → key_of d ≡ k
    → find_row k ds ≢ none
unfolding find_row
get_elem?-find_row k [] i d h q = λ n. ground (arith, h)
get_elem?-find_row k (x ∷ ds) zero d h q = λ n. ground (arith, h, q, n, pair_beq_iff (key_of d) k)
get_elem?-find_row k (x ∷ ds) (suc i) d h q =
    λ n. ground (arith, n, get_elem?-find_row k ds i d h q)

positive-count_if :
    (p : Delivery → Bool) (ds : List Delivery)
    → 1 ≤ count_if p ds
    → (i : ℕ) × (d : Delivery) × (get_elem? ds i ≡ some d) × (p d ≡ true)
positive-count_if p [] h = ground (arith, h)
positive-count_if p (x ∷ ds) h = elim (Bool-cases (p x)) [
  | inl b ↦ (0, x, refl, b)
  | inr b ↦ let (i, d, g, q) = positive-count_if p ds (ground (arith, h, b)) in (suc i, d, g, q)
]

single-count_if :
    (p : Delivery → Bool) (ds : List Delivery)
    → ((i j : ℕ) (d e : Delivery)
        → get_elem? ds i ≡ some d
        → get_elem? ds j ≡ some e
        → p d ≡ true
        → p e ≡ true
        → i ≡ j)
    → count_if p ds ≤ 1
single-count_if p [] u = omega arith
single-count_if p (x ∷ ds) u =
    let rest : count_if p ds ≤ 1 =
      single-count_if p ds (λ i j d e g h m n. ground (arith, u (suc i) (suc j) d e g h m n)) in
    elim (Bool-cases (p x)) [
      | inl b ↦ elim (Bool-cases (count_if p ds == 0)) [
        | inl z ↦ ground (arith, z, b)
        | inr z ↦
            let (i, d, g, m) = positive-count_if p ds (ground (arith, z)) in
            ground (arith, u 0 (suc i) x d refl g b m)
      ]
      | inr b ↦ ground (arith, rest, b)
    ]

module _ (decode : Bytes → Option Record) where
  -- Soundness and completeness of the rows, and that no two are of the same delivery.
  pub parse_rows-told :
      (buf : Bytes) (cut : Bool)
      → ((i : ℕ) (d : Delivery)
          → get_elem? (parse_rows decode buf cut) i ≡ some d
          → told (key_of d) (records decode (whole_lines buf cut)) ≡ some d)
        × ((k : Key) (d : Delivery)
            → told k (records decode (whole_lines buf cut)) ≡ some d
            → (i : ℕ) × (get_elem? (parse_rows decode buf cut) i ≡ some d) × (key_of d ≡ k))
        × ((i j : ℕ) (d e : Delivery)
            → get_elem? (parse_rows decode buf cut) i ≡ some d
            → get_elem? (parse_rows decode buf cut) j ≡ some e
            → key_of d ≡ key_of e
            → i ≡ j)
  unfolding parse_rows
  parse_rows-told buf cut =
      let rs = records decode (whole_lines buf cut) in
      let v : IsTracked (see_all rs no_rows) = see_all-IsTracked rs no_rows no_rows-IsTracked in
      (
        (λ i d h.
            sym (see_all-told rs (key_of d))
            ∙ ap (λ o. row_at o (see_all rs no_rows).out) (v.rows.listed i d h)
            ∙ h),
        (λ k d h.
            let e : row k (see_all rs no_rows).out (see_all rs no_rows).index ≡ some d =
              see_all-told rs k ∙ h in
            elim (Option-cases (lookup k (see_all rs no_rows).index)) [
              | inl f ↦ ground (arith, e, f)
              | inr (i, f) ↦
                  let (x, g, q) = v.rows.indexed k i f in
                  let same : x ≡ d = ground (arith, e, f, g) in
                  (i, g ∙ ap some same, ap key_of (sym same) ∙ q)
            ]),
        λ i j d e h g q. ground (arith, v.rows.listed i d h, v.rows.listed j e g, q),
      )

  -- The fold with its two maps implements the life of each delivery taken by itself: the row of a
  -- delivery is what the lines tell of it, there is none if they tell nothing, and no delivery has
  -- two rows.
  pub parse_rows-find_row :
      (buf : Bytes) (cut : Bool) (k : Key)
      → (find_row k (parse_rows decode buf cut) ≡ told k (records decode (whole_lines buf cut)))
        × (count_if (λ d. pair_beq (key_of d) k) (parse_rows decode buf cut) ≤ 1)
  parse_rows-find_row buf cut k =
      let (sound, complete, unique) = parse_rows-told buf cut in
      let rows = parse_rows decode buf cut in
      (
        elim (Option-cases (find_row k rows)) [
          | inl f ↦ elim (Option-cases (told k (records decode (whole_lines buf cut)))) [
            | inl t ↦ f ∙ sym t
            | inr (d, t) ↦
                let (i, g, q) = complete k d t in
                ground (arith, f, get_elem?-find_row k rows i d g q)
          ]
          | inr (e, f) ↦
              let (i, g, q) = find_row-get_elem? k rows e f in
              f ∙ sym (sound i e g) ∙ ap (λ k. told k (records decode (whole_lines buf cut))) q
        ],
        single-count_if (λ d. pair_beq (key_of d) k) rows
            (λ i j d e g h m n.
              unique i j d e g h
                ((pair_beq_iff (key_of d) k).0 m ∙ sym ((pair_beq_iff (key_of e) k).0 n))),
      )
