-- ===== src/Dlog/Parse/Rows.antt =====
-- The rows that `parseRecent` keeps, by their keys.
use hubbub.Common.{
  ℕ, zero, suc, Bool, true, false, List, [], ◌∷◌, ◌++◌, Option, none, some, ◌≡◌, inl, inr, refl, ap,
  ◌∙◌, arith, if◌then◌else◌, ◌==◌, length, get_elem?, Bool-cases, Option-cases,
}
use hubbub.Common.Assoc.{pair_eq, pair_beq, pair_beq_iff, lookup, insert, lookup-insert}
use hubbub.Dlog.{Delivery}
use hubbub.Dlog.Parse.{Key, Fold, update_at}

abbrev pub key_of : Delivery → Key
key_of d = (d.request_id, d.channel)

abbrev pub row_at : Option ℕ → List Delivery → Option Delivery
row_at none out = none
row_at (some i) out = get_elem? out i

-- The row that an index has for a key.
abbrev pub row : Key → List Delivery → List (Key × ℕ) → Option Delivery
row k out index = row_at (lookup k index) out

get_elem?-update_at :
    (f : Delivery → Delivery) (ds : List Delivery) (i j : ℕ)
    → get_elem? (update_at i f ds) j ≡ (
        if i == j
        then (elim (get_elem? ds j) [ none ↦ none | some d ↦ some (f d) ])
        else get_elem? ds j)
get_elem?-update_at f [] i j = ground arith
get_elem?-update_at f (d ∷ ds) zero zero = refl
get_elem?-update_at f (d ∷ ds) zero (suc j) = ground arith
get_elem?-update_at f (d ∷ ds) (suc i) zero = ground arith
get_elem?-update_at f (d ∷ ds) (suc i) (suc j) = ground (arith, get_elem?-update_at f ds i j)

get_elem?-concat :
    (ds : List Delivery) (d : Delivery) (j : ℕ)
    → get_elem? (ds ++ d ∷ []) j ≡ (if length ds == j then some d else get_elem? ds j)
get_elem?-concat [] d zero = ground arith
get_elem?-concat [] d (suc j) = ground arith
get_elem?-concat (x ∷ ds) d zero = ground arith
get_elem?-concat (x ∷ ds) d (suc j) = ground (arith, get_elem?-concat ds d j)

get_elem?-length : (ds : List Delivery) → get_elem? ds (length ds) ≡ none
get_elem?-length [] = refl
get_elem?-length (d ∷ ds) = get_elem?-length ds

-- The index and the rows name one another.
pub record IsIndexed (st : Fold) : Type 0 where
  pub indexed :
      (k : Key) (i : ℕ)
      → lookup k st.index ≡ some i
      → (d : Delivery) × (get_elem? st.out i ≡ some d) × (key_of d ≡ k)
  pub listed :
      (i : ℕ) (d : Delivery) → get_elem? st.out i ≡ some d → lookup (key_of d) st.index ≡ some i

-- A row that is appended under a new key.
abbrev pub appended : Fold → Delivery → List (Key × Bool) → Fold
appended st d w = record {
  out = st.out ++ d ∷ [];
  index = insert (key_of d) (length st.out) st.index;
  awaiting = w;
}

-- A row that is changed in its place.
abbrev pub updated : Fold → ℕ → (Delivery → Delivery) → List (Key × Bool) → Fold
updated st i f w = record st { out = update_at i f st.out; awaiting = w }

module _ (st : Fold) (d : Delivery) (w : List (Key × Bool)) (v : IsIndexed st)
    (new : lookup (key_of d) st.index ≡ none) where
  row_at-appended :
      (k : Key) (b : Bool)
      → pair_beq (key_of d) k ≡ b
      → row_at (if b then some (length st.out) else lookup k st.index) (st.out ++ d ∷ [])
        ≡ (if b then some d else row k st.out st.index)
  row_at-appended k true h = ground (arith, get_elem?-concat st.out d (length st.out))
  row_at-appended k false h = elim (Option-cases (lookup k st.index)) [
    | inl f ↦ ground (arith, f)
    | inr (i, f) ↦
        let (x, g, q) = v.indexed k i f in
        ground (arith, f, g, get_elem?-concat st.out d i, get_elem?-length st.out)
  ]

  pub row-appended :
      (k : Key)
      → row k (appended st d w).out (appended st d w).index
        ≡ (if pair_beq (key_of d) k then some d else row k st.out st.index)
  row-appended k =
      ap (λ o. row_at o (appended st d w).out) (lookup-insert k (key_of d) (length st.out) st.index)
      ∙ row_at-appended k (pair_beq (key_of d) k) refl

  pub appended-IsIndexed : IsIndexed (appended st d w)
  appended-IsIndexed = record {
    indexed = λ k i h. elim (Bool-cases (pair_beq (key_of d) k)) [
      | inl e ↦ (
        d,
        ground (
          arith,
          get_elem?-concat st.out d i,
          lookup-insert k (key_of d) (length st.out) st.index,
        ),
        (pair_beq_iff (key_of d) k).0 e,
      )
      | inr e ↦
          let f : lookup k st.index ≡ some i =
            ground (arith, lookup-insert k (key_of d) (length st.out) st.index) in
          let (x, g, q) = v.indexed k i f in
          (x, ground (arith, g, get_elem?-concat st.out d i, get_elem?-length st.out), q)
    ];
    listed = λ i x h. elim (Bool-cases (length st.out == i)) [
      | inl e ↦
          let same : d ≡ x = ground (arith, get_elem?-concat st.out d i) in
          rw (lookup-insert (key_of x) (key_of d) (length st.out) st.index)
            (ground (arith, same, pair_beq_iff (key_of d) (key_of x)))
      | inr e ↦
          let old : get_elem? st.out i ≡ some x = ground (arith, get_elem?-concat st.out d i) in
          rw (lookup-insert (key_of x) (key_of d) (length st.out) st.index)
            (ground (arith, v.listed i x old, new, pair_beq_iff (key_of d) (key_of x)))
    ];
  }

module _ (st : Fold) (j : Key) (i : ℕ) (f : Delivery → Delivery) (w : List (Key × Bool))
    (v : IsIndexed st) (at : lookup j st.index ≡ some i)
    (same : (d : Delivery) → key_of (f d) ≡ key_of d) where
  rank : (k : Key) (n : ℕ) → lookup k st.index ≡ some n → (i == n) ≡ pair_beq j k
  rank k n h =
      let (x, g, q) = v.indexed k n h in
      let (y, m, p) = v.indexed j i at in ground (arith, h, at, g, m, q, p, pair_beq_iff j k)

  pub row-updated :
      (k : Key)
      → row k (updated st i f w).out (updated st i f w).index ≡ (
          if pair_beq j k
          then (elim (row k st.out st.index) [ none ↦ none | some d ↦ some (f d) ])
          else row k st.out st.index)
  row-updated k = elim (Option-cases (lookup k st.index)) [
    | inl h ↦ ground (arith, h, at, pair_beq_iff j k)
    | inr (n, h) ↦ ground (arith, h, rank k n h, get_elem?-update_at f st.out i n)
  ]

  pub updated-IsIndexed : IsIndexed (updated st i f w)
  updated-IsIndexed = record {
    indexed = λ k n h.
        let (x, g, q) = v.indexed k n h in
        elim (Bool-cases (i == n)) [
          | inl e ↦ (f x, ground (arith, e, g, get_elem?-update_at f st.out i n), same x ∙ q)
          | inr e ↦ (x, ground (arith, e, g, get_elem?-update_at f st.out i n), q)
        ];
    listed = λ n d h. elim (Option-cases (get_elem? st.out n)) [
      | inl g ↦ ground (arith, g, h, get_elem?-update_at f st.out i n)
      | inr (x, g) ↦
          let q : key_of d ≡ key_of x =
            ground (arith, g, h, get_elem?-update_at f st.out i n, same x) in
          ap (λ k. lookup k st.index) q ∙ v.listed n x g
    ];
  }
