-- ===== src/Tomledit/Verify/Equal.antt =====
-- What `equalAny` finds equal is equal.
use hubbub.Common.{
  ℕ, ◌≤◌, ◌<◌, Bool, true, false, Option, none, some, if◌then◌else◌, ◌==◌, ◌≡◌, ◌≢◌, inl, inr, refl,
  sym, ap, ◌∙◌, arith, Bool-cases, Option-cases,
}
use hubbub.Common.Bytes.{Bytes, equal, equal_iff, equal_refl}
use hubbub.Tomledit.Verify.{
  Value, scalar, nan, tables, array, table, Values, end, item, Table, empty, entry, look_up,
  table_len, items_len, Verdict, same, differs, panics, and_then, equal_any, equal_items,
  equal_entries,
}

-- Two values are equal: the same scalar, arrays of equal values in the same order, or tables that hold
-- equal values under the same keys.
mutual
  pub data Same : Value → Value → Type 0 where
    same_scalar : (a : ℕ) → Same (scalar a) (scalar a)
    same_array : {xs ys : Values} → SameItems xs ys → Same (array xs) (array ys)
    same_table :
        {t u : Table} → ((k : Bytes) → Agree (look_up k t) (look_up k u)) → Same (table t) (table u)

  pub data SameItems : Values → Values → Type 0 where
    no_items : SameItems end end
    items :
        {x y : Value} {xs ys : Values}
        → Same x y
        → SameItems xs ys
        → SameItems (item x xs) (item y ys)

  -- Two lookups find nothing, or equal values.
  pub data Agree : Option Value → Option Value → Type 0 where
    absent : Agree none none
    present : {v w : Value} → Same v w → Agree (some v) (some w)

-- No table that is compared has a key twice.
unfoldable mutual
  pub IsMap : Value → Type 0
  IsMap (scalar a) = Unit
  IsMap nan = Unit
  IsMap (tables ts) = Unit
  IsMap (array xs) = AreMaps xs
  IsMap (table t) = IsTable t

  pub AreMaps : Values → Type 0
  AreMaps end = Unit
  AreMaps (item v vs) = IsMap v × AreMaps vs

  pub IsTable : Table → Type 0
  IsTable empty = Unit
  IsTable (entry k v t) = (look_up k t ≡ none) × IsMap v × IsTable t

without : Bytes → Table → Table
without k empty = empty
without k (entry j v t) = let rest = without k t in if equal j k then rest else entry j v rest

look_up-without :
    (j k : Bytes) (t : Table) → look_up j (without k t) ≡ (if equal k j then none else look_up j t)
unfolding look_up without
look_up-without j k empty = ground arith
look_up-without j k (entry i v t) =
    ground (arith, look_up-without j k t, equal_iff i k, equal_iff i j, equal_iff k j)

len-without : (k : Bytes) (t : Table) → table_len (without k t) ≤ table_len t
unfolding without table_len
len-without k empty = ground arith
len-without k (entry j v t) = ground (arith, len-without k t)

len-without_one :
    (k : Bytes) (t : Table) → look_up k t ≢ none → table_len (without k t) < table_len t
unfolding without table_len look_up
len-without_one k empty h = absurd (h refl)
len-without_one k (entry j v t) h = elim (Bool-cases (equal j k)) [
  | inl e ↦ ground (arith, e, len-without k t)
  | inr e ↦
      let rest = len-without_one k t (λ n. h (ground (arith, e, n))) in ground (arith, e, rest)
]

-- A table without repeated keys, all of which another one has, is no larger.
len-within :
    (t u : Table)
    → IsTable t
    → ((k : Bytes) → look_up k t ≢ none → look_up k u ≢ none)
    → table_len t ≤ table_len u
unfolding IsTable table_len look_up
len-within empty u m h = ground arith
len-within (entry k v t) u (n, _, m) h =
    let fewer : table_len (without k u) < table_len u =
      len-without_one k u (h k (λ e. ground (arith, e, equal_refl k))) in
    let rest : table_len t ≤ table_len (without k u) = len-within t (without k u) m (λ j f g.
      elim (Bool-cases (equal k j)) [
        | inl e ↦ f (ap (λ x. look_up x t) (sym ((equal_iff k j).0 e)) ∙ n)
        | inr e ↦ h j (λ a. f (ground (arith, a, e))) (ground (arith, g, e, look_up-without j k u))
      ]) in
    omega (arith, fewer, rest)

-- Where each key of a table has an equal value in one as large, the two agree on every key.
Agree-look_up :
    (t u : Table)
    → IsTable t
    → table_len t ≡ table_len u
    → ((k : Bytes) (v : Value)
        → look_up k t ≡ some v
        → (w : Value) × (look_up k u ≡ some w) × Same v w)
    → (k : Bytes) → Agree (look_up k t) (look_up k u)
Agree-look_up t u m l found k = elim (Option-cases (look_up k t)) [
  | inr (v, e) ↦ let (w, f, s) = found k v e in rw (e, f) (present s)
  | inl e ↦ elim (Option-cases (look_up k u)) [
    | inl f ↦ rw (e, f) absent
    | inr (w, f) ↦
        let fewer : table_len (without k u) < table_len u =
          len-without_one k u (λ n. ground (arith, f, n)) in
        let within : table_len t ≤ table_len (without k u) = len-within t (without k u) m (λ j a b.
          elim (Bool-cases (equal k j)) [
            | inl q ↦ a (ap (λ x. look_up x t) (sym ((equal_iff k j).0 q)) ∙ e)
            | inr q ↦ elim (Option-cases (look_up j t)) [
              | inl g ↦ a g
              | inr (v, g) ↦
                  let (w', i, _) = found j v g in ground (arith, b, q, i, look_up-without j k u)
            ]
          ]) in
        absurd (omega (arith, l, fewer, within))
  ]
]

same_length :
    (n m : ℕ) (v : Verdict) → (if n == m then v else differs) ≡ same → (n ≡ m) × (v ≡ same)
same_length n m v h = ground (arith, h)

both_same : (v w : Verdict) → and_then v w ≡ same → (v ≡ same) × (w ≡ same)
both_same same w h = (refl, h)
both_same differs w h = ground (arith, h)
both_same panics w h = ground (arith, h)

-- What one round of the loop over the entries comes to.
abbrev round : Option Value → Value → Verdict → Verdict
round o x rest = elim o [ none ↦ differs | some w ↦ and_then (equal_any x w) rest ]

none_same : (o : Option Value) (x : Value) (rest : Verdict) → o ≡ none → round o x rest ≢ same
none_same o x rest e h = ground (arith, e, h)

some_same :
    (o : Option Value) (x w : Value) (rest : Verdict)
    → o ≡ some w
    → round o x rest ≡ same
    → (equal_any x w ≡ same) × (rest ≡ same)
some_same o x w rest e h = both_same (equal_any x w) rest (ground (arith, e, h))

then_of :
    (a v : Value) (o : Option Value) (b : Bool)
    → b ≡ true
    → (if b then some a else o) ≡ some v
    → a ≡ v
then_of a v o b e h = ground (arith, e, h)

else_of :
    (a v : Value) (o : Option Value) (b : Bool)
    → b ≡ false
    → (if b then some a else o) ≡ some v
    → o ≡ some v
else_of a v o b e h = ground (arith, e, h)

mutual
  unfolding equal_any equal_items equal_entries items_len look_up IsMap AreMaps IsTable

  pub equal_any-Same : (v w : Value) → IsMap v → equal_any v w ≡ same → Same v w
  equal_any-Same (scalar a) (scalar b) m h =
      let (s, _) = same_length a b same h in rw s (same_scalar b)
  equal_any-Same (array xs) (array ys) m h =
      let (l, e) = same_length (items_len xs) (items_len ys) (equal_items xs ys) h in
      same_array (equal_items-Same xs ys m l e)
  equal_any-Same (table t) (table u) m h =
      let (l, e) = same_length (table_len t) (table_len u) (equal_entries t u) h in
      same_table (Agree-look_up t u m l (λ k v. equal_entries-Same t u k v m e))
  equal_any-Same (tables ts) (tables us) m h = absurd (cc h)
  equal_any-Same v w m h = absurd (cc h)

  pub equal_items-Same :
      (xs ys : Values)
      → AreMaps xs
      → items_len xs ≡ items_len ys
      → equal_items xs ys ≡ same
      → SameItems xs ys
  equal_items-Same end end m l h = no_items
  equal_items-Same end (item y ys) m l h = absurd (ground (arith, l))
  equal_items-Same (item x xs) end m l h = absurd (ground (arith, h))
  equal_items-Same (item x xs) (item y ys) (n, m) l h =
      let (e, f) = both_same (equal_any x y) (equal_items xs ys) h in
      items (equal_any-Same x y n e) (equal_items-Same xs ys m (omega (arith, l)) f)

  pub equal_entries-Same :
      (t u : Table) (k : Bytes) (v : Value)
      → IsTable t
      → equal_entries t u ≡ same
      → look_up k t ≡ some v
      → (w : Value) × (look_up k u ≡ some w) × Same v w
  equal_entries-Same empty u k v m h l = absurd (cc l)
  equal_entries-Same (entry j x t) u k v (n, m, r) h l = elim (Option-cases (look_up j u)) [
    | inl e ↦ absurd (none_same (look_up j u) x (equal_entries t u) e h)
    | inr (w, e) ↦
        let (f, g) = some_same (look_up j u) x w (equal_entries t u) e h in
        elim (Bool-cases (equal j k)) [
          | inr q ↦ equal_entries-Same t u k v r g (else_of x v (look_up k t) (equal j k) q l)
          | inl q ↦
              let one : x ≡ v = then_of x v (look_up k t) (equal j k) q l in
              (
                w,
                ap (λ i. look_up i u) (sym ((equal_iff j k).0 q)) ∙ e,
                rw (sym one) (equal_any-Same x w m f),
              )
        ]
  ]
