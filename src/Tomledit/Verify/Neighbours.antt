-- ===== src/Tomledit/Verify/Neighbours.antt =====
-- What an edit that `VerifyNeighbours` lets pass may change.
use hubbub.Common.{
  false, Option, none, some, ◌⊎◌, ◌≡◌, ◌≢◌, inl, inr, refl, sym, arith, Bool-cases, Option-cases,
}
use hubbub.Common.Bytes.{Bytes, equal, equal_iff}
use hubbub.Tomledit.Verify.{
  Value, Table, empty, entry, look_up, Verdict, same, differs, panics, equal_any, check_old,
  check_new, check_both, verify_neighbours,
}
use hubbub.Tomledit.Verify.Equal.{Agree, absent, present, IsMap, IsTable, equal_any-Same}

Verdict-cases : (v : Verdict) → (v ≡ same) ⊎ ((v ≡ differs) ⊎ (v ≡ panics))
Verdict-cases same = inl refl
Verdict-cases differs = inr (inl refl)
Verdict-cases panics = inr (inr refl)

look_up-IsMap : (k : Bytes) (t : Table) (v : Value) → IsTable t → look_up k t ≡ some v → IsMap v
unfolding look_up IsTable
look_up-IsMap k empty v m l = absurd (cc l)
look_up-IsMap k (entry j x t) v (_, m, r) l = elim (Bool-cases (equal j k)) [
  | inl e ↦ let s : x ≡ v = ground (arith, e, l) in rw (sym s) m
  | inr e ↦ look_up-IsMap k t v r (ground (arith, e, l))
]

-- What the loop checks of one entry, it also checks of the rest.
kept_on :
    (id j : Bytes) (u : Value) (b a : Table)
    → check_old id (entry j u b) a ≡ none
    → check_old id b a ≡ none
unfolding check_old
kept_on id j u b a h = elim (Bool-cases (equal j id)) [
  | inl e ↦ ground (arith, e, h)
  | inr e ↦ elim (Option-cases (look_up j a)) [
    | inl f ↦ ground (arith, e, f, h)
    | inr (w, f) ↦ elim (Verdict-cases (equal_any u w)) [
      | inl g ↦ ground (arith, e, f, g, h)
      | inr (inl g) ↦ ground (arith, e, f, g, h)
      | inr (inr g) ↦ ground (arith, e, f, g, h)
    ]
  ]
]

check_old-look_up :
    (id k : Bytes) (b a : Table) (v : Value)
    → check_old id b a ≡ none
    → equal k id ≡ false
    → look_up k b ≡ some v
    → (w : Value) × (look_up k a ≡ some w) × (equal_any v w ≡ same)
unfolding check_old look_up
check_old-look_up id k empty a v h n l = cc
check_old-look_up id k (entry j u b) a v h n l = elim (Bool-cases (equal j k)) [
  | inl e ↦ elim (Option-cases (look_up j a)) [
    | inl f ↦ absurd (ground (arith, equal_iff j k))
    | inr (w, f) ↦ (
      w,
      ground (arith, equal_iff j k),
      ground (arith, equal_iff j k, Verdict-cases (equal_any u w)),
    )
  ]
  | inr e ↦ check_old-look_up id k b a v (kept_on id j u b a h) n (ground arith)
]

check_new-look_up :
    (id k : Bytes) (a b : Table) (w : Value)
    → check_new id a b ≡ none
    → equal k id ≡ false
    → look_up k a ≡ some w
    → look_up k b ≢ none
unfolding check_new look_up
check_new-look_up id k empty b w h n l = cc
check_new-look_up id k (entry j u a) b w h n l = elim (Bool-cases (equal j k)) [
  | inl e ↦ λ absent. ground (arith, equal_iff j k)
  | inr e ↦ check_new-look_up id k a b w (ground arith) n (ground arith)
]

check_both-Agree :
    (id k : Bytes) (b a : Table)
    → check_both id b a ≡ none
    → equal k id ≡ false
    → IsTable b
    → Agree (look_up k b) (look_up k a)
unfolding check_both
check_both-Agree id k b a h n m = elim (Option-cases (look_up k b)) [
  | inl e ↦ elim (Option-cases (look_up k a)) [
    | inl f ↦ rw (e, f) absent
    | inr (w, f) ↦ absurd (check_new-look_up id k a b w (ground arith) n f e)
  ]
  | inr (v, e) ↦
      let (w, f, q) = check_old-look_up id k b a v (ground arith) n e in
      rw (e, f) (present (equal_any-Same v w (look_up-IsMap k b v m e) q))
]

-- Where the decoder gives no table with a key twice, an edit that `VerifyNeighbours` lets pass is of
-- a file that parses to one that parses, and every table but the one it claims to change is in both,
-- with equal values, or in neither. Arrays and tables are equal when their elements are, in every
-- depth.
pub verify_neighbours-Agree :
    (decode : Bytes → Option Table)
    → ((s : Bytes) (t : Table) → decode s ≡ some t → IsTable t)
    → (before after id k : Bytes) → verify_neighbours decode before after id ≡ none
    → equal k id ≡ false
    → (b : Table) × (a : Table) × (decode before ≡ some b)
      × (decode after ≡ some a)
      × Agree (look_up k b) (look_up k a)
unfolding verify_neighbours
verify_neighbours-Agree decode maps before after id k h n = elim (Option-cases (decode before)) [
  | inl e ↦ absurd (ground arith)
  | inr (b, e) ↦ elim (Option-cases (decode after)) [
    | inl f ↦ absurd (ground arith)
    | inr (a, f) ↦ (b, a, e, f, check_both-Agree id k b a (ground arith) n (maps before b e))
  ]
]
