-- ===== src/Outbox/Spool/Order.antt =====
-- The order of the queue and the choice of the eviction victim.
use hubbub.Common.{
  ℕ, ◌≤◌, Bool, true, false, not, ◌&&◌, List, [], ◌∷◌, none, some, ◌≡◌, ◌⊎◌, refl, arith,
  Bool-cases, Option-cases, inl, inr, count_if, all,
}
use hubbub.Common.Bytes.{Bytes, equal, equal_iff, equal_refl, mem, less, cut_at}
use hubbub.Outbox.Name.{json, has_suffix, enqueue_nanos_from_name, trim_suffix, split_name}
use hubbub.Outbox.Spool.{
  Dir, json_names, insert_name, sort_names, list, older, scan_oldest, oldest_evictable,
}

all-insert_name :
    (p : Bytes → Bool) (n : Bytes) (ns : List Bytes) → all p (insert_name n ns) ≡ (p n && all p ns)
unfolding insert_name
all-insert_name p n [] = refl
all-insert_name p n (m ∷ ms) = ground (arith, all-insert_name p n ms)

pub all-sort_names : (p : Bytes → Bool) (ns : List Bytes) → all p (sort_names ns) ≡ all p ns
unfolding sort_names
all-sort_names p [] = refl
all-sort_names p (n ∷ ns) = rw (all-insert_name p n (sort_names ns), all-sort_names p ns)

count_if-insert_name :
    (p : Bytes → Bool) (n : Bytes) (ns : List Bytes)
    → count_if p (insert_name n ns) ≡ count_if p (n ∷ ns)
unfolding insert_name
count_if-insert_name p n [] = refl
count_if-insert_name p n (m ∷ ms) = ground (arith, count_if-insert_name p n ms)

-- Sorting keeps the number of names that pass any test.
pub count_if-sort_names :
    (p : Bytes → Bool) (ns : List Bytes) → count_if p (sort_names ns) ≡ count_if p ns
unfolding sort_names
count_if-sort_names p [] = refl
count_if-sort_names p (n ∷ ns) =
    omega (arith, count_if-insert_name p n (sort_names ns), count_if-sort_names p ns)

pub all-json_names : (dir : Dir) → all (λ n. has_suffix n json) (json_names dir) ≡ true
unfolding json_names
all-json_names [] = refl
all-json_names ((n, f) ∷ dir) = ground (arith, all-json_names dir)

pub all-mem :
    (p : Bytes → Bool) (n : Bytes) (ns : List Bytes)
    → all p ns ≡ true
    → mem n ns ≡ true
    → p n ≡ true
unfolding mem
all-mem p n [] h m = cc
all-mem p n (x ∷ ns) h m = ground (arith, all-mem p n ns, equal_iff n x)

pub list-json :
    (fails : Bool) (dir : Dir) (names : List Bytes)
    → list fails dir ≡ some names
    → all (λ n. has_suffix n json) names ≡ true
unfolding list
list-json true dir names h = cc
list-json false dir names h =
    let e : sort_names (json_names dir) ≡ names = ground arith in
    rw (← e, all-sort_names) (all-json_names dir)

-- The scan answers its first candidate, or a name of the list that is not skipped.
scan_oldest-from :
    (skip : List Bytes) (best : Bytes × ℕ) (ns : List Bytes)
    → ((scan_oldest skip best ns).0 ≡ best.0)
      ⊎ ((mem (scan_oldest skip best ns).0 skip ≡ false)
          × (mem (scan_oldest skip best ns).0 ns ≡ true))
unfolding scan_oldest older mem
scan_oldest-from skip best [] = inl refl
scan_oldest-from skip best (n ∷ ns) =
    ground (arith, scan_oldest-from skip (older skip best n) ns, equal_refl n)

-- The victim is a listed name that is not protected.
pub oldest_evictable_sound :
    (fails : Bool) (skip : List Bytes) (dir : Dir) (c : ℕ) (cs : Bytes)
    → oldest_evictable fails skip dir ≡ some (c ∷ cs)
    → (mem (c ∷ cs) skip ≡ false) × (has_suffix (c ∷ cs) json ≡ true)
unfolding oldest_evictable
oldest_evictable_sound fails skip dir c cs h = elim (Option-cases (list fails dir)) [
  | inl e ↦ ground arith
  | inr (names, e) ↦ ground (
    arith,
    scan_oldest-from skip ([], 0) names,
    all-mem (λ n. has_suffix n json) (c ∷ cs) names (list-json fails dir names e),
  )
]

-- What the scan knows of its candidate.
abbrev Candidate : Bytes × ℕ → Type 0
Candidate b = (b.0 ≡ []) ⊎ (enqueue_nanos_from_name b.0 ≡ some b.1)

nanos-nil : enqueue_nanos_from_name [] ≡ none
unfolding enqueue_nanos_from_name trim_suffix has_suffix split_name cut_at
nanos-nil = refl

module _ (skip : List Bytes) where
  older-Candidate : (b : Bytes × ℕ) (n : Bytes) → Candidate b → Candidate (older skip b n)
  unfolding older
  older-Candidate b n h = ground arith

  older-keeps :
      (b : Bytes × ℕ) (n : Bytes) (t : ℕ)
      → (equal b.0 [] ≡ false) × (b.1 ≤ t)
      → (equal (older skip b n).0 [] ≡ false) × ((older skip b n).1 ≤ t)
  unfolding older
  older-keeps b n t h = ground (arith, equal_iff n [], nanos-nil)

  older-takes :
      (b : Bytes × ℕ) (n : Bytes) (t : ℕ)
      → mem n skip ≡ false
      → enqueue_nanos_from_name n ≡ some t
      → (equal (older skip b n).0 [] ≡ false) × ((older skip b n).1 ≤ t)
  unfolding older
  older-takes b n t m e = ground (arith, equal_iff n [], nanos-nil)

  older_all :
      (b : Bytes × ℕ) (ns : List Bytes) (t : ℕ)
      → (equal b.0 [] ≡ false) × (b.1 ≤ t)
      → (equal (scan_oldest skip b ns).0 [] ≡ false) × ((scan_oldest skip b ns).1 ≤ t)
  unfolding scan_oldest
  older_all b [] t h = h
  older_all b (n ∷ ns) t h = older_all (older skip b n) ns t (older-keeps b n t h)

  scan_oldest-Candidate :
      (b : Bytes × ℕ) (ns : List Bytes) → Candidate b → Candidate (scan_oldest skip b ns)
  unfolding scan_oldest
  scan_oldest-Candidate b [] h = h
  scan_oldest-Candidate b (n ∷ ns) h =
      scan_oldest-Candidate (older skip b n) ns (older-Candidate b n h)

  scan_oldest-le :
      (b : Bytes × ℕ) (ns : List Bytes) (n : Bytes) (t : ℕ)
      → mem n ns ≡ true
      → mem n skip ≡ false
      → enqueue_nanos_from_name n ≡ some t
      → (equal (scan_oldest skip b ns).0 [] ≡ false) × ((scan_oldest skip b ns).1 ≤ t)
  unfolding scan_oldest mem
  scan_oldest-le b [] n t i m e = cc
  scan_oldest-le b (x ∷ ns) n t i m e = elim (Bool-cases (equal n x)) [
    | inl same ↦
        older_all (older skip b x) ns t (rw (← (equal_iff n x).0 same) (older-takes b n t m e))
    | inr other ↦ scan_oldest-le (older skip b x) ns n t (ground arith) m e
  ]

-- The victim is the oldest of its kind: whenever a listed name that is not protected carries an
-- enqueue time, a victim is found, and its name carries an enqueue time that is no later.
pub oldest_evictable-oldest :
    (skip : List Bytes) (dir : Dir) (n : Bytes) (t : ℕ)
    → mem n (sort_names (json_names dir)) ≡ true
    → mem n skip ≡ false
    → enqueue_nanos_from_name n ≡ some t
    → (v : Bytes) × (u : ℕ) × (oldest_evictable false skip dir ≡ some v)
      × (enqueue_nanos_from_name v ≡ some u)
      × (u ≤ t)
unfolding oldest_evictable list
oldest_evictable-oldest skip dir n t i m e =
    let names = sort_names (json_names dir) in
    let best = scan_oldest skip ([], 0) names in
    let found = scan_oldest-le skip ([], 0) names n t i m e in
    (
      best.0,
      best.1,
      refl,
      ground (arith, found, scan_oldest-Candidate skip ([], 0) names (inl refl), equal_refl []),
      found.1,
    )

less_asym : (a b : Bytes) → less a b ≡ true → less b a ≡ false
unfolding less
less_asym (x ∷ a) (y ∷ b) h = ground (arith, less_asym a b)
less_asym _ _ h = ground arith

not_less_trans : (a b c : Bytes) → less b a ≡ false → less c b ≡ false → less c a ≡ false
unfolding less
not_less_trans (x ∷ a) (y ∷ b) (z ∷ c) h k = ground (arith, not_less_trans a b c)
not_less_trans [] b [] h k = refl
not_less_trans [] b (z ∷ c) h k = refl
not_less_trans _ _ _ h k = ground arith

-- No name is behind one that it precedes.
abbrev pub InOrder : List Bytes → Type 0
InOrder [] = Unit {0}
InOrder (n ∷ ns) = (all (λ m. not (less m n)) ns ≡ true) × InOrder ns

front_of_rest :
    (a b : Bytes) (ns : List Bytes)
    → less b a ≡ false
    → all (λ m. not (less m b)) ns ≡ true
    → all (λ m. not (less m a)) ns ≡ true
front_of_rest a b [] h k = refl
front_of_rest a b (n ∷ ns) h k = ground (arith, front_of_rest a b ns, not_less_trans a b n)

insert_name-InOrder : (n : Bytes) (ns : List Bytes) → InOrder ns → InOrder (insert_name n ns)
unfolding insert_name
insert_name-InOrder n [] h = (refl, tt)
insert_name-InOrder n (m ∷ ms) h = elim (Bool-cases (less m n)) [
  | inl e ↦ rw e (rw all-insert_name (ground (arith, less_asym m n)), insert_name-InOrder n ms h.1)
  | inr e ↦ rw e (ground (arith, front_of_rest n m ms), h)
]

sort_names-InOrder : (ns : List Bytes) → InOrder (sort_names ns)
unfolding sort_names
sort_names-InOrder [] = tt
sort_names-InOrder (n ∷ ns) = insert_name-InOrder n (sort_names ns) (sort_names-InOrder ns)

-- When the directory can be read, `list` answers its `.json` names in queue order, and as many of
-- them pass any test `p` as in the directory, so none is left out or repeated.
pub list_lem :
    (dir : Dir) (p : Bytes → Bool)
    → (names : List Bytes) × (list false dir ≡ some names)
      × (count_if p names ≡ count_if p (json_names dir))
      × InOrder names
unfolding list
list_lem dir p = (
  sort_names (json_names dir),
  refl,
  count_if-sort_names p (json_names dir),
  sort_names-InOrder (json_names dir),
)
