-- ===== src/Common/Assoc.antt =====
-- Go maps as association lists, over any type of keys with an equality test.
use mathlib.Core.Path.{◌≡◌}
use mathlib.Core.Logic.{◌↔◌}
use mathlib.Core.List.{List, [], ◌∷◌}
use mathlib.Core.Bool.{Bool, true, false, not, ◌&&◌, ◌||◌}
use mathlib.Core.Option.{Option, none, some}
use native.Mathlib.Omega.{arith}
use hubbub.Common.Tests.{if◌then◌else◌}
use hubbub.Common.Bytes.{Bytes, equal, equal_iff}

pub record Eq {ℓ} (A : Type ℓ) : Type ℓ where
  pub beq : A → A → Bool
  pub beq_iff : (a b : A) → (beq a b ≡ true) ↔ (a ≡ b)

instance abbrev pub bytes_eq : Eq Bytes
bytes_eq = record { beq = equal; beq_iff = equal_iff }

abbrev pub pair_beq : Bytes × Bytes → Bytes × Bytes → Bool
pair_beq p q = equal p.0 q.0 && equal p.1 q.1

pub pair_beq_iff : (p q : Bytes × Bytes) → (pair_beq p q ≡ true) ↔ (p ≡ q)
pair_beq_iff (a, b) (c, d) = (
  λ h. ground (arith, equal_iff a c, equal_iff b d),
  λ h. ground (arith, equal_iff a c, equal_iff b d),
)

instance abbrev pub pair_eq : Eq (Bytes × Bytes)
pair_eq = record { beq = pair_beq; beq_iff = pair_beq_iff }

module _ {ℓ κ} {K : Type ℓ} {V : Type κ} ⦃e : Eq K⦄ where
  unfoldable pub lookup : K → List (K × V) → Option V
  lookup k [] = none
  lookup k ((j, v) ∷ m) = if e.beq j k then some v else lookup k m

  unfoldable pub remove : K → List (K × V) → List (K × V)
  remove k [] = []
  remove k ((j, v) ∷ m) = let rest = remove k m in if e.beq j k then rest else (j, v) ∷ rest

  unfoldable pub insert : K → V → List (K × V) → List (K × V)
  insert k v m = (k, v) ∷ remove k m

  pub lookup-remove :
      (j k : K) (m : List (K × V))
      → lookup j (remove k m) ≡ (if e.beq k j then none else lookup j m)
  unfolding lookup remove
  lookup-remove j k [] = ground arith
  lookup-remove j k ((i, v) ∷ m) =
      ground (arith, lookup-remove j k m, e.beq_iff i k, e.beq_iff i j, e.beq_iff k j)

  pub lookup-insert :
      (j k : K) (v : V) (m : List (K × V))
      → lookup j (insert k v m) ≡ (if e.beq k j then some v else lookup j m)
  unfolding insert
  lookup-insert j k v m = unfold lookup in ground (arith, lookup-remove j k m)

  -- `_, ok := m[k]`.
  abbrev pub has : K → List (K × V) → Bool
  has k m = elim (lookup k m) [ none ↦ false | some v ↦ true ]

  pub has-insert :
      (j k : K) (v : V) (m : List (K × V)) → has j (insert k v m) ≡ (e.beq k j || has j m)
  has-insert j k v m = ground (arith, lookup-insert j k v m)

  pub has-remove : (j k : K) (m : List (K × V)) → has j (remove k m) ≡ (not (e.beq k j) && has j m)
  has-remove j k m = ground (arith, lookup-remove j k m)
