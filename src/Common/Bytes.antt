-- ===== src/Common/Bytes.antt =====
-- Byte strings, and what the program uses of Go's `bytes` and `strings` packages.
use Prim.Native.Char.{code}
use Prim.Native.String.{String}
use Prim.Native.Nat.{ℕ}
use mathlib.Core.Path.{◌≡◌, refl}
use mathlib.Core.Logic.{◌↔◌}
use mathlib.Core.List.{List, [], ◌∷◌, ◌++◌}
use mathlib.Core.Bool.{Bool, true, false, ◌&&◌, ◌||◌}
use mathlib.Core.Option.{Option, none, some}
use native.Mathlib.Omega.{arith}
use hubbub.Common.Lists.{count_if}
use mathlib.Core.Bool.{not}
use hubbub.Common.Tests.{◌==◌, ltb, if◌then◌else◌}

abbrev pub Bytes : Type 0
Bytes = List ℕ

-- The bytes of an ASCII literal.
abbrev pub codes : String → Bytes
codes String.[] = []
codes (String.◌∷◌ c s) = code c ∷ codes s

-- `==` on strings, `bytes.Equal`.
unfoldable pub equal : Bytes → Bytes → Bool
equal [] [] = true
equal (x ∷ xs) (y ∷ ys) = x == y && equal xs ys
equal _ _ = false

pub equal_iff : (s t : Bytes) → (equal s t ≡ true) ↔ (s ≡ t)
unfolding equal
equal_iff [] [] = ground arith
equal_iff [] (d ∷ t) = ground arith
equal_iff (c ∷ s) [] = ground arith
equal_iff (c ∷ s) (d ∷ t) = ground (arith, equal_iff s t)

pub equal_refl : (a : Bytes) → equal a a ≡ true
equal_refl a = (equal_iff a a).1 refl

-- `<` on strings.
unfoldable pub less : Bytes → Bytes → Bool
less [] [] = false
less [] (y ∷ ys) = true
less (x ∷ xs) [] = false
less (x ∷ xs) (y ∷ ys) = ltb x y || (x == y && less xs ys)

-- `strings.HasPrefix s p`.
unfoldable pub has_prefix : Bytes → Bytes → Bool
has_prefix s [] = true
has_prefix [] (p ∷ ps) = false
has_prefix (c ∷ cs) (p ∷ ps) = c == p && has_prefix cs ps

-- `strings.Contains` of a list of strings: membership.
unfoldable pub mem : Bytes → List Bytes → Bool
unfolding equal
mem a [] = false
mem a (x ∷ xs) = equal a x || mem a xs

pub mem-count_if : (x : Bytes) (xs : List Bytes) → mem x xs ≡ not (count_if (equal x) xs == 0)
unfolding mem
mem-count_if x [] = refl
mem-count_if x (y ∷ xs) = ground (arith, mem-count_if x xs)

-- `bytes.TrimLeft`, with the cutset as a test.
unfoldable pub trim_left : (ℕ → Bool) → Bytes → Bytes
trim_left cut [] = []
trim_left cut (c ∷ cs) = if cut c then trim_left cut cs else c ∷ cs

-- `bytes.TrimRight`: a byte stays if one that stays is behind it.
unfoldable pub trim_right : (ℕ → Bool) → Bytes → Bytes
trim_right cut [] = []
trim_right cut (c ∷ cs) = elim (trim_right cut cs) [
  | [] ↦ (if cut c then [] else c ∷ [])
  | d ∷ ds ↦ c ∷ d ∷ ds
]

-- `bytes.Trim`.
unfoldable pub trim : (ℕ → Bool) → Bytes → Bytes
unfolding trim_left trim_right
trim cut b = trim_right cut (trim_left cut b)

-- `bytes.Cut` at one byte: what is before and what is behind its first occurrence.
unfoldable pub cut_at : ℕ → Bytes → Option (Bytes × Bytes)
cut_at b [] = none
cut_at b (c ∷ cs) =
    if c == b
    then some ([], cs)
    else elim (cut_at b cs) [ none ↦ none | some (before, after) ↦ some (c ∷ before, after) ]

-- The parts of `strings.Join`.
unfoldable pub join : ℕ → List Bytes → Bytes
join sep [] = []
join sep (p ∷ []) = p
join sep (p ∷ q ∷ ps) = p ++ sep ∷ join sep (q ∷ ps)

-- `strings.Split` at one byte.
abbrev pub cons_byte : ℕ → List Bytes → List Bytes
cons_byte c [] = (c ∷ []) ∷ []
cons_byte c (l ∷ ls) = (c ∷ l) ∷ ls

unfoldable pub split_at : ℕ → Bytes → List Bytes
split_at b [] = [] ∷ []
split_at b (c ∷ cs) = let rest = split_at b cs in if c == b then [] ∷ rest else cons_byte c rest
