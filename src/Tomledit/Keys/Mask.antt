-- ===== src/Tomledit/Keys/Mask.antt =====
-- `MaskStrings` under a mask that hands every text back (internal/tomledit/tomledit.go).
use hubbub.Common.{
  ℕ, zero, suc, ◌-◌, ◌≤◌, ◌||◌, [], ◌∷◌, ◌++◌, Option, none, some, ◌≡◌, inl, inr, refl, arith, ap,
  ◌==◌, take, drop, slice, take-append-drop, Bool-cases, Option-cases,
}
use hubbub.Common.Bytes.{Bytes, has_prefix, cut_at}
use hubbub.Tomledit.Lines.{quote, apostrophe, skip_basic, skip_literal, three}
use hubbub.Tomledit.Keys.{
  MaskMove, last, more, inner_len, mask_at, mask_from, mask_line, key_of, mask_strings,
}

take-nil : (k : ℕ) → take {A = ℕ} k [] ≡ []
take-nil zero = refl
take-nil (suc k) = refl

take-slice : (m n : ℕ) (xs : Bytes) → m ≤ n → take m xs ++ slice m n xs ≡ take n xs
take-slice zero n xs h = ap (λ k. take k xs) (omega arith)
take-slice (suc m) zero xs h = absurd (omega arith)
take-slice (suc m) (suc n) [] h = take-nil (suc n - suc m)
take-slice (suc m) (suc n) (x ∷ xs) h = ground (arith, take-slice m n xs)

-- What one step of an idle mask writes is what it passes over.
abbrev Copies : Bytes → MaskMove → Type 0
Copies line (last out) = out ≡ line
Copies line (more out skip) = out ≡ take (suc skip) line

abbrev same : Bytes → Bytes
same raw = raw

inner_len-le : (c : ℕ) (rest : Bytes) (n : ℕ) → inner_len c rest n ≤ n
inner_len-le c rest n = ground arith

mask_at-Copies : (c : ℕ) (rest : Bytes) → Copies (c ∷ rest) (mask_at same c rest)
unfolding mask_at
mask_at-Copies c rest = elim (Bool-cases (c == b'#')) [
  | inl e ↦ rw e refl
  | inr e ↦
      elim (Bool-cases
        (has_prefix (c ∷ rest) (three quote) || has_prefix (c ∷ rest) (three apostrophe))) [
          | inl f ↦ rw (e, f) (take-append-drop 3 (c ∷ rest))
          | inr f ↦ elim (Bool-cases (c == quote)) [
            | inl g ↦
                rw (e, f, g)
                  (ap (λ t. c ∷ t)
                    (take-slice (inner_len c rest (skip_basic rest)) (skip_basic rest) rest
                      (inner_len-le c rest (skip_basic rest))))
            | inr g ↦ elim (Bool-cases (c == apostrophe)) [
              | inl k ↦
                  rw (e, f, g, k)
                    (ap (λ t. c ∷ t)
                      (take-slice (inner_len c rest (skip_literal rest)) (skip_literal rest) rest
                        (inner_len-le c rest (skip_literal rest))))
              | inr k ↦ rw (e, f, g, k) refl
            ]
          ]
        ]
]

mask_from-same : (skip : ℕ) (line : Bytes) → mask_from same skip line ≡ drop skip line
unfolding mask_from
mask_from-same zero [] = refl
mask_from-same (suc skip) [] = refl
mask_from-same (suc skip) (c ∷ cs) = mask_from-same skip cs
mask_from-same zero (c ∷ cs) =
    go (mask_at same c cs) (mask_at-Copies c cs) (λ n. mask_from-same n cs)
  where
    go :
        (m : MaskMove)
        → Copies (c ∷ cs) m
        → ((n : ℕ) → mask_from same n cs ≡ drop n cs)
        → (elim m [ last out ↦ out | more out skip ↦ out ++ mask_from same skip cs ]) ≡ c ∷ cs
    go (last out) e rest = e
    go (more out n) e rest = rw (e, rest n) (ap (λ t. c ∷ t) (take-append-drop n cs))

cut_at-join :
    (b : ℕ) (s : Bytes) {before after : Bytes}
    → cut_at b s ≡ some (before, after)
    → before ++ (b ∷ after) ≡ s
unfolding cut_at
cut_at-join b [] h = cc
cut_at-join b (c ∷ cs) {before} {after} h = elim (Bool-cases (c == b)) [
  | inl e ↦ ground arith
  | inr e ↦ elim (Option-cases (cut_at b cs)) [
    | inl f ↦ ground arith
    | inr (p, f) ↦ ground (arith, cut_at-join b cs {before = p.0} {after = p.1} f)
  ]
]

mask_line-same : (line : Bytes) (k : Option Bytes) → mask_line (λ name raw. raw) line k ≡ line
unfolding mask_line
mask_line-same line none = mask_from-same 0 line
mask_line-same line (some name) = elim (Option-cases (cut_at b'=' line)) [
  | inl e ↦ rw (mask_line, e) (mask_from-same 0 line)
  | inr (p, e) ↦
      rw (mask_line, e, mask_from-same 0 p.1) (cut_at-join b'=' line {before = p.0} {after = p.1} e)
]

-- `MaskStrings` with a mask that hands every text back gives the line back: it substitutes string
-- values and changes no other byte of a line, whatever the line holds.
pub mask_strings-same :
    (unquote : Bytes → Option Bytes) (line : Bytes)
    → mask_strings unquote line (λ name raw. raw) ≡ line
unfolding mask_strings
mask_strings-same unquote line = ground (arith, mask_line-same line (key_of line))
