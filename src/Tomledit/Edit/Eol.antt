-- ===== src/Tomledit/Edit/Eol.antt =====
-- Line endings: `normalise` (internal/tomledit/tomledit.go).
use hubbub.Common.{
  ℕ, ◌-◌, ltb, Bool, true, false, not, [], ◌∷◌, ◌≡◌, inl, inr, refl, arith, ◌==◌, all, Bool-cases,
}
use hubbub.Common.Bytes.{Bytes, equal, equal_refl}
use hubbub.Tomledit.Edit.{
  lf, crlf, crlf_to_lf, cr_to_lf, lf_to, normalise, dominant_eol, count_lf, count_crlf,
}

-- No carriage return.
abbrev pub is_unix : Bytes → Bool
is_unix = all (λ c. not (c == b'\r'))

pub crlf_to_lf-is_unix : (b : Bytes) → is_unix b ≡ true → crlf_to_lf b ≡ b
unfolding crlf_to_lf
crlf_to_lf-is_unix [] h = refl
crlf_to_lf-is_unix (c ∷ []) h = refl
crlf_to_lf-is_unix (c ∷ d ∷ cs) h = ground (arith, crlf_to_lf-is_unix (d ∷ cs))

pub cr_to_lf-is_unix : (b : Bytes) → is_unix b ≡ true → cr_to_lf b ≡ b
unfolding cr_to_lf
cr_to_lf-is_unix [] h = refl
cr_to_lf-is_unix (c ∷ cs) h = ground (arith, cr_to_lf-is_unix cs)

is_unix-cr_to_lf : (b : Bytes) → is_unix (cr_to_lf b) ≡ true
unfolding cr_to_lf
is_unix-cr_to_lf [] = refl
is_unix-cr_to_lf (c ∷ cs) = ground (arith, is_unix-cr_to_lf cs)

crlf_to_lf_plain :
    (c : ℕ) (r : Bytes) → (c == b'\r') ≡ false → crlf_to_lf (c ∷ r) ≡ c ∷ crlf_to_lf r
unfolding crlf_to_lf
crlf_to_lf_plain c [] h = refl
crlf_to_lf_plain c (d ∷ r) h = ground arith

crlf_to_lf-lf_to : (b : Bytes) → is_unix b ≡ true → crlf_to_lf (lf_to crlf b) ≡ b
unfolding crlf_to_lf lf_to
crlf_to_lf-lf_to [] h = refl
crlf_to_lf-lf_to (c ∷ cs) h =
    ground (arith, crlf_to_lf-lf_to cs, crlf_to_lf_plain c (lf_to crlf cs))

-- A browser submits a text with "\r\n" for each line break. Normalising the submitted form of a
-- text without carriage returns gives the text for a "\n" file, and the submitted form itself for a
-- "\r\n" file.
pub normalise-submitted :
    (b : Bytes)
    → is_unix b ≡ true
    → (normalise (lf_to crlf b) lf ≡ b) × (normalise (lf_to crlf b) crlf ≡ lf_to crlf b)
unfolding normalise
normalise-submitted b h =
    let e = crlf_to_lf-lf_to b h in
    (rw (equal_refl lf, e) (cr_to_lf-is_unix b h), unfold equal in rw e (rw (cr_to_lf-is_unix b h)))

normalise_again :
    (b : Bytes)
    → (normalise (normalise b lf) lf ≡ normalise b lf)
      × (normalise (normalise b crlf) crlf ≡ normalise b crlf)
normalise_again b =
    let u = cr_to_lf (crlf_to_lf b) in
    let h = is_unix-cr_to_lf (crlf_to_lf b) in
    let to_lf : normalise b lf ≡ u = unfold normalise in rw (equal_refl lf) in
    let to_crlf : normalise b crlf ≡ lf_to crlf u = unfold normalise equal in refl in
    (
      rw to_lf
          (unfold normalise in rw (equal_refl lf, crlf_to_lf-is_unix u h, cr_to_lf-is_unix u h)),
      rw to_crlf (normalise-submitted u h).1,
    )

-- Normalising twice is normalising once, whatever the text holds.
pub normalise_idem :
    (b src : Bytes)
    → normalise (normalise b (dominant_eol src)) (dominant_eol src) ≡ normalise b (dominant_eol src)
unfolding dominant_eol
normalise_idem b src = elim (Bool-cases (ltb (count_lf src - count_crlf src) (count_crlf src))) [
  | inl dos ↦ rw dos (normalise_again b).1
  | inr unix ↦ rw unix (normalise_again b).0
]
