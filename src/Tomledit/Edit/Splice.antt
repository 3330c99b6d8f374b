-- ===== src/Tomledit/Edit/Splice.antt =====
-- Reading a body or a block and saving it again (internal/tomledit/tomledit.go).
use hubbub.Common.{
  ℕ, zero, suc, ◌+◌, ◌-◌, ◌≤◌, Bool, true, not, [], ◌∷◌, Option, ◌≡◌, refl, arith, ap, sym, ◌∙◌,
  ◌==◌, all, take, drop, slice, take-append-drop, drop-drop,
}
use hubbub.Common.Bytes.{Bytes, equal_refl}
use hubbub.Tomledit.Span.{ok, span, body_span}
use hubbub.Tomledit.Span.Bounds.{span_bounds, body_span_bounds, bind-eq-ok}
use hubbub.Tomledit.Edit.{
  lf, count_crlf, dominant_eol, normalise, splice, block, body, replace_body, replace_block,
}
use hubbub.Tomledit.Edit.Eol.{is_unix, crlf_to_lf-is_unix, cr_to_lf-is_unix}

count_crlf-is_unix : (src : Bytes) → is_unix src ≡ true → count_crlf src ≡ 0
unfolding count_crlf
count_crlf-is_unix [] h = refl
count_crlf-is_unix (c ∷ []) h = refl
count_crlf-is_unix (c ∷ d ∷ cs) h = ground (arith, count_crlf-is_unix (d ∷ cs))

dominant_eol-is_unix : (src : Bytes) → is_unix src ≡ true → dominant_eol src ≡ lf
unfolding dominant_eol
dominant_eol-is_unix src h = rw (count_crlf-is_unix src h) (ground arith)

all-drop : (p : ℕ → Bool) (n : ℕ) (xs : Bytes) → all p xs ≡ true → all p (drop n xs) ≡ true
all-drop p zero xs h = h
all-drop p (suc n) [] h = h
all-drop p (suc n) (x ∷ xs) h = ground (arith, all-drop p n xs)

all-take : (p : ℕ → Bool) (n : ℕ) (xs : Bytes) → all p xs ≡ true → all p (take n xs) ≡ true
all-take p zero xs h = refl
all-take p (suc n) [] h = h
all-take p (suc n) (x ∷ xs) h = ground (arith, all-take p n xs)

-- Text of a file without carriage returns is normal for it.
normalise-slice :
    (i j : ℕ) (src : Bytes)
    → is_unix src ≡ true
    → normalise (slice i j src) (dominant_eol src) ≡ slice i j src
unfolding normalise
normalise-slice i j src h =
    let u : is_unix (slice i j src) ≡ true =
      all-take (λ c. not (c == b'\r')) (j - i) (drop i src)
        (all-drop (λ c. not (c == b'\r')) i src h) in
    rw (dominant_eol-is_unix src h, equal_refl lf, crlf_to_lf-is_unix (slice i j src) u)
      (cr_to_lf-is_unix (slice i j src) u)

splice-slice : (src : Bytes) (i j : ℕ) → i ≤ j → splice src i j (slice i j src) ≡ src
unfolding splice
splice-slice src i j h =
    let e : i + (j - i) ≡ j = omega arith in
    let tail : drop j src ≡ drop (j - i) (drop i src) =
      ap (λ k. drop k src) (sym e) ∙ sym (drop-drop (j - i) i src) in
    rw (tail, take-append-drop (j - i) (drop i src)) (take-append-drop i src)

module _ (unquote : Bytes → Option Bytes) (src id : Bytes) (h : is_unix src ≡ true) where
  -- In a file without carriage returns, replacing the body of a table by the body that was read
  -- from the file gives the file.
  pub replace_body-body :
      {b : Bytes} → body unquote src id ≡ ok b → replace_body unquote src id b ≡ ok src
  unfolding body replace_body
  replace_body-body {b} e =
      let ((i, j), s, f) = bind-eq-ok (body_span unquote src id) _ e in
      let (a, z, q, l1, l2, l3, l4) = body_span_bounds unquote src id {s = i} {e = j} s in
      let same : slice i j src ≡ b = ground arith in
      rw (s, ← same, normalise-slice i j src h, splice-slice src i j l2) refl

  -- In a file without carriage returns, replacing the block of a table by the block that was read
  -- from the file gives the file.
  pub replace_block-block :
      {b : Bytes} → block unquote src id ≡ ok b → replace_block unquote src id b ≡ ok src
  unfolding block replace_block
  replace_block-block {b} e =
      let ((i, j), s, f) = bind-eq-ok (span unquote src id) _ e in
      let (k, b1, b2, b3, b4, b5, b6, b7) = span_bounds unquote src id {s = i} {e = j} s in
      let same : slice i j src ≡ b = ground arith in
      rw (s, ← same, normalise-slice i j src h, splice-slice src i j (omega (arith, b4, b5, b6)))
        refl
