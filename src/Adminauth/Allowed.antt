-- ===== src/Adminauth/Allowed.antt =====
-- Who gets past the guard of the administration pages.
use hubbub.Common.{
  Bool, true, not, ◌&&◌, List, [], ◌∷◌, inl, inr, none, some, ◌≡◌, ◌≢◌, ◌↔◌, refl, arith, any,
  Bool-cases, Option-cases,
}
use hubbub.Common.Bytes.{Bytes, equal, mem}
use hubbub.Adminauth.{
  Identity, Provider, Guard, served, normal, allow_set, guard_over, new_guard, permits, identity,
  protect,
}

module _ (to_lower : Bytes → Bytes) where
  -- An entry of the allowlist that is not blank is the address, up to case and white space.
  abbrev pub names : Bytes → Bytes → Bool
  names email a =
      not (equal (normal to_lower a) []) && equal (normal to_lower email) (normal to_lower a)

  mem-allow_set :
      (email : Bytes) (allowed : List Bytes)
      → mem (normal to_lower email) (allow_set to_lower allowed) ≡ any (names email) allowed
  unfolding mem allow_set
  mem-allow_set email [] = refl
  mem-allow_set email (a ∷ more) = elim (Bool-cases (equal (normal to_lower a) [])) [
    | inl e ↦ ground (arith, e, mem-allow_set email more)
    | inr e ↦ ground (arith, e, mem-allow_set email more)
  ]

  made :
      {R : Type 0}
      → (p : Provider R) (l : List Bytes) (g : Guard R) → guard_over to_lower p l ≡ inr g
      → (g.provider ≡ p) × (g.allowed ≡ l)
  made p [] g h = ground (arith, h)
  made p (a ∷ more) g h = (ground (arith, h), ground (arith, h))

  protect-anonymous :
      {R : Type 0}
      → (g : Guard R) (r : R) (path : Bytes) → g.provider.identify r ≡ none
      → protect to_lower g r path ≢ served
  unfolding protect identity
  protect-anonymous g r path e = elim (Bool-cases (equal (g.provider.login_url path) [])) [
    | inl f ↦ λ h. ground (arith, e, f, h)
    | inr f ↦ λ h. ground (arith, e, f, h)
  ]

  protect-identified :
      {R : Type 0}
      → (g : Guard R) (r : R) (path : Bytes) (id : Identity) → g.provider.identify r ≡ some id
      → (protect to_lower g r path ≡ served) ↔ (permits to_lower g id.email ≡ true)
  unfolding protect identity
  protect-identified g r path id e = elim (Bool-cases (permits to_lower g id.email)) [
    | inl f ↦ (λ h. f, λ h. rw (protect, identity, e, f) refl)
    | inr f ↦ (λ h. absurd (ground (arith, e, f, h)), λ h. absurd (ground (arith, f, h)))
  ]

  -- A request reaches the pages behind `Protect` of a new guard exactly if the provider identifies
  -- it and an entry of the allowlist that is not blank is the address of that identity, up to case
  -- and white space.
  pub protect-served :
      {R : Type 0}
      → (p : Provider R) (emails : List Bytes) (g : Guard R) (r : R) (path : Bytes)
      → new_guard to_lower (some p) emails ≡ inr g
      → (protect to_lower g r path ≡ served)
        ↔ ((id : Identity) × (p.identify r ≡ some id) × (any (names id.email) emails ≡ true))
  unfolding new_guard permits
  protect-served p emails g r path h =
      let (same, set) : (g.provider ≡ p) × (g.allowed ≡ allow_set to_lower emails) =
        made p (allow_set to_lower emails) g h in
      elim (Option-cases (p.identify r)) [
        | inl e ↦ (
          λ k. absurd (protect-anonymous g r path (rw same e) k),
          λ (id, f, k). absurd (ground (arith, e, f)),
        )
        | inr (id, e) ↦ (
          λ k. (
            id,
            e,
            cc (
              mem-allow_set id.email emails,
              set,
              (protect-identified g r path id (rw same e)).0 k,
            ),
          ),
          λ (id', f, k).
              (protect-identified g r path id' (rw same f)).1
                (cc (mem-allow_set id'.email emails, set, k)),
        )
      ]
