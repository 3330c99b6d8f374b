-- ===== src/Config/Ids.antt =====
-- Names in paths and in files: what the checks of internal/config and internal/outbox ask of them.
use hubbub.Common.{
  ℕ, ◌≤◌, Bool, true, false, [], ◌∷◌, none, ◌≡◌, ◌≢◌, ◌↔◌, refl, arith, ◌==◌, length, all, count_if,
  Bool-cases, inl, inr,
}
use hubbub.Common.Bytes.{Bytes, codes, equal_iff}
use hubbub.Config.{
  is_channel_char, is_caller_char, valid_channel_id, valid_caller_id, safe_spool_name,
}

-- The configuration admits exactly the channel ids that the engine takes as a directory name.
pub valid_channel_id-safe_spool_name :
    (id : Bytes) → (valid_channel_id id ≡ none) ↔ (safe_spool_name id ≡ true)
unfolding valid_channel_id safe_spool_name
valid_channel_id-safe_spool_name id = (λ h. ground (arith, h), λ h. ground (arith, h))

absent-byte :
    (c : ℕ) (ok : ℕ → Bool) (id : Bytes)
    → ok c ≡ false
    → all ok id ≡ true
    → count_if (λ r. r == c) id ≡ 0
absent-byte c ok [] n h = refl
absent-byte c ok (r ∷ rs) n h = elim (Bool-cases (r == c)) [
  | inl e ↦ absurd (ground (arith, n, h))
  | inr e ↦ ground (arith, absent-byte c ok rs n)
]

-- A name that the engine takes is one component of a path: it has no `/`, is neither empty nor `.`
-- nor `..`, and has at most 64 bytes.
pub safe_spool_name-component :
    (id : Bytes)
    → safe_spool_name id ≡ true
    → (count_if (λ r. r == b'/') id ≡ 0)
      × (id ≢ [])
      × (id ≢ codes ".")
      × (id ≢ codes "..")
      × (length id ≤ 64)
unfolding safe_spool_name
safe_spool_name-component id h = (
  absent-byte b'/' is_channel_char id refl (ground (arith, h)),
  λ e. ground (arith, h, equal_iff id []),
  λ e. ground (arith, h, equal_iff id (codes ".")),
  λ e. ground (arith, h, equal_iff id (codes "..")),
  ground (arith, h),
)

-- A caller id that is accepted holds no line break and no bracket, so writing it between brackets on
-- a line of its own writes one table header; and it is never empty.
pub valid_caller_id-line :
    (id : Bytes)
    → valid_caller_id id ≡ none
    → (count_if (λ r. r == b'\n') id ≡ 0) × (count_if (λ r. r == b']') id ≡ 0) × (id ≢ [])
unfolding valid_caller_id
valid_caller_id-line id h =
    let ok : all is_caller_char id ≡ true = ground (arith, h) in
    (
      absent-byte b'\n' is_caller_char id refl ok,
      absent-byte b']' is_caller_char id refl ok,
      λ e. ground (arith, h, equal_iff id []),
    )
