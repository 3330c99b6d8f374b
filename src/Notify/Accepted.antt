-- ===== src/Notify/Accepted.antt =====
-- What the sanitisers and `Validate` let through (internal/notify/notify.go).
use hubbub.Common.{
  ℕ, ◌≤◌, Bool, true, false, not, ◌&&◌, ◌||◌, List, [], ◌∷◌, none, ◌≡◌, ◌↔◌, refl, arith, ◌==◌, ltb,
  leb, length, select, all, any,
}
use hubbub.Common.Bytes.{Bytes}
use hubbub.Notify.{Notification, is_control, is_white, strip_control, byte_len, validate}

abbrev pub may_stay : Bool → ℕ → Bool
may_stay keep r = (keep && (r == b'\n' || r == b'\t')) || not (is_control r)

all-select : (p : ℕ → Bool) (s : Bytes) → all p (select p s) ≡ true
all-select p [] = refl
all-select p (r ∷ rs) = ground (arith, all-select p rs)

select-all : (p : ℕ → Bool) (s : Bytes) → all p s ≡ true → select p s ≡ s
select-all p [] h = refl
select-all p (r ∷ rs) h = ground (arith, select-all p rs)

-- The sanitised text holds no control character but, where these are kept, newlines and tabs; a
-- text that holds no other is left as it is, so sanitising twice is sanitising once.
pub strip_control_lem :
    (keep : Bool) (s : Bytes)
    → (all (may_stay keep) (strip_control keep s) ≡ true)
      × (strip_control keep (strip_control keep s) ≡ strip_control keep s)
unfolding strip_control
strip_control_lem keep s = (
  all-select (may_stay keep) s,
  select-all (may_stay keep) (select (may_stay keep) s) (all-select (may_stay keep) s),
)

any-all-short :
    (ts : List Bytes) → any (λ t. ltb 64 (byte_len t)) ts ≡ not (all (λ t. leb (byte_len t) 64) ts)
any-all-short [] = refl
any-all-short (t ∷ ts) = ground (arith, any-all-short ts)

-- `Validate` accepts exactly the notifications with a title and a message that are not blank, a
-- title of at most 256 bytes, a message of at most 4096, an HTML body of at most 131072, and at most
-- 16 tags of at most 64 bytes each.
pub validate_iff :
    (n : Notification)
    → (validate n ≡ none) ↔ (
        (all is_white n.title ≡ false)
        × (all is_white n.message ≡ false)
        × (byte_len n.title ≤ 256)
        × (byte_len n.message ≤ 4096)
        × (byte_len n.html ≤ 131072)
        × (length n.tags ≤ 16)
        × (all (λ t. leb (byte_len t) 64) n.tags ≡ true))
unfolding validate
validate_iff n =
    (λ h. ground (arith, h, any-all-short n.tags), λ h. ground (arith, h, any-all-short n.tags))
