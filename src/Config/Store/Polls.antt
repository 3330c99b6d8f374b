-- ===== src/Config/Store/Polls.antt =====
-- What is in force after the polls.
use hubbub.Common.{false, List, [], ◌∷◌, ◌++◌, ◌⊎◌, inl, inr, ◌≡◌, arith, Sum-cases}
use hubbub.Common.Bytes.{Bytes, codes, equal_refl}
use hubbub.Config.Store.{Reading, unreadable, content, Live, load_first, reload, Store}

-- What a file that is read is, if it parses.
abbrev pub take_up : {E A : Type 0} → (Bytes → E ⊎ A) → Reading → A → A
take_up parse (unreadable err) v = v
take_up parse (content src) v = elim (parse src) [ inl err ↦ v | inr w ↦ w ]

-- What the last reading that parses gives.
unfoldable pub last_good : {E A : Type 0} → (Bytes → E ⊎ A) → List Reading → A → A
last_good parse [] v = v
last_good parse (r ∷ rs) v = last_good parse rs (take_up parse r v)

-- The hash is that of a content that parses to what is in force.
pub record IsStamped {E A : Type 0} (digest : Bytes → Bytes) (parse : Bytes → E ⊎ A) (st : Live A)
    : Type 0 where
  pub source : Bytes
  pub parses : parse source ≡ inr st.value
  pub hashed : digest source ≡ st.hash

module _ {E A : Type 0} (digest : Bytes → Bytes) (parse : Bytes → E ⊎ A) where
  pub load_first-IsStamped :
      (r : Reading) (st : Live A) → load_first digest parse r ≡ inr st → IsStamped digest parse st
  unfolding load_first
  load_first-IsStamped (unreadable err) st h = ground (arith, h)
  load_first-IsStamped (content src) st h = elim (Sum-cases (parse src)) [
    | inl (err, e) ↦ ground (arith, h, e)
    | inr (v, e) ↦ record {
      source = src;
      parses = ground (arith, h, e);
      hashed = ground (arith, h, e);
    }
  ]

  -- Polling a file again, in which nothing has changed, changes nothing, swaps nothing and logs
  -- nothing, whether the file was taken, refused or not read.
  pub reload_again :
      (r : Reading) (st : Live A)
      → reload digest parse r (reload digest parse r st).live
        ≡ record { live = (reload digest parse r st).live; swapped = false; logged = false }
  unfolding reload
  reload_again (unreadable err) st = ground (arith, equal_refl (codes "unread:" ++ err))
  reload_again (content src) st = elim (Sum-cases (parse src)) [
    | inl (err, f) ↦ ground (arith, f, equal_refl (digest src))
    | inr (w, f) ↦ ground (arith, f, equal_refl (digest src))
  ]

-- The last set that was announced.
abbrev pub newest : {C : Type 0} → C → List C → C
newest c [] = c
newest c (d ∷ ds) = d
