-- ===== src/Config/Store.antt =====
-- internal/config/store.go: the keys and the channels in force, and their reload by polling. SHA-256
-- is a parameter, `digest`; what a file holds at a poll, or the error of reading it, is an argument.
-- `reloadKeys` and `reloadChannels` are one function here, of what `ParseKeys` or `ParseChannels` is.
pub mod Polls
use hubbub.Common.{ℕ, ◌+◌, Bool, true, false, List, [], ◌∷◌, ◌++◌, ◌⊎◌, inl, inr, if◌then◌else◌}
use hubbub.Common.Bytes.{Bytes, codes, equal}

-- `readHashed`, without the hash.
pub data Reading : Type 0 where
  unreadable : Bytes → Reading
  content : Bytes → Reading

-- What is in force, with the hash and the token that go with it.
pub record Live (A : Type 0) : Type 0 where
  pub value : A
  pub hash : Bytes
  pub err_token : Bytes

pub record Reloaded (A : Type 0) : Type 0 where
  pub live : Live A
  pub swapped : Bool
  pub logged : Bool

module _ {A : Type 0} where
  -- `logReloadFailure`.
  abbrev pub log_reload_failure : Live A → Bytes → Reloaded A
  log_reload_failure st token =
      if equal st.err_token token
      then record { live = st; swapped = false; logged = false }
      else record { live = record st { err_token = token }; swapped = false; logged = true }

module _ {E A : Type 0} (digest : Bytes → Bytes) (parse : Bytes → E ⊎ A) where
  -- `NewStore`, for one of the files.
  unfoldable pub load_first : Reading → Reading ⊎ Live A
  load_first (unreadable err) = inl (unreadable err)
  load_first (content src) = elim (parse src) [
    | inl err ↦ inl (content src)
    | inr v ↦ inr (record { value = v; hash = digest src; err_token = [] })
  ]

  -- `reloadKeys` and `reloadChannels`.
  unfoldable pub reload : Reading → Live A → Reloaded A
  reload (unreadable err) st = log_reload_failure st (codes "unread:" ++ err)
  reload (content src) st =
      if equal (digest src) st.hash
      then record { live = st; swapped = false; logged = false }
      else elim (parse src) [
        | inl err ↦ log_reload_failure st (digest src)
        | inr v ↦ record {
          live = record { value = v; hash = digest src; err_token = [] };
          swapped = true;
          logged = false;
        }
      ]

  -- The polls of one file, in order.
  unfoldable pub polls : List Reading → Live A → Live A
  polls [] st = st
  polls (r ∷ rs) st = polls rs (reload r st).live

-- `Store`, with the calls of `OnChannelsChange` so far.
pub record Store (K C : Type 0) : Type 0 where
  pub keys : Live K
  pub channels : Live C
  pub announced : List C

module _ {E F K C : Type 0} (digest : Bytes → Bytes) (parse_keys : Bytes → E ⊎ K)
    (parse_channels : Bytes → F ⊎ C) where
  -- `NewStore`.
  unfoldable pub new_store : Reading × Reading → Reading ⊎ Store K C
  new_store (k, c) = elim (load_first digest parse_keys k) [
    | inl r ↦ inl r
    | inr keys ↦ elim (load_first digest parse_channels c) [
      | inl r ↦ inl r
      | inr channels ↦ inr (record { keys = keys; channels = channels; announced = [] })
    ]
  ]

  -- `pollOnce`.
  unfoldable pub poll_once : Reading × Reading → Store K C → Store K C
  poll_once (k, c) st =
      let keys' = (reload digest parse_keys k st.keys).live in
      let r = reload digest parse_channels c st.channels in
      record {
        keys = keys';
        channels = r.live;
        announced = (if r.swapped then r.live.value ∷ st.announced else st.announced);
      }

  -- The watcher's polls, whatever wakes it.
  unfoldable pub watch : List (Reading × Reading) → Store K C → Store K C
  watch [] st = st
  watch (r ∷ rs) st = watch rs (poll_once r st)
