-- ===== src/Config/Keys.antt =====
-- internal/config/keys.go: the keys file. TOML decoding, and whether it left a key undecoded, are
-- parameters; `MaxPerHour` and `Defaults`, which nothing reads, are left out.
pub mod Owner
use hubbub.Common.{
  ℕ, Bool, true, false, not, ◌&&◌, ◌||◌, List, [], ◌∷◌, Option, none, some, ◌⊎◌, inl, inr,
  if◌then◌else◌, ltb, ◌==◌, length, map,
}
use hubbub.Common.Bytes.{Bytes, equal, mem}
use hubbub.Common.Assoc.{bytes_eq, lookup, insert}
use hubbub.Outbox.Spool.{sort_names}
use hubbub.Config.{valid_caller_id}

-- A decoded value of `key` or `url_token`.
pub data Element : Type 0 where
  text : Bytes → Element
  other : Element

pub data Any : Type 0 where
  single : Bytes → Any
  array : List Element → Any
  different : Any

abbrev texts : List Element → Option (List Bytes)
texts [] = some []
texts (text s ∷ es) = elim (texts es) [ none ↦ none | some ss ↦ some (s ∷ ss) ]
texts (other ∷ es) = none

-- `UnmarshalTOML`.
abbrev pub flex_strings : Any → Option (List Bytes)
flex_strings (single s) = some (s ∷ [])
flex_strings (array es) = texts es
flex_strings different = none

-- `callerTOML`; a channels list that is absent is `none`.
pub record CallerToml : Type 0 where
  pub key : List Bytes
  pub url_token : List Bytes
  pub channels : Option (List Bytes)
  pub recent : Bool

pub record Caller : Type 0 where
  pub id : Bytes
  pub keys : List Bytes
  pub channels : List Bytes
  pub recent : Bool
  pub url_tokens : List Bytes

abbrev pub Keyring : Type 0
Keyring = List (Bytes × Caller)

pub data KeysError : Type 0 where
  undecodable unknown_key bad_caller_id no_credential no_channels short_key shared_key : KeysError

abbrev pub min_key_len : ℕ
min_key_len = 16

-- The keys of one caller.
unfoldable pub add_keys : Caller → List Bytes → Keyring → KeysError ⊎ Keyring
add_keys c [] ring = inr ring
add_keys c (key ∷ ks) ring =
    let rest = add_keys c ks (insert key c ring) in
    if ltb (length key) min_key_len
    then inl short_key
    else elim (lookup key ring) [ some prev ↦ inl shared_key | none ↦ rest ]

abbrev pub caller_of : Bytes → List Bytes → CallerToml → Caller
caller_of id channels e = record {
  id = id;
  keys = e.key;
  channels = channels;
  recent = e.recent;
  url_tokens = e.url_token;
}

-- One caller.
unfoldable pub add_caller : Bytes → CallerToml → Keyring → KeysError ⊎ Keyring
add_caller id e ring = elim (valid_caller_id id) [
  | some err ↦ inl bad_caller_id
  | none ↦
      (if length e.key == 0 && length e.url_token == 0 then inl no_credential else elim e.channels [
        | none ↦ inl no_channels
        | some channels ↦ add_keys (caller_of id channels e) e.key ring
      ])
]

-- The callers, in the order in which Go ranges over the map.
unfoldable pub add_callers : List (Bytes × CallerToml) → Keyring → KeysError ⊎ Keyring
add_callers [] ring = inr ring
add_callers ((id, e) ∷ entries) ring = elim (add_caller id e ring) [
  | inl err ↦ inl err
  | inr next ↦ add_callers entries next
]

-- `ParseKeys`.
unfoldable pub parse_keys :
    (Bytes → Option (List (Bytes × CallerToml))) → (Bytes → Bool) → Bytes → KeysError ⊎ Keyring
parse_keys decode undecoded src = elim (decode src) [
  | none ↦ inl undecodable
  | some entries ↦ (if undecoded src then inl unknown_key else add_callers entries [])
]

-- `Permitted`.
abbrev pub permitted : Caller → Bytes → Bool
permitted c ch = mem ch c.channels

abbrev by_id : Keyring → List (Bytes × Caller) → List (Bytes × Caller)
by_id [] seen = seen
by_id ((key, c) ∷ ring) seen = by_id ring (insert c.id c seen)

abbrev in_order : List Bytes → List (Bytes × Caller) → List Caller
in_order [] seen = []
in_order (id ∷ more) seen = elim (lookup id seen) [
  | none ↦ in_order more seen
  | some c ↦ c ∷ in_order more seen
]

-- `Callers`.
unfoldable pub callers : Keyring → List Caller
callers ring =
    let seen = by_id ring [] in in_order (sort_names (map (λ (p : Bytes × Caller). p.0) seen)) seen
