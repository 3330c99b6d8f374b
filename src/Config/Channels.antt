-- ===== src/Config/Channels.antt =====
-- internal/config/channels.go, with the table of adapter types of internal/adapter/adapter.go. What
-- the TOML package makes of a file is a parameter, and so are the factories of the adapters; the
-- blocks of a file are listed in the order in which Go ranges over them.
pub mod Sound
use hubbub.Common.{
  ℕ, Bool, true, false, not, ◌&&◌, ◌||◌, List, [], ◌∷◌, Option, none, some, ◌⊎◌, inl, inr,
  if◌then◌else◌, select, map,
}
use hubbub.Common.Bytes.{Bytes, equal, mem}
use hubbub.Common.Assoc.{bytes_eq, lookup, insert}
use hubbub.Outbox.Spool.{sort_names}
use hubbub.Config.{valid_channel_id}

-- `channelEnvelope`.
pub record Envelope : Type 0 where
  pub type : Bytes
  pub enabled : Option Bool

pub record Channel (A : Type 0) : Type 0 where
  pub id : Bytes
  pub type : Bytes
  pub enabled : Bool
  pub adapter : Option A

abbrev pub ChannelSet : Type 0 → Type 0
ChannelSet A = List (Bytes × Channel A)

pub data ChannelsError : Type 0 where
  undecodable bad_channel_id bad_block missing_type unknown_type bad_settings unknown_key :
      ChannelsError

-- What a file decodes to: its blocks, whose decoding is deferred, and whether decoding them leaves a
-- key over.
pub record TomlFile (Prim : Type 0) : Type 0 where
  pub decode : Bytes → Option (List (Bytes × Prim))
  pub envelope : Prim → Option Envelope
  pub decodes_parked : Prim → Bool
  pub undecoded : Bytes → Bool

-- `registry`.
abbrev pub Factories : Type 0 → Type 0 → Type 0
Factories Prim A = List (Bytes × (Bytes → Prim → Option A))

abbrev pub is_enabled : Option Bool → Bool
is_enabled none = true
is_enabled (some b) = b

module _ {Prim A : Type 0} where
  abbrev pub known : Factories Prim A → Bytes → Bool
  known fs type = elim (lookup type fs) [ none ↦ false | some f ↦ true ]

  -- `adapter.New`.
  abbrev pub new_adapter : Factories Prim A → Bytes → Bytes → Prim → Option A
  new_adapter fs type id prim = elim (lookup type fs) [ none ↦ none | some f ↦ f id prim ]

  -- A block whose type and flag are known.
  unfoldable pub build_channel :
      Factories Prim A → (Prim → Bool) → Bytes → Prim → Envelope → ChannelsError ⊎ Channel A
  build_channel fs decodes_parked id prim env =
      if equal env.type []
      then inl missing_type
      else if not (is_enabled env.enabled)
      then (if not (known fs env.type)
          then inl unknown_type
          else if not (decodes_parked prim)
          then inl bad_block
          else inr (record { id = id; type = env.type; enabled = false; adapter = none }))
      else elim (new_adapter fs env.type id prim) [
        | none ↦ inl bad_settings
        | some a ↦ inr (record { id = id; type = env.type; enabled = true; adapter = some a })
      ]

  -- One block.
  unfoldable pub parse_block :
      TomlFile Prim → Factories Prim A → Bytes → Prim → ChannelsError ⊎ Channel A
  parse_block toml fs id prim = elim (valid_channel_id id) [
    | some err ↦ inl bad_channel_id
    | none ↦ elim (toml.envelope prim) [
      | none ↦ inl bad_block
      | some env ↦ build_channel fs toml.decodes_parked id prim env
    ]
  ]

  unfoldable pub add_blocks :
      TomlFile Prim
      → Factories Prim A
      → List (Bytes × Prim)
      → ChannelSet A
      → ChannelsError ⊎ ChannelSet A
  add_blocks toml fs [] chs = inr chs
  add_blocks toml fs ((id, prim) ∷ entries) chs = elim (parse_block toml fs id prim) [
    | inl err ↦ inl err
    | inr ch ↦ add_blocks toml fs entries (insert id ch chs)
  ]

  -- `ParseChannels`.
  unfoldable pub parse_channels :
      TomlFile Prim → Factories Prim A → Bytes → ChannelsError ⊎ ChannelSet A
  parse_channels toml fs src = elim (toml.decode src) [
    | none ↦ inl undecodable
    | some entries ↦ elim (add_blocks toml fs entries []) [
      | inl err ↦ inl err
      | inr chs ↦ (if toml.undecoded src then inl unknown_key else inr chs)
    ]
  ]

module _ {A : Type 0} where
  -- `Get`, `IDs`, `All` and `Enabled`.
  abbrev pub get : ChannelSet A → Bytes → Option (Channel A)
  get chs id = lookup id chs

  unfoldable pub ids : ChannelSet A → List Bytes
  ids chs = sort_names (map (λ (p : Bytes × Channel A). p.0) chs)

  abbrev listed : ChannelSet A → List Bytes → List (Channel A)
  listed chs [] = []
  listed chs (id ∷ more) = elim (lookup id chs) [
    | none ↦ listed chs more
    | some ch ↦ ch ∷ listed chs more
  ]

  unfoldable pub all_channels : ChannelSet A → List (Channel A)
  all_channels chs = listed chs (ids chs)

  unfoldable pub enabled_channels : ChannelSet A → List (Channel A)
  enabled_channels chs = select (λ (ch : Channel A). ch.enabled) (listed chs (ids chs))

module _ {Prim : Type 0} where
  unfoldable pub types_of :
      TomlFile Prim → List (Bytes × Prim) → List (Bytes × Bytes) → Option (List (Bytes × Bytes))
  types_of toml [] types = some types
  types_of toml ((id, prim) ∷ entries) types = elim (toml.envelope prim) [
    | none ↦ none
    | some env ↦ types_of toml entries (insert id env.type types)
  ]

  -- `DeclaredTypes`.
  unfoldable pub declared_types : TomlFile Prim → Bytes → Option (List (Bytes × Bytes))
  declared_types toml src = elim (toml.decode src) [
    | none ↦ none
    | some entries ↦ types_of toml entries []
  ]
