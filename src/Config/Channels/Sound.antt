-- ===== src/Config/Channels/Sound.antt =====
-- What a channels file that is taken holds.
use hubbub.Common.{
  Bool, true, not, ◌&&◌, List, [], ◌∷◌, Option, none, some, inl, inr, ◌≡◌, refl, arith, all,
  Sum-cases, Option-cases,
}
use hubbub.Common.Bytes.{Bytes, equal, equal_refl}
use hubbub.Common.Assoc.{bytes_eq, lookup, insert, remove, lookup-insert}
use hubbub.Config.{valid_channel_id, safe_spool_name}
use hubbub.Config.Ids.{valid_channel_id-safe_spool_name}
use hubbub.Config.Channels.{
  Envelope, Channel, ChannelSet, TomlFile, Factories, new_adapter, build_channel, parse_block,
  add_blocks, parse_channels, types_of, declared_types,
}

-- A channel under its own id, which is fit for a directory, and with an adapter exactly if it is
-- enabled.
abbrev pub is_sound : {A : Type 0} → Bytes × Channel A → Bool
is_sound (id, ch) =
    equal ch.id id
    && safe_spool_name id
    && (elim ch.adapter [ none ↦ not ch.enabled | some a ↦ ch.enabled ])

all-remove :
    {A : Type 0} (p : Bytes × Channel A → Bool) (id : Bytes) (chs : ChannelSet A)
    → all p chs ≡ true
    → all p (remove id chs) ≡ true
unfolding remove
all-remove p id [] h = refl
all-remove p id ((j, ch) ∷ chs) h = ground (arith, h, all-remove p id chs)

abbrev type_at : {A : Type 0} → Bytes → ChannelSet A → Option Bytes
type_at id chs = elim (lookup id chs) [ none ↦ none | some ch ↦ some ch.type ]

module _ {Prim A : Type 0} where
  parse_block-is_sound :
      (toml : TomlFile Prim) (fs : Factories Prim A) (id : Bytes) (prim : Prim) (ch : Channel A)
      → parse_block toml fs id prim ≡ inr ch
      → is_sound (id, ch) ≡ true
  unfolding parse_block build_channel
  parse_block-is_sound toml fs id prim ch h = elim (Option-cases (toml.envelope prim)) [
    | inl e ↦ ground (arith, h, e, Option-cases (valid_channel_id id))
    | inr (env, e) ↦ ground (
      arith,
      h,
      e,
      Option-cases (valid_channel_id id),
      Option-cases (new_adapter fs env.type id prim),
      equal_refl id,
      valid_channel_id-safe_spool_name id,
    )
  ]

  -- The type that the file declares.
  parse_block-type :
      (toml : TomlFile Prim) (fs : Factories Prim A) (id : Bytes) (prim : Prim) (ch : Channel A)
      → parse_block toml fs id prim ≡ inr ch
      → (env : Envelope) × (toml.envelope prim ≡ some env) × (env.type ≡ ch.type)
  unfolding parse_block build_channel
  parse_block-type toml fs id prim ch h = elim (Option-cases (toml.envelope prim)) [
    | inl e ↦ ground (arith, h, e, Option-cases (valid_channel_id id))
    | inr (env, e) ↦ (
      env,
      e,
      ground (
        arith,
        h,
        e,
        Option-cases (valid_channel_id id),
        Option-cases (new_adapter fs env.type id prim),
      ),
    )
  ]

  add_blocks-is_sound :
      (toml : TomlFile Prim) (fs : Factories Prim A) (entries : List (Bytes × Prim))
      (chs next : ChannelSet A)
      → all is_sound chs ≡ true
      → add_blocks toml fs entries chs ≡ inr next
      → all is_sound next ≡ true
  unfolding add_blocks insert
  add_blocks-is_sound toml fs [] chs next a h = ground (arith, a, h)
  add_blocks-is_sound toml fs ((id, prim) ∷ entries) chs next a h =
      elim (Sum-cases (parse_block toml fs id prim)) [
        | inl (err, e) ↦ ground (arith, h, e)
        | inr (ch, e) ↦
            add_blocks-is_sound toml fs entries (insert id ch chs) next
              (ground
                (arith, parse_block-is_sound toml fs id prim ch e, all-remove is_sound id chs a))
              (ground (arith, h, e))
      ]

  add_blocks-types_of :
      (toml : TomlFile Prim) (fs : Factories Prim A) (entries : List (Bytes × Prim))
      (chs next : ChannelSet A) (types : List (Bytes × Bytes))
      → ((id : Bytes) → type_at id chs ≡ lookup id types)
      → add_blocks toml fs entries chs ≡ inr next
      → (found : List (Bytes × Bytes)) × (types_of toml entries types ≡ some found)
        × ((id : Bytes) → type_at id next ≡ lookup id found)
  unfolding add_blocks types_of
  add_blocks-types_of toml fs [] chs next types a h = (types, refl, λ id. ground (arith, h, a id))
  add_blocks-types_of toml fs ((id, prim) ∷ entries) chs next types a h =
      elim (Sum-cases (parse_block toml fs id prim)) [
        | inl (err, e) ↦ ground (arith, h, e)
        | inr (ch, e) ↦
            let (env, f, t) = parse_block-type toml fs id prim ch e in
            let (found, g, m) =
              add_blocks-types_of toml fs entries (insert id ch chs) next (insert id env.type types)
                (λ j.
                  ground
                    (arith, a j, t, lookup-insert j id ch chs, lookup-insert j id env.type types))
                (ground (arith, h, e)) in
            (found, ground (arith, f, g), m)
      ]

  -- In a channels file that is taken, every channel stands under its own id, which the engine takes
  -- as the name of a spool directory, and it has an adapter exactly if it is enabled.
  pub parse_channels-is_sound :
      (toml : TomlFile Prim) (fs : Factories Prim A) (src : Bytes) (chs : ChannelSet A)
      → parse_channels toml fs src ≡ inr chs
      → all is_sound chs ≡ true
  unfolding parse_channels
  parse_channels-is_sound toml fs src chs h = elim (Option-cases (toml.decode src)) [
    | inl d ↦ ground (arith, h, d)
    | inr (entries, d) ↦ elim (Sum-cases (add_blocks toml fs entries [])) [
      | inl (err, e) ↦ ground (arith, h, d, e)
      | inr (next, e) ↦ add_blocks-is_sound toml fs entries [] chs refl (ground (arith, h, d, e))
    ]
  ]

  -- DeclaredTypes of a channels file that is taken succeeds, and gives each channel of the file the
  -- type that it was parsed with, and no type to any other id.
  pub declared_types-parse_channels :
      (toml : TomlFile Prim) (fs : Factories Prim A) (src : Bytes) (chs : ChannelSet A)
      → parse_channels toml fs src ≡ inr chs
      → (types : List (Bytes × Bytes)) × (declared_types toml src ≡ some types)
        × ((id : Bytes)
            → (elim (lookup id chs) [ none ↦ none | some ch ↦ some ch.type ]) ≡ lookup id types)
  unfolding parse_channels declared_types
  declared_types-parse_channels toml fs src chs h = elim (Option-cases (toml.decode src)) [
    | inl d ↦ ground (arith, h, d)
    | inr (entries, d) ↦ elim (Sum-cases (add_blocks toml fs entries [])) [
      | inl (err, e) ↦ ground (arith, h, d, e)
      | inr (next, e) ↦
          let (found, g, m) =
            add_blocks-types_of toml fs entries [] chs [] (λ id. unfold lookup in refl)
              (ground (arith, h, d, e)) in
          (found, ground (arith, d, g), m)
    ]
  ]
