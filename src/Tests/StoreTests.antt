-- ===== src/Tests/StoreTests.antt =====
-- The configuration files and their reload at concrete inputs.
use hubbub.Common.{
  ℕ, ◌≤◌, true, false, List, [], ◌∷◌, Option, none, some, ◌⊎◌, inl, inr, ◌≡◌, refl, if◌then◌else◌,
  leb, length, all, map,
}
use hubbub.Common.Bytes.{Bytes, codes, equal}
use hubbub.Common.Assoc.{bytes_eq, lookup, insert, remove}
use hubbub.Config.{valid_caller_id, valid_channel_id}
use hubbub.Config.Keys.{
  CallerToml, Caller, shared_key, add_keys, add_caller, add_callers, parse_keys,
}
use hubbub.Config.Keys.Owner.{owner, listed, parse_keys-owner}
use hubbub.Config.Channels.{
  ChannelSet, TomlFile, Factories, build_channel, parse_block, add_blocks, parse_channels,
}
use hubbub.Config.Channels.Sound.{is_sound, parse_channels-is_sound}
use hubbub.Config.Store.{Reading, unreadable, content, Live, Store}
use hubbub.Config.Store.Polls.{last_good}

abbrev cron_key : Bytes
cron_key = codes "0123456789abcdef"

abbrev cron_entry : CallerToml
cron_entry = record {
  key = cron_key ∷ [];
  url_token = [];
  channels = some (codes "ops" ∷ []);
  recent = true;
}

abbrev decode_keys : Bytes → Option (List (Bytes × CallerToml))
decode_keys src = if equal src (codes "x") then none else some ((codes "cron", cron_entry) ∷ [])

abbrev cron : Caller
cron = record {
  id = codes "cron";
  keys = cron_key ∷ [];
  channels = codes "ops" ∷ [];
  recent = true;
  url_tokens = [];
}

cron_parses : parse_keys decode_keys (λ s. false) (codes "k") ≡ inr ((cron_key, cron) ∷ [])
unfolding parse_keys add_callers add_caller add_keys valid_caller_id lookup insert remove equal
cron_parses = refl

-- Two callers may not have one key.
twice_refused :
    parse_keys
      (λ s. some ((codes "a", cron_entry) ∷ (codes "b", cron_entry) ∷ []))
      (λ s. false)
      (codes "k")
    ≡ inl shared_key
unfolding parse_keys add_callers add_caller add_keys valid_caller_id lookup insert remove equal
twice_refused = refl

parse_keys-owner_example :
    (lookup cron_key ((cron_key, cron) ∷ []) ≡ owner cron_key ((codes "cron", cron_entry) ∷ []))
    × (listed cron_key ((codes "cron", cron_entry) ∷ []) ≤ 1)
    × (listed cron_key ((codes "cron", cron_entry) ∷ []) ≡ 0 ⊎ leb 16 (length cron_key) ≡ true)
unfolding equal
parse_keys-owner_example =
    parse_keys-owner decode_keys (λ s. false) (codes "k") ((codes "cron", cron_entry) ∷ [])
      ((cron_key, cron) ∷ []) cron_key refl cron_parses

-- A block of a channels file is its type here.
abbrev plain_file : TomlFile Bytes
plain_file = record {
  decode = λ src. some ((codes "ops", codes "ntfy") ∷ []);
  envelope = λ type. some (record { type = type; enabled = none });
  decodes_parked = λ type. true;
  undecoded = λ src. false;
}

abbrev ntfy_only : Factories Bytes ℕ
ntfy_only = (codes "ntfy", λ id prim. some 1) ∷ []

abbrev ops_set : ChannelSet ℕ
ops_set =
    (
      codes "ops",
      record { id = codes "ops"; type = codes "ntfy"; enabled = true; adapter = some 1 },
    )
    ∷ []

ops_parses : parse_channels plain_file ntfy_only (codes "c") ≡ inr ops_set
unfolding parse_channels add_blocks parse_block build_channel valid_channel_id lookup insert remove
    equal
ops_parses = refl

parse_channels-is_sound_example : all is_sound ops_set ≡ true
parse_channels-is_sound_example =
    parse_channels-is_sound plain_file ntfy_only (codes "c") ops_set ops_parses

-- A file that parses unless it is empty, to its content.
abbrev parse_plain : Bytes → Bytes ⊎ Bytes
parse_plain [] = inl (codes "empty")
parse_plain (c ∷ cs) = inr (c ∷ cs)

abbrev loaded : Bytes → Live Bytes
loaded v = record { value = v; hash = v; err_token = [] }

abbrev first_store : Store Bytes Bytes
first_store = record { keys = loaded (codes "k"); channels = loaded (codes "c"); announced = [] }

-- The keys file is emptied and then unreadable; the channels file is emptied and then changed.
abbrev two_polls : List (Reading × Reading)
two_polls = (content [], content []) ∷ (unreadable (codes "EIO"), content (codes "d")) ∷ []

keys_kept :
    last_good parse_plain (map (λ (r : Reading × Reading). r.0) two_polls) (codes "k") ≡ codes "k"
unfolding last_good
keys_kept = refl
