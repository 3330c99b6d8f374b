-- ===== src/Config/Keys/Owner.antt =====
-- Who a key belongs to.
use hubbub.Common.{
  ℕ, ◌+◌, ◌≤◌, Bool, true, false, List, [], ◌∷◌, Option, none, some, ◌⊎◌, inl, inr, ◌≡◌, sym, ap,
  ◌∙◌, arith, if◌then◌else◌, ltb, leb, length, all, count_if, Bool-cases, Sum-cases, Option-cases,
}
use hubbub.Common.Bytes.{Bytes, equal, equal_iff, mem, mem-count_if}
use hubbub.Common.Assoc.{bytes_eq, lookup, insert, lookup-insert}
use hubbub.Outbox.Spool.Order.{all-mem}
use hubbub.Config.{valid_caller_id}
use hubbub.Config.Keys.{
  CallerToml, Caller, Keyring, min_key_len, caller_of, add_keys, add_caller, add_callers,
  parse_keys,
}

-- The caller of the first entry that lists a key, with what that entry grants.
unfoldable pub owner : Bytes → List (Bytes × CallerToml) → Option Caller
owner k [] = none
owner k ((id, e) ∷ entries) =
    if mem k e.key
    then (elim e.channels [
      | none ↦ none
      | some channels ↦ some (record {
        id = id;
        keys = e.key;
        channels = channels;
        recent = e.recent;
        url_tokens = e.url_token;
      })
    ])
    else owner k entries

-- How often the entries list a key.
unfoldable pub listed : Bytes → List (Bytes × CallerToml) → ℕ
listed k [] = 0
listed k ((id, e) ∷ entries) = count_if (equal k) e.key + listed k entries

-- What adding the keys of a caller does to one key.
add_keys-lookup :
    (c : Caller) (ks : List Bytes) (ring next : Keyring) (k : Bytes)
    → add_keys c ks ring ≡ inr next
    → (lookup k next ≡ (if mem k ks then some c else lookup k ring))
      × (count_if (equal k) ks ≤ 1)
      × (lookup k ring ≡ none ⊎ mem k ks ≡ false)
      × (all (λ key. leb min_key_len (length key)) ks ≡ true)
unfolding add_keys mem
add_keys-lookup c [] ring next k h = ground (arith, h)
add_keys-lookup c (key ∷ ks) ring next k h =
    let short : ltb (length key) min_key_len ≡ false = ground (arith, h) in
    let new : lookup key ring ≡ none = ground (arith, h, Option-cases (lookup key ring)) in
    let (l, n, m, a) =
      add_keys-lookup c ks (insert key c ring) next k (ground (arith, h, short, new)) in
    let i : lookup k (insert key c ring) ≡ (if equal key k then some c else lookup k ring) =
      lookup-insert k key c ring in
    let q = mem-count_if k ks in
    elim (Bool-cases (equal k key)) [
      | inl e ↦
          let same : k ≡ key = (equal_iff k key).0 e in
          let there : equal key k ≡ true = (equal_iff key k).1 (sym same) in
          let free : lookup k ring ≡ none = ap (λ j. lookup j ring) same ∙ new in
          (
            ground (arith, e, l, i, there),
            ground (arith, e, i, there, m, q),
            inl free,
            ground (arith, short, a),
          )
      | inr e ↦
          let away : equal key k ≡ false = ground (arith, e, equal_iff k key, equal_iff key k) in
          (
            ground (arith, e, l, i, away),
            ground (arith, e, n),
            ground (arith, e, i, away, m),
            ground (arith, short, a),
          )
    ]

-- What adding a caller does to one key, and what it takes.
record Adds (id : Bytes) (e : CallerToml) (ring next : Keyring) (k : Bytes) : Type 0 where
  channels : List Bytes
  given : e.channels ≡ some channels
  found : lookup k next ≡ (if mem k e.key then some (caller_of id channels e) else lookup k ring)
  once : count_if (equal k) e.key ≤ 1
  free : lookup k ring ≡ none ⊎ mem k e.key ≡ false
  long : mem k e.key ≡ true → leb min_key_len (length k) ≡ true

add_caller-Adds :
    (id : Bytes) (e : CallerToml) (ring next : Keyring) (k : Bytes)
    → add_caller id e ring ≡ inr next
    → Adds id e ring next k
unfolding add_caller
add_caller-Adds id e ring next k h = elim (Option-cases e.channels) [
  | inl n ↦ ground (arith, h, n, Option-cases (valid_caller_id id))
  | inr (channels, g) ↦
      let added : add_keys (caller_of id channels e) e.key ring ≡ inr next =
        ground (arith, h, g, Option-cases (valid_caller_id id)) in
      let (l, n, m, a) = add_keys-lookup (caller_of id channels e) e.key ring next k added in
      record {
        channels = channels;
        given = g;
        found = l;
        once = n;
        free = m;
        long = λ x. all-mem (λ key. leb min_key_len (length key)) k e.key a x;
      }
]

add_callers-owner :
    (entries : List (Bytes × CallerToml)) (ring next : Keyring) (k : Bytes)
    → add_callers entries ring ≡ inr next
    → (lookup k next ≡ (elim (lookup k ring) [ some c ↦ some c | none ↦ owner k entries ]))
      × (listed k entries ≤ (elim (lookup k ring) [ some c ↦ 0 | none ↦ 1 ]))
      × (listed k entries ≡ 0 ⊎ leb min_key_len (length k) ≡ true)
unfolding add_callers owner listed
add_callers-owner [] ring next k h = ground (arith, h, Option-cases (lookup k ring))
add_callers-owner ((id, e) ∷ entries) ring next k h = elim (Sum-cases (add_caller id e ring)) [
  | inl (err, f) ↦ ground (arith, h, f)
  | inr (mid, f) ↦
      let a = add_caller-Adds id e ring mid k f in
      let (l, n, m) = add_callers-owner entries mid next k (ground (arith, h, f)) in
      let given = a.given in
      let found = a.found in
      let once = a.once in
      let free = a.free in
      let q = mem-count_if k e.key in
      let both : (lookup k next
            ≡ (elim (lookup k ring) [ some c ↦ some c | none ↦ owner k ((id, e) ∷ entries) ]))
          × (listed k ((id, e) ∷ entries) ≤ (elim (lookup k ring) [ some c ↦ 0 | none ↦ 1 ])) =
        ground (arith, l, n, given, found, once, free, q, Option-cases (lookup k ring)) in
      (
        both.0,
        both.1,
        elim (Bool-cases (mem k e.key)) [
          | inl t ↦ inr (a.long t)
          | inr t ↦ ground (arith, m, t, q)
        ],
      )
]

-- A keys file that is taken gives each key to one caller at most, which is the caller of the entry
-- that lists the key, with the permissions of that entry; a key that no entry lists is unknown, and
-- one that is listed has at least 16 bytes.
pub parse_keys-owner :
    (decode : Bytes → Option (List (Bytes × CallerToml))) (undecoded : Bytes → Bool) (src : Bytes)
    (entries : List (Bytes × CallerToml)) (ring : Keyring) (k : Bytes)
    → decode src ≡ some entries
    → parse_keys decode undecoded src ≡ inr ring
    → (lookup k ring ≡ owner k entries)
      × (listed k entries ≤ 1)
      × (listed k entries ≡ 0 ⊎ leb 16 (length k) ≡ true)
unfolding parse_keys
parse_keys-owner decode undecoded src entries ring k d h =
    unfold lookup in add_callers-owner entries [] ring k (ground (arith, d, h))
