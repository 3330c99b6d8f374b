-- ===== src/Tomledit/Verify.antt =====
-- internal/tomledit/tomledit.go: `Verify`, `VerifyNeighbours` and `equalAny`, over decoded values.
-- The TOML package's decoder is the parameter `decode`, `none` for a text that it refuses. A decoded
-- map is a list of keys and values, in the order in which Go ranges over it. A scalar is a number,
-- the same one where `==` holds; a NaN is not equal to itself. An array of tables, which decodes to a
-- []map[string]any, cannot be compared by `==`.
pub mod Equal
pub mod Neighbours
use hubbub.Common.{
  ℕ, zero, suc, ◌+◌, Bool, true, false, not, ◌&&◌, ◌||◌, List, [], ◌∷◌, Option, none, some,
  if◌then◌else◌, ◌==◌, ltb, length, take, drop, slice,
}
use hubbub.Common.Bytes.{Bytes, equal}

mutual
  pub data Value : Type 0 where
    scalar : ℕ → Value
    nan : Value
    tables : Values → Value
    array : Values → Value
    table : Table → Value

  pub data Values : Type 0 where
    end : Values
    item : Value → Values → Values

  pub data Table : Type 0 where
    empty : Table
    entry : Bytes → Value → Table → Table

unfoldable pub look_up : Bytes → Table → Option Value
look_up k empty = none
look_up k (entry j v t) = if equal j k then some v else look_up k t

unfoldable pub table_len : Table → ℕ
table_len empty = 0
table_len (entry k v t) = 1 + table_len t

unfoldable pub items_len : Values → ℕ
items_len end = 0
items_len (item v vs) = 1 + items_len vs

-- What a comparison comes to.
pub data Verdict : Type 0 where
  same differs panics : Verdict

-- The second comparison is made only if the first finds no difference.
abbrev pub and_then : Verdict → Verdict → Verdict
and_then same v = v
and_then differs v = differs
and_then panics v = panics

-- `equalAny`: two tables are equal if they are as large and each key of the first has an equal
-- value in the second.
unfoldable mutual
  pub equal_any : Value → Value → Verdict
  equal_any (scalar a) (scalar b) = if a == b then same else differs
  equal_any (tables ts) (tables us) = panics
  equal_any (array xs) (array ys) =
      let each = equal_items xs ys in if items_len xs == items_len ys then each else differs
  equal_any (table t) (table u) =
      let each = equal_entries t u in if table_len t == table_len u then each else differs
  equal_any _ _ = differs

  pub equal_items : Values → Values → Verdict
  equal_items end _ = same
  equal_items (item x xs) end = differs
  equal_items (item x xs) (item y ys) = and_then (equal_any x y) (equal_items xs ys)

  pub equal_entries : Table → Table → Verdict
  equal_entries empty u = same
  equal_entries (entry k v t) u = elim (look_up k u) [
    | none ↦ differs
    | some w ↦ and_then (equal_any v w) (equal_entries t u)
  ]

pub data Fault : Type 0 where
  out_of_range bad_head bad_tail bad_block many_tables other_table : Fault
  bad_before bad_after : Fault
  deletes changes adds : Bytes → Fault
  panicked : Fault

-- The first loop of `VerifyNeighbours`, over the tables of the file as it was.
unfoldable pub check_old : Bytes → Table → Table → Option Fault
check_old id empty a = none
check_old id (entry k v b) a =
    let rest = check_old id b a in
    if equal k id then rest else elim (look_up k a) [
      | none ↦ some (deletes k)
      | some w ↦ elim (equal_any v w) [
        | same ↦ rest
        | differs ↦ some (changes k)
        | panics ↦ some panicked
      ]
    ]

-- The second loop, over the tables of the file as it would be.
unfoldable pub check_new : Bytes → Table → Table → Option Fault
check_new id empty b = none
check_new id (entry k v a) b =
    let rest = check_new id a b in
    if equal k id then rest else elim (look_up k b) [ none ↦ some (adds k) | some w ↦ rest ]

unfoldable pub check_both : Bytes → Table → Table → Option Fault
check_both id b a = elim (check_old id b a) [ none ↦ check_new id a b | some f ↦ some f ]

-- What `Verify` asks of the decoded block.
only_table : Bytes → Table → Option Fault
only_table id t =
    if not (table_len t == 1)
    then some many_tables
    else elim (look_up id t) [ none ↦ some other_table | some v ↦ none ]

module _ (decode : Bytes → Option Table) where
  unfoldable pub verify : Bytes → ℕ → ℕ → Bytes → Option Fault
  unfolding only_table
  verify src start stop id =
      if ltb stop start || ltb (length src) stop
      then some out_of_range
      else elim (decode (take start src)) [
        | none ↦ some bad_head
        | some _ ↦ elim (decode (drop stop src)) [
          | none ↦ some bad_tail
          | some _ ↦ elim (decode (slice start stop src)) [
            | none ↦ some bad_block
            | some mid ↦ only_table id mid
          ]
        ]
      ]

  unfoldable pub verify_neighbours : Bytes → Bytes → Bytes → Option Fault
  verify_neighbours before after id = elim (decode before) [
    | none ↦ some bad_before
    | some b ↦ elim (decode after) [ none ↦ some bad_after | some a ↦ check_both id b a ]
  ]
