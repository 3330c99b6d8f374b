-- ===== src/Outbox/Spool/Names.antt =====
-- The queue's view of the directory: which `.json` names it lists, and how the operations change
-- that list. Temporary files are no part of it.
use hubbub.Common.{
  ℕ, ◌-◌, true, false, not, List, [], ◌∷◌, ◌++◌, some, ◌≡◌, refl, sym, ap, ◌∙◌, arith,
  if◌then◌else◌, length, Bool-cases, inl, inr, length-append, select, take, drop, take-append-drop,
  drop-append, leb,
}
use hubbub.Common.Bytes.{Bytes, codes, equal, equal_iff, equal_refl}
use hubbub.Outbox.Name.{Item, json, stem, file_name, has_suffix}
use hubbub.Outbox.Spool.{
  File, holds, corrupt, Dir, read_file, remove_file, put_file, rename_file, WriteFaults, write_sync,
  clean_up, commit_tmp, write, json_names, tmp,
}
use hubbub.Outbox.Spool.Laws.{write_sync_done}

abbrev last_or : ℕ → Bytes → ℕ
last_or d [] = d
last_or d (c ∷ cs) = last_or c cs

last_or-append : (d : ℕ) (xs : Bytes) (y : ℕ) (ys : Bytes) → last_or d (xs ++ y ∷ ys) ≡ last_or y ys
last_or-append d [] y ys = refl
last_or-append d (x ∷ xs) y ys = last_or-append x xs y ys

suffix_split : (s end : Bytes) → has_suffix s end ≡ true → s ≡ take (length s - length end) s ++ end
unfolding has_suffix
suffix_split s end h =
    let e : drop (length s - length end) s ≡ end =
      (equal_iff (drop (length s - length end) s) end).0 (ground arith) in
    sym (
      ap (λ t. take (length s - length end) s ++ t) (sym e)
      ∙ take-append-drop (length s - length end) s)

pub tmp_not_json : (name : Bytes) → has_suffix (name ++ tmp) json ≡ false
tmp_not_json name = elim (Bool-cases (has_suffix (name ++ tmp) json)) [
  | inr e ↦ e
  | inl e ↦
      let p = suffix_split (name ++ tmp) json e in
      absurd (
        omega (
          arith,
          ap (last_or 0) p,
          last_or-append 0 name b'.' (codes "tmp"),
          last_or-append 0 (take (length (name ++ tmp) - length json) (name ++ tmp)) b'.'
              (codes "json"),
        ))
]

pub has_suffix-append : (s end : Bytes) → has_suffix (s ++ end) end ≡ true
unfolding has_suffix
has_suffix-append s end =
    let e : length (s ++ end) - length end ≡ length s = omega (arith, length-append s end) in
    let l : leb (length end) (length (s ++ end)) ≡ true = ground (arith, length-append s end) in
    rw (e, l, drop-append, equal_refl)

pub file_name-json : (it : Item) → has_suffix (file_name it) json ≡ true
unfolding file_name
file_name-json it = has_suffix-append (stem it) json

-- The list without a name.
abbrev pub drop_name : Bytes → List Bytes → List Bytes
drop_name k = select (λ n. not (equal n k))

pub json_names-remove_file :
    (k : Bytes) (dir : Dir) → json_names (remove_file k dir) ≡ drop_name k (json_names dir)
unfolding json_names remove_file
json_names-remove_file k [] = refl
json_names-remove_file k ((n, f) ∷ dir) = ground (arith, json_names-remove_file k dir)

pub json_names-remove_other :
    (k : Bytes) (dir : Dir)
    → has_suffix k json ≡ false
    → json_names (remove_file k dir) ≡ json_names dir
unfolding json_names remove_file
json_names-remove_other k [] h = refl
json_names-remove_other k ((n, f) ∷ dir) h =
    ground (arith, json_names-remove_other k dir, equal_iff n k)

json_names-put_other :
    (k : Bytes) (f : File) (dir : Dir)
    → has_suffix k json ≡ false
    → json_names (put_file k f dir) ≡ json_names dir
unfolding put_file
json_names-put_other k f dir h = unfold json_names in ground (arith, json_names-remove_other k dir)

json_names-put_file :
    (k : Bytes) (f : File) (dir : Dir)
    → has_suffix k json ≡ true
    → json_names (put_file k f dir) ≡ k ∷ drop_name k (json_names dir)
unfolding put_file
json_names-put_file k f dir h = unfold json_names in ground (arith, json_names-remove_file k dir)

module _ (io : WriteFaults) (name : Bytes) (it : Item) (dir : Dir) where
  json_names-write_sync : json_names (write_sync io (name ++ tmp) it dir).1 ≡ json_names dir
  unfolding write_sync
  json_names-write_sync = ground (
    arith,
    json_names-put_other (name ++ tmp) corrupt dir,
    json_names-put_other (name ++ tmp) (holds it) dir,
    tmp_not_json name,
  )

  json_names-clean_up : json_names (clean_up io (name ++ tmp) dir) ≡ json_names dir
  json_names-clean_up = ground (arith, json_names-remove_other (name ++ tmp) dir, tmp_not_json name)

  json_names-commit_tmp :
      has_suffix name json ≡ true
      → read_file (name ++ tmp) dir ≡ some (holds it)
      → json_names (commit_tmp io name dir).1 ≡ (
          if (commit_tmp io name dir).0
          then name ∷ drop_name name (json_names dir)
          else json_names dir)
  unfolding commit_tmp rename_file
  json_names-commit_tmp j h = ground (
    arith,
    json_names-clean_up,
    json_names-put_file name (holds it) (remove_file (name ++ tmp) dir),
    json_names-remove_other (name ++ tmp) dir,
    tmp_not_json name,
  )

module _ (io : WriteFaults) (name : Bytes) (it : Item) (dir : Dir) where
  -- A write that succeeds lists its name once more, in place of an older entry; one that fails
  -- leaves the list as it was.
  pub json_names-write :
      has_suffix name json ≡ true
      → json_names (write io name it dir).1 ≡ (
          if (write io name it dir).0
          then name ∷ drop_name name (json_names dir)
          else json_names dir)
  unfolding write
  json_names-write j =
      let staged = (write_sync io (name ++ tmp) it dir).1 in
      ground (
        arith,
        json_names-write_sync io name it dir,
        write_sync_done io (name ++ tmp) it dir,
        json_names-commit_tmp io name it staged,
        json_names-clean_up io name it staged,
      )
