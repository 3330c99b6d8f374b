-- ===== src/Outbox/Spool/Laws.antt =====
-- The directory as a map from names to files.
use hubbub.Common.{
  Bool, true, false, [], ◌∷◌, ◌++◌, none, some, ◌≡◌, ◌≢◌, ◌⊎◌, refl, arith, if◌then◌else◌, length,
  Bool-cases, inl, inr, length-append, ap,
}
use hubbub.Common.Bytes.{Bytes, equal, equal_iff, equal_refl}
use hubbub.Outbox.Name.{Item}
use hubbub.Outbox.Spool.{
  File, holds, corrupt, Dir, read_file, remove_file, put_file, rename_file, WriteFaults, write_sync,
  clean_up, commit_tmp, write, claimed, claim, tmp, load, Load, loaded, is_corrupt, unreadable,
}

pub read_file-remove_file :
    (j k : Bytes) (dir : Dir)
    → read_file j (remove_file k dir) ≡ (if equal k j then none else read_file j dir)
unfolding read_file remove_file
read_file-remove_file j k [] = ground arith
read_file-remove_file j k ((n, f) ∷ dir) =
    ground (arith, read_file-remove_file j k dir, equal_iff n k, equal_iff n j, equal_iff k j)

pub read_file-put_file :
    (j k : Bytes) (f : File) (dir : Dir)
    → read_file j (put_file k f dir) ≡ (if equal k j then some f else read_file j dir)
unfolding put_file
read_file-put_file j k f dir = unfold read_file in ground (arith, read_file-remove_file j k dir)

pub append_ne_self : (a b : Bytes) → b ≢ [] → a ++ b ≢ a
append_ne_self a [] h e = h refl
append_ne_self a (x ∷ b) h e = omega (arith, ap length e, length-append a (x ∷ b))

-- A claim removes the file for one claimant: it wins exactly when the file is there and the unlink
-- works, and then no later claim of that name wins.
pub claim_once :
    (fails again : Bool) (name : Bytes) (dir : Dir)
    → (claim fails name dir).0 ≡ claimed
    → (read_file name dir ≢ none)
      × (read_file name (claim fails name dir).1 ≡ none)
      × ((claim again name (claim fails name dir).1).0 ≢ claimed)
unfolding claim
claim_once fails again name dir h =
    ground (arith, read_file-remove_file name name dir, equal_refl name)

-- A claim leaves every other file alone.
pub read_file-claim :
    (fails : Bool) (j name : Bytes) (dir : Dir)
    → equal name j ≡ false
    → read_file j (claim fails name dir).1 ≡ read_file j dir
unfolding claim
read_file-claim fails j name dir h = ground (arith, read_file-remove_file j name dir)

module _ (io : WriteFaults) (path : Bytes) (it : Item) (dir : Dir) where
  pub write_sync_done :
      (write_sync io path it dir).0 ≡ true
      → read_file path (write_sync io path it dir).1 ≡ some (holds it)
  unfolding write_sync
  write_sync_done h = ground (arith, read_file-put_file path path (holds it) dir, equal_refl path)

  read_file-write_sync :
      (j : Bytes)
      → equal path j ≡ false
      → read_file j (write_sync io path it dir).1 ≡ read_file j dir
  unfolding write_sync
  read_file-write_sync j h =
      ground
        (arith, read_file-put_file j path (holds it) dir, read_file-put_file j path corrupt dir)

  read_file-clean_up :
      (j : Bytes) → equal path j ≡ false → read_file j (clean_up io path dir) ≡ read_file j dir
  read_file-clean_up j h = ground (arith, read_file-remove_file j path dir)

module _ (io : WriteFaults) (name : Bytes) (it : Item) (dir : Dir) where
  commit_tmp_done :
      read_file (name ++ tmp) dir ≡ some (holds it)
      → (commit_tmp io name dir).0 ≡ true
      → read_file name (commit_tmp io name dir).1 ≡ some (holds it)
  unfolding commit_tmp rename_file
  commit_tmp_done h = ground (
    arith,
    read_file-put_file name name (holds it) (remove_file (name ++ tmp) dir),
    equal_refl name,
  )

  commit_tmp_failed :
      equal (name ++ tmp) name ≡ false
      → (commit_tmp io name dir).0 ≡ false
      → read_file name (commit_tmp io name dir).1 ≡ read_file name dir
  unfolding commit_tmp
  commit_tmp_failed e h = ground (arith, read_file-clean_up io (name ++ tmp) it dir name)

  read_file-commit_tmp :
      (j : Bytes)
      → read_file (name ++ tmp) dir ≡ some (holds it)
      → equal name j ≡ false
      → equal (name ++ tmp) j ≡ false
      → read_file j (commit_tmp io name dir).1 ≡ read_file j dir
  unfolding commit_tmp rename_file
  read_file-commit_tmp j w h k = ground (
    arith,
    read_file-clean_up io (name ++ tmp) it dir j,
    read_file-put_file j name (holds it) (remove_file (name ++ tmp) dir),
    read_file-remove_file j (name ++ tmp) dir,
  )

tmp_ne_name : (name : Bytes) → equal (name ++ tmp) name ≡ false
tmp_ne_name name = ground (arith, equal_iff (name ++ tmp) name, append_ne_self name tmp)

module _ (io : WriteFaults) (name : Bytes) (it : Item) (dir : Dir) where
  abbrev staged : Bool × Dir
  staged = write_sync io (name ++ tmp) it dir

  write_succeeds :
      (write io name it dir).0 ≡ true → read_file name (write io name it dir).1 ≡ some (holds it)
  unfolding write
  write_succeeds h =
      ground (arith, write_sync_done io (name ++ tmp) it dir, commit_tmp_done io name it staged.1)

  write_fails_clean :
      (write io name it dir).0 ≡ false
      → read_file name (write io name it dir).1 ≡ read_file name dir
  unfolding write
  write_fails_clean h = ground (
    arith,
    tmp_ne_name name,
    read_file-write_sync io (name ++ tmp) it dir name,
    commit_tmp_failed io name it staged.1,
    read_file-clean_up io (name ++ tmp) it staged.1 name,
  )

  -- The rename is the transaction: whichever system calls fail, after `write` the name holds the
  -- new item if `write` reports success, and what it held before if it reports an error.
  pub write_atomic :
      read_file name (write io name it dir).1
      ≡ (if (write io name it dir).0 then some (holds it) else read_file name dir)
  write_atomic = elim (Bool-cases (write io name it dir).0) [
    | inl e ↦ rw e (write_succeeds e)
    | inr e ↦ rw e (write_fails_clean e)
  ]

  -- Whatever fails, no file but the named one and its temporary one changes.
  pub read_file-write :
      (j : Bytes)
      → equal name j ≡ false
      → equal (name ++ tmp) j ≡ false
      → read_file j (write io name it dir).1 ≡ read_file j dir
  unfolding write
  read_file-write j h k = ground (
    arith,
    write_sync_done io (name ++ tmp) it dir,
    read_file-write_sync io (name ++ tmp) it dir j,
    read_file-commit_tmp io name it staged.1 j,
    read_file-clean_up io (name ++ tmp) it staged.1 j,
  )

pub load-loaded :
    (fails : Bool) (name : Bytes) (dir : Dir) (it : Item)
    → load fails name dir ≡ loaded it
    → read_file name dir ≡ some (holds it)
unfolding load
load-loaded fails name dir it h = ground arith

pub Load-cases : (l : Load) → (l ≡ unreadable) ⊎ (l ≡ is_corrupt) ⊎ ((it : Item) × (l ≡ loaded it))
Load-cases unreadable = inl refl
Load-cases is_corrupt = inr (inl refl)
Load-cases (loaded it) = inr (inr (it, refl))
