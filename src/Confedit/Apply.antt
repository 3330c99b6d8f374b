-- ===== src/Confedit/Apply.antt =====
-- internal/confedit/confedit.go: an edit of a configuration file. The hash of the ETag, the loader's
-- validation and the edit are parameters. The file system is the file's content and how many temp
-- files stand beside it; which system calls fail, and what others have written to the file by the
-- last look at it, are arguments. The mode of the file is left out.
pub mod Pipeline
use hubbub.Common.{
  ℕ, zero, suc, ◌+◌, ◌-◌, Bool, true, false, not, ◌&&◌, ◌||◌, List, [], ◌∷◌, ◌++◌, Option, none,
  some, if◌then◌else◌,
}
use hubbub.Common.Bytes.{Bytes, codes, equal, has_prefix, mem}

pub record Disk : Type 0 where
  pub file : Bytes
  pub temps : ℕ

pub record ApplyFaults : Type 0 where
  pub read_fails : Bool
  pub create_fails : Bool
  pub chmod_fails : Bool
  pub write_fails : Bool
  pub sync_fails : Bool
  pub close_fails : Bool
  pub last_read_fails : Bool
  pub rename_fails : Bool
  pub dir_open_fails : Bool
  pub dir_sync_fails : Bool
  pub remove_fails : Bool

-- What `Apply` returns: what was written, or an error.
pub data Applied : Type 0 where
  written : Bytes → Applied
  unreadable conflict broken refused invalid not_staged not_renamed not_synced : Applied

-- `os.Remove` of a temp file.
abbrev pub remove_temp : ApplyFaults → ℕ → ℕ
remove_temp io temps = if io.remove_fails then temps else temps - 1

-- `stage`: whether the new content stands in a temp file, and how many of these there are.
unfoldable pub stage : ApplyFaults → ℕ → Bool × ℕ
stage io temps =
    if io.create_fails
    then (false, temps)
    else if io.chmod_fails || io.write_fails || io.sync_fails || io.close_fails
    then (false, remove_temp io (temps + 1))
    else (true, temps + 1)

-- `syncDir`, where a sync that the platform does not support is none that fails.
abbrev pub sync_dir : ApplyFaults → Bool
sync_dir io = not io.dir_open_fails && not io.dir_sync_fails

-- `commit`, with the deferred removal of a temp file that is still there.
unfoldable pub commit : ApplyFaults → Bytes → Disk → Applied × Disk
commit io out d =
    if io.rename_fails then (not_renamed, record d { temps = remove_temp io d.temps }) else (
      if sync_dir io then written out else not_synced,
      record { file = out; temps = d.temps - 1 },
    )

-- Whether an ETag is given and is not that of a content.
abbrev pub is_stale : (Bytes → Bytes) → Bytes → Bytes → Bytes → Bool
is_stale digest etag expected content = not (equal etag []) && not (equal expected (digest content))

module _ (digest : Bytes → Bytes) where
  -- From the last look on.
  unfoldable pub last_look : ApplyFaults → Bytes → Bytes → Bytes → Disk → Applied × Disk
  last_look io etag cur out d =
      if io.last_read_fails
      then (unreadable, record d { temps = remove_temp io d.temps })
      else if is_stale digest etag cur d.file
      then (conflict, record d { temps = remove_temp io d.temps })
      else commit io out d

module _ (digest : Bytes → Bytes) (validate : Bytes → Bool) where
  -- From the candidate on.
  unfoldable pub write_out :
      ApplyFaults → Bytes → Bytes → (Bytes → Bytes) → Bytes → Disk → Applied × Disk
  write_out io etag cur meanwhile out d =
      if not (validate out)
      then (invalid, d)
      else let (staged, temps) = stage io d.temps in
        let later : Disk = record { file = meanwhile d.file; temps = temps } in
        if staged then last_look digest io etag cur out later else (not_staged, later)

  -- `Apply`.
  unfoldable pub apply :
      ApplyFaults → Bytes → (Bytes → Option Bytes) → (Bytes → Bytes) → Disk → Applied × Disk
  apply io etag edit meanwhile d =
      if io.read_fails
      then (unreadable, d)
      else if is_stale digest etag etag d.file
      then (conflict, d)
      else if not (validate d.file)
      then (broken, d)
      else elim (edit d.file) [
        | none ↦ (refused, d)
        | some out ↦ write_out io etag (digest d.file) meanwhile out d
      ]

-- `tempPrefix`.
abbrev pub temp_prefix : Bytes
temp_prefix = codes ".hubbub-edit-"

-- An entry of a directory.
pub record Entry : Type 0 where
  pub name : Bytes
  pub is_dir : Bool

-- The loop of `SweepTemps` over the entries of one directory: the names that go, and what stays.
unfoldable pub sweep_entries : (Bytes → Bool) → List Entry → List Bytes × List Entry
sweep_entries remove_fails [] = ([], [])
sweep_entries remove_fails (e ∷ es) =
    let (removed, kept) = sweep_entries remove_fails es in
    if not e.is_dir && has_prefix e.name temp_prefix && not (remove_fails e.name)
    then (e.name ∷ removed, kept)
    else (removed, e ∷ kept)
