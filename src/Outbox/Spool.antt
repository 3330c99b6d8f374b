-- ===== src/Outbox/Spool.antt =====
-- internal/outbox/spool.go: the spool directory of one channel. A directory is the list of its
-- entries; a file that the hub wrote holds the item that `json.Marshal` encoded, and any bytes that
-- do not decode are `corrupt`. Which system calls fail is an argument of each operation.
pub mod Laws
pub mod Order
pub mod Names
use hubbub.Common.{
  ℕ, zero, suc, ◌+◌, Bool, true, false, not, ◌&&◌, ◌||◌, List, [], ◌∷◌, ◌++◌, Option, none, some,
  if◌then◌else◌, ltb, length, map, select,
}
use hubbub.Common.Bytes.{Bytes, codes, equal, less, mem}
use hubbub.Outbox.Name.{Item, json, file_name, has_suffix, enqueue_nanos_from_name}

pub data File : Type 0 where
  holds : Item → File
  corrupt : File

abbrev pub Dir : Type 0
Dir = List (Bytes × File)

-- `os.ReadFile` of a name in the directory.
unfoldable pub read_file : Bytes → Dir → Option File
read_file name [] = none
read_file name ((n, f) ∷ dir) = if equal n name then some f else read_file name dir

-- `os.Remove` of a name in the directory.
unfoldable pub remove_file : Bytes → Dir → Dir
remove_file name [] = []
remove_file name ((n, f) ∷ dir) =
    let rest = remove_file name dir in if equal n name then rest else (n, f) ∷ rest

-- The entry that `os.Rename` and `os.OpenFile` leave: the name now holds the new file.
unfoldable pub put_file : Bytes → File → Dir → Dir
put_file name f dir = (name, f) ∷ remove_file name dir

-- `os.Rename` within the directory.
unfoldable pub rename_file : Bytes → Bytes → Dir → Dir
rename_file from to dir = elim (read_file from dir) [
  | none ↦ dir
  | some f ↦ put_file to f (remove_file from dir)
]

abbrev pub tmp : Bytes
tmp = codes ".tmp"

-- The calls of `write` that may fail. A failed directory sync is only logged.
pub record WriteFaults : Type 0 where
  pub open_fails : Bool
  pub write_fails : Bool
  pub sync_fails : Bool
  pub close_fails : Bool
  pub rename_fails : Bool
  pub remove_fails : Bool

-- `writeSync`: once the file is open, what a failed write leaves in it does not decode. A failed
-- sync or close leaves it whole.
unfoldable pub write_sync : WriteFaults → Bytes → Item → Dir → Bool × Dir
write_sync io path it dir =
    if io.open_fails
    then (false, dir)
    else if io.write_fails
    then (false, put_file path corrupt dir)
    else (not (io.sync_fails || io.close_fails), put_file path (holds it) dir)

-- `os.Remove(tmp)` on a path that failed.
abbrev pub clean_up : WriteFaults → Bytes → Dir → Dir
clean_up io path dir = if io.remove_fails then dir else remove_file path dir

-- The second half of `write`: the rename.
unfoldable pub commit_tmp : WriteFaults → Bytes → Dir → Bool × Dir
commit_tmp io name dir =
    if io.rename_fails
    then (false, clean_up io (name ++ tmp) dir)
    else (true, rename_file (name ++ tmp) name dir)

-- `write`; the result is whether it returned without an error.
unfoldable pub write : WriteFaults → Bytes → Item → Dir → Bool × Dir
write io name it dir =
    let (done, dir') = write_sync io (name ++ tmp) it dir in
    if done then commit_tmp io name dir' else (false, clean_up io (name ++ tmp) dir')

unfoldable pub put : WriteFaults → Item → Dir → Bool × Dir
put io it = write io (file_name it) it

unfoldable pub rewrite : WriteFaults → Bytes → Item → Dir → Bool × Dir
rewrite io name it = write io name it

-- `(true, nil)`, `(false, nil)` and `(false, err)`.
pub data Claim : Type 0 where
  claimed gone failed : Claim

abbrev unlinked : Bytes → Dir → Option File → Claim × Dir
unlinked name dir none = (gone, dir)
unlinked name dir (some f) = (claimed, remove_file name dir)

unfoldable pub claim : Bool → Bytes → Dir → Claim × Dir
claim fails name dir = if fails then (failed, dir) else unlinked name dir (read_file name dir)

-- `sort.Strings`.
unfoldable pub insert_name : Bytes → List Bytes → List Bytes
insert_name n [] = n ∷ []
insert_name n (m ∷ ms) = if less m n then m ∷ insert_name n ms else n ∷ m ∷ ms

unfoldable pub sort_names : List Bytes → List Bytes
sort_names [] = []
sort_names (n ∷ ns) = insert_name n (sort_names ns)

-- The names that `list` keeps of a scan. The spool directory has no subdirectories.
unfoldable pub json_names : Dir → List Bytes
json_names [] = []
json_names ((n, f) ∷ dir) = if has_suffix n json then n ∷ json_names dir else json_names dir

unfoldable pub list : Bool → Dir → Option (List Bytes)
list fails dir = if fails then none else some (sort_names (json_names dir))

unfoldable pub count : Bool → Dir → Option ℕ
unfolding list
count fails dir = elim (list fails dir) [ none ↦ none | some names ↦ some (length names) ]

pub data Load : Type 0 where
  loaded : Item → Load
  is_corrupt : Load
  unreadable : Load

abbrev decoded : Option File → Load
decoded none = unreadable
decoded (some (holds it)) = loaded it
decoded (some corrupt) = is_corrupt

unfoldable pub load : Bool → Bytes → Dir → Load
load fails name dir = if fails then unreadable else decoded (read_file name dir)

-- The scan of `oldestEvictable`: the victim so far ("" if none) and its time.
unfoldable pub older : List Bytes → Bytes × ℕ → Bytes → Bytes × ℕ
older skip (victim, oldest) n =
    if mem n skip then (victim, oldest) else elim (enqueue_nanos_from_name n) [
      | none ↦ (victim, oldest)
      | some ns ↦ if equal victim [] || ltb ns oldest then (n, ns) else (victim, oldest)
    ]

unfoldable pub scan_oldest : List Bytes → Bytes × ℕ → List Bytes → Bytes × ℕ
scan_oldest skip best [] = best
scan_oldest skip best (n ∷ ns) = scan_oldest skip (older skip best n) ns

unfoldable pub oldest_evictable : Bool → List Bytes → Dir → Option Bytes
oldest_evictable fails skip dir = elim (list fails dir) [
  | none ↦ none
  | some names ↦ some (scan_oldest skip ([], 0) names).0
]
