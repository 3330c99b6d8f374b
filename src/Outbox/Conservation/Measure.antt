-- ===== src/Outbox/Conservation/Measure.antt =====
-- How often a request is accounted for on a channel: by its spool files that are still to be
-- settled, and by terminal outcomes.
use hubbub.Common.{
  ℕ, ◌+◌, ◌≤◌, Bool, true, not, ◌&&◌, List, [], ◌∷◌, none, ◌≡◌, ◌≢◌, refl, arith, if◌then◌else◌,
  count_if,
}
use hubbub.Common.Bytes.{Bytes, equal, equal_iff, equal_refl, mem}
use hubbub.Outbox.Name.{Item, json, has_suffix, request_id_from_name}
use hubbub.Outbox.Spool.{Dir, read_file, remove_file, json_names, WriteFaults, write}
use hubbub.Outbox.Spool.Names.{drop_name, json_names-remove_file, json_names-write}
use hubbub.Outbox.Registry.{Outcome, Sent, resolve}
use hubbub.Outbox.Settle.{LogLine, Shared, settle}

-- The listed files of request `r` that are not stuck.
abbrev pub pending_name : Bytes → List Bytes → Bytes → Bool
pending_name r stuck n = equal (request_id_from_name n) r && not (mem n stuck)

abbrev pub pending : Bytes → List Bytes → Dir → ℕ
pending r stuck dir = count_if (pending_name r stuck) (json_names dir)

abbrev pub logged_for : Bytes → Bytes → LogLine → Bool
logged_for r ch l = equal l.request_id r && equal l.channel ch

abbrev pub sent_for : Bytes → Bytes → Sent → Bool
sent_for r ch x = equal x.key.req_id r && equal x.key.channel ch

-- The terminal outcomes of request `r` on channel `ch`: handed to a waiter or logged.
abbrev pub terminal : Bytes → Bytes → Shared → ℕ
terminal r ch s = count_if (logged_for r ch) s.log + count_if (sent_for r ch) s.registry.sent

-- One settlement is one terminal outcome of its request on its channel, and of no other.
pub terminal-settle :
    (r ch req caller : Bytes) (o : Outcome) (s : Shared)
    → terminal r ch (settle ch req caller o s) ≡ terminal r ch s + (if equal req r then 1 else 0)
unfolding settle resolve
terminal-settle r ch req caller o s = ground (arith, equal_refl ch)

abbrev pub occurrences : Bytes → List Bytes → ℕ
occurrences k = count_if (λ n. equal n k)

-- Dropping a name takes away its occurrences.
pub count_if-drop_name :
    (p : Bytes → Bool) (k : Bytes) (ns : List Bytes)
    → count_if p (drop_name k ns) + (if p k then occurrences k ns else 0) ≡ count_if p ns
count_if-drop_name p k [] = ground arith
count_if-drop_name p k (n ∷ ns) = ground (arith, count_if-drop_name p k ns, equal_iff n k)

-- Every listed name is listed once.
abbrev pub IsUnique : Dir → Type 0
IsUnique dir = (k : Bytes) → occurrences k (json_names dir) ≤ 1

pub occurrences-read_file :
    (k : Bytes) (dir : Dir)
    → has_suffix k json ≡ true
    → read_file k dir ≢ none
    → 1 ≤ occurrences k (json_names dir)
unfolding read_file json_names
occurrences-read_file k [] j h = absurd (h refl)
occurrences-read_file k ((n, f) ∷ dir) j h =
    ground (arith, occurrences-read_file k dir, equal_iff n k)

pub occurrences-none :
    (k : Bytes) (dir : Dir) → read_file k dir ≡ none → occurrences k (json_names dir) ≡ 0
unfolding read_file json_names
occurrences-none k [] h = refl
occurrences-none k ((n, f) ∷ dir) h = ground (arith, occurrences-none k dir)

pub IsUnique-remove_file : (k : Bytes) (dir : Dir) → IsUnique dir → IsUnique (remove_file k dir)
IsUnique-remove_file k dir u j =
    rw json_names-remove_file
      (omega (arith, u j, count_if-drop_name (λ n. equal n j) k (json_names dir)))

occurrences-drop_name :
    (j k : Bytes) (ns : List Bytes)
    → occurrences j (drop_name k ns) ≡ (if equal k j then 0 else occurrences j ns)
occurrences-drop_name j k [] = ground arith
occurrences-drop_name j k (n ∷ ns) =
    ground (arith, occurrences-drop_name j k ns, equal_iff n k, equal_iff n j, equal_iff k j)

module _ (io : WriteFaults) (name : Bytes) (it : Item) (dir : Dir)
    (j : has_suffix name json ≡ true) where
  pub IsUnique-write : IsUnique dir → IsUnique (write io name it dir).1
  IsUnique-write u k =
      rw (json_names-write io name it dir j)
        (ground (arith, u k, occurrences-drop_name k name (json_names dir)))

  -- A successful write adds its name to the pending ones if it is new, and keeps their number if
  -- it replaces a file; a failed write keeps it.
  pub pending-write_new :
      (r : Bytes) (stuck : List Bytes)
      → read_file name dir ≡ none
      → pending r stuck (write io name it dir).1
        ≡ pending r stuck dir
          + (if (write io name it dir).0 then if pending_name r stuck name then 1 else 0 else 0)
  pending-write_new r stuck h = rw (json_names-write io name it dir j) (
      ground (
        arith,
        count_if-drop_name (pending_name r stuck) name (json_names dir),
        occurrences-none name dir h,
      ))

  pub pending-write_over :
      (r : Bytes) (stuck : List Bytes)
      → IsUnique dir
      → read_file name dir ≢ none
      → pending r stuck (write io name it dir).1 ≡ pending r stuck dir
  pending-write_over r stuck u h = rw (json_names-write io name it dir j) (
      ground (
        arith,
        count_if-drop_name (pending_name r stuck) name (json_names dir),
        occurrences-read_file name dir j h,
        u name,
      ))

-- Removing a file that is there takes one pending name away, if it was pending.
pub pending-remove_file :
    (r : Bytes) (stuck : List Bytes) (name : Bytes) (dir : Dir)
    → IsUnique dir
    → has_suffix name json ≡ true
    → read_file name dir ≢ none
    → pending r stuck (remove_file name dir) + (if pending_name r stuck name then 1 else 0)
      ≡ pending r stuck dir
pending-remove_file r stuck name dir u j h = rw json_names-remove_file (
    ground (
      arith,
      count_if-drop_name (pending_name r stuck) name (json_names dir),
      occurrences-read_file name dir j h,
      u name,
    ))
