-- ===== src/Tests/OutboxTests.antt =====
-- internal/outbox at concrete inputs: file names, the spool and the registry.
use hubbub.Common.{
  ℕ, ◌≤◌, true, false, List, [], ◌∷◌, none, some, ◌≡◌, refl, arith, inl, if◌then◌else◌, get_or,
}
use hubbub.Common.Bytes.{Bytes, codes, equal, mem, cut_at, less}
use hubbub.Outbox.Name.{
  file_name, pad, request_id_from_name, enqueue_nanos_from_name, trim_suffix, has_suffix,
  split_name, parse_int,
}
use hubbub.Outbox.Name.RoundTrip.{request_id_from_name-file_name, less-file_name}
use hubbub.Outbox.Spool.{
  Dir, holds, corrupt, read_file, remove_file, put_file, write_sync, commit_tmp, write, json_names,
  insert_name, sort_names, oldest_evictable, claim, claimed,
}
use hubbub.Outbox.Spool.Laws.{write_atomic}
use hubbub.Outbox.Spool.Order.{oldest_evictable-oldest}
use hubbub.Outbox.Registry.{
  WaiterKey, Registry, new_registry, same_key, find_waiter, delete_waiter, add_waiter, add_waiters,
  add, hand_over, resolve,
}
use hubbub.Outbox.Registry.Bounds.{
  Call, add_call, resolve_call, run, sent_on, run-never_blocks, resolve_once,
}
use hubbub.Tests.Samples.{item_at, no_fault, delivered_outcome, late_outcome}

name_of_item : file_name (item_at false 1_700_000_000) ≡ codes "1-00000000001700000000-r_1a.json"
unfolding file_name pad
name_of_item = refl

nanos_of_name :
    (enqueue_nanos_from_name (codes "1-00000000000000000042-r_1a.json") ≡ some 42)
    × (enqueue_nanos_from_name (codes "1-+7-x") ≡ some 7)
    × (enqueue_nanos_from_name (codes "1-9223372036854775808-x") ≡ none)
    × (enqueue_nanos_from_name (codes "notes.json") ≡ none)
unfolding enqueue_nanos_from_name trim_suffix has_suffix split_name cut_at parse_int equal
nanos_of_name = (refl, refl, refl, refl)

request_id_from_name-file_name_example :
    request_id_from_name (file_name (item_at true 42)) ≡ codes "r_1a"
request_id_from_name-file_name_example = request_id_from_name-file_name (item_at true 42)

less-file_name_example : less (file_name (item_at true 9)) (file_name (item_at false 3)) ≡ true
less-file_name_example =
    less-file_name (item_at true 9) (item_at false 3) (omega arith) (inl (refl, refl))

-- Two queued items, the later one first, beside a file that is no queue item.
abbrev two_files : Dir
two_files =
    (codes "1-00000000000000000009-b.json", holds (item_at false 9))
    ∷ (codes "notes.txt", corrupt)
    ∷ (codes "1-00000000000000000004-a.json", holds (item_at false 4))
    ∷ []

abbrev first_name : Bytes
first_name = codes "1-00000000000000000004-a.json"

write_atomic_example :
    read_file first_name (write no_fault first_name (item_at true 5) two_files).1 ≡ (
      if (write no_fault first_name (item_at true 5) two_files).0
      then some (holds (item_at true 5))
      else read_file first_name two_files)
write_atomic_example = write_atomic no_fault first_name (item_at true 5) two_files

-- A rename that fails leaves the queue as it was.
failed_rename :
    read_file first_name
      (write (record no_fault { rename_fails = true }) first_name (item_at true 5) two_files).1
    ≡ some (holds (item_at false 4))
unfolding write write_sync commit_tmp put_file remove_file read_file equal
failed_rename = refl

claim_wins : (claim false first_name two_files).0 ≡ claimed
unfolding claim read_file equal
claim_wins = refl

listed_first : mem first_name (sort_names (json_names two_files)) ≡ true
unfolding mem sort_names insert_name json_names has_suffix less equal
listed_first = refl

first_nanos : enqueue_nanos_from_name first_name ≡ some 4
unfolding enqueue_nanos_from_name trim_suffix has_suffix split_name cut_at parse_int equal
first_nanos = refl

first_allowed : mem first_name [] ≡ false
unfolding mem
first_allowed = refl

oldest_evictable-oldest_example :
    (v : Bytes) × (u : ℕ) × (oldest_evictable false [] two_files ≡ some v)
    × (enqueue_nanos_from_name v ≡ some u)
    × (u ≤ 4)
oldest_evictable-oldest_example =
    oldest_evictable-oldest [] two_files first_name 4 listed_first first_allowed first_nanos

abbrev calls : List Call
calls =
    add_call (codes "r_1a") (codes "ntfy" ∷ codes "mail" ∷ [])
    ∷ resolve_call (codes "r_1a") (codes "ntfy") delivered_outcome
    ∷ resolve_call (codes "r_1a") (codes "ntfy") late_outcome
    ∷ []

run-never_blocks_example :
    sent_on 0 (run calls new_registry).sent ≤ get_or (run calls new_registry).capacities 0 0
run-never_blocks_example = run-never_blocks calls 0

abbrev one_waiter : Registry
one_waiter = (add (codes "r_1a") (codes "ntfy" ∷ []) new_registry).1

one_waiter_resolves : (resolve (codes "r_1a") (codes "ntfy") delivered_outcome one_waiter).0 ≡ true
unfolding add add_waiters add_waiter resolve find_waiter hand_over delete_waiter same_key equal
one_waiter_resolves = refl

resolve_once_example :
    resolve
      (codes "r_1a")
      (codes "ntfy")
      late_outcome
      (resolve (codes "r_1a") (codes "ntfy") delivered_outcome one_waiter).1
    ≡ (false, (resolve (codes "r_1a") (codes "ntfy") delivered_outcome one_waiter).1)
resolve_once_example =
    resolve_once (codes "r_1a") (codes "ntfy") delivered_outcome late_outcome one_waiter
      one_waiter_resolves

abbrev ntfy_key : WaiterKey
ntfy_key = record { req_id = codes "r_1a"; channel = codes "ntfy" }

one_waiter_waits : find_waiter ntfy_key one_waiter.waiters ≡ some 0
unfolding add add_waiters add_waiter find_waiter same_key equal
one_waiter_waits = refl
