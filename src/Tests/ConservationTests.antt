-- ===== src/Tests/ConservationTests.antt =====
-- The accounts of internal/outbox at concrete states of a channel.
use hubbub.Common.{◌+◌, true, false, ◌&&◌, [], ◌≡◌, refl, if◌then◌else◌}
use hubbub.Common.Bytes.{Bytes, codes, equal, mem}
use hubbub.Outbox.Name.{Item, file_name, pad, json, request_id_from_name, has_suffix}
use hubbub.Outbox.Name.RoundTrip.{request_id_from_name-file_name}
use hubbub.Outbox.Spool.{
  read_file, remove_file, put_file, rename_file, write_sync, commit_tmp, write, put, json_names,
  insert_name, sort_names, list, count,
}
use hubbub.Outbox.Worker.{
  State, enqueue, make_room, new_item, next, held, not_before_of, rate_limit_floor,
}
use hubbub.Outbox.Worker.Attempt.{Answer, Kind, send_error, process, refused}
use hubbub.Common.{◌+◌}
use hubbub.Outbox.Worker.{held, not_before_of, rate_limit_floor}
use hubbub.Outbox.Worker.Attempt.{SendError, refused}
use hubbub.Outbox.Worker.Sweep.{purge_one}
use hubbub.Outbox.Conservation.Measure.{pending, terminal}
use hubbub.Outbox.Conservation.Finish.{total, IsSound}
use hubbub.Outbox.Conservation.Sweeps.{wins, total-purge_one}
use hubbub.Outbox.Conservation.Enqueue.{account, account-enqueue}
use hubbub.Outbox.Conservation.Attempts.{InFlight, account-process}
use hubbub.Outbox.Conservation.Queue.{Looked, next-Looked}
use hubbub.Outbox.Conservation.Runs.{
  Run, start, step, enqueued, fresh, fresh-IsSound, Run-account, pending-terminal, happen,
}
use hubbub.Tests.Samples.{sample, opts, enqueue_well, scan_well, attempt_well, sweep_well}

abbrev req : Bytes
req = codes "r_1a"

abbrev ntfy : Bytes
ntfy = codes "ntfy"

abbrev start_state : State
start_state = fresh ntfy opts

-- One item is spooled at 5 and its worker looks at it from 6.
abbrev spooled : Item
spooled = new_item sample false ntfy 5 6

abbrev one : State
one = (enqueue enqueue_well sample false 5 6 start_state).1

account-enqueue_example :
    account req (enqueue enqueue_well sample false 5 6 start_state).1
    ≡ account req start_state
      + (if (enqueue enqueue_well sample false 5 6 start_state).0 && equal sample.request_id req
          then 1
          else 0)
unfolding read_file mem
account-enqueue_example =
    account-enqueue enqueue_well sample false 5 6 start_state (fresh-IsSound ntfy opts) refl refl
      req

one_accepted : Run req start_state one 1
unfolding enqueue make_room count list sort_names insert_name json_names put write write_sync
    commit_tmp rename_file put_file remove_file read_file equal mem has_suffix file_name pad
one_accepted = step start (enqueued enqueue_well sample false 5 6) (refl, refl)

one-IsSound : IsSound one.shared.dir
one-IsSound = (Run-account (fresh-IsSound ntfy opts) one_accepted).1

one-InFlight : InFlight (file_name spooled) spooled one
unfolding enqueue make_room count list sort_names insert_name json_names put write write_sync
    commit_tmp rename_file put_file remove_file read_file equal mem has_suffix file_name pad
one-InFlight = record {
  sound = one-IsSound;
  is_json = refl;
  unstuck = refl;
  own_name = request_id_from_name-file_name spooled;
  present = λ absent. cc (absent);
}

-- An adapter that asks to be called again in 30 units.
abbrev busy : Item → Answer
busy it = send_error (record { kind = Kind.rate_limited; not_before = 30; reason = [] })

account-process_example :
    account req (process attempt_well 6 7 false busy (file_name spooled) spooled one)
    ≡ account req one
account-process_example =
    account-process req attempt_well 6 7 false busy (file_name spooled) spooled one one-InFlight

next-Looked_example : Looked req 9 one (next scan_well 9 (λ _. 9) one)
next-Looked_example = next-Looked req scan_well 9 (λ _. 9) one one-IsSound

one_json : has_suffix (file_name spooled) json ≡ true
one_json = one-InFlight.is_json

one_unstuck : mem (file_name spooled) [] ≡ false
unfolding enqueue put write write_sync commit_tmp
one_unstuck = one-InFlight.unstuck

total-purge_one_example :
    total req [] ntfy (purge_one sweep_well ntfy (file_name spooled) one.shared)
    ≡ total req [] ntfy one.shared
      + (if wins false (file_name spooled) one.shared.dir
            && mem (file_name spooled) []
            && equal (request_id_from_name (file_name spooled)) req
          then 1
          else 0)
total-purge_one_example =
    total-purge_one req [] sweep_well ntfy (file_name spooled) one.shared one-IsSound one_json

pending-terminal_example :
    pending req [] (happen (enqueued enqueue_well sample false 5 6) start_state).shared.dir
      + terminal req ntfy (happen (enqueued enqueue_well sample false 5 6) start_state).shared
    ≡ 1
unfolding enqueue make_room put write write_sync commit_tmp
pending-terminal_example = pending-terminal req ntfy opts one_accepted

-- A refusal that asks for a day is capped at the end of the TTL.
abbrev day : SendError
day = record { kind = Kind.rate_limited; not_before = 86_400_000_000_000; reason = [] }
