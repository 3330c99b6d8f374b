-- ===== src/Tests/Samples.antt =====
-- Test data that the tests share.
use hubbub.Common.{ℕ, Bool, true, false, []}
use hubbub.Common.Bytes.{codes}
use hubbub.Notify.{Notification, Priority}
use hubbub.Outbox.Name.{Item}
use hubbub.Outbox.Spool.{WriteFaults}
use hubbub.Outbox.Worker.{Options, EnqueueFaults, NextFaults}
use hubbub.Outbox.Worker.Attempt.{AttemptFaults}
use hubbub.Outbox.Worker.Sweep.{SweepFaults}
use hubbub.Outbox.Registry.{Outcome}

abbrev pub sample : Notification
sample = record {
  title = codes "t";
  message = codes "m";
  html = [];
  priority = Priority.default;
  tags = [];
  caller_id = codes "cron";
  request_id = codes "r_1a";
  created_at = 0;
}

abbrev pub item_at : Bool → ℕ → Item
item_at test now = record {
  notification = sample;
  channel = codes "ntfy";
  attempts = 0;
  not_before = now;
  enqueued_at = now;
  test = test;
}

abbrev pub opts : Options
opts = record { ttl = 1000; cap_per_channel = 2 }

abbrev pub no_fault : WriteFaults
no_fault = record {
  open_fails = false;
  write_fails = false;
  sync_fails = false;
  close_fails = false;
  rename_fails = false;
  remove_fails = false;
}

abbrev pub enqueue_well : EnqueueFaults
enqueue_well = record {
  count_fails = false;
  scan_fails = false;
  claim_fails = λ _. false;
  write = no_fault;
}

abbrev pub scan_well : NextFaults
scan_well = record { list_fails = false; read_fails = λ _. false; claim_fails = λ _. false }

abbrev pub attempt_well : AttemptFaults
attempt_well = record { claim_fails = false; write = no_fault }

abbrev pub delivered_outcome : Outcome
delivered_outcome = record { channel = codes "ntfy"; status = codes "delivered"; ok = true }

abbrev pub late_outcome : Outcome
late_outcome = record { channel = codes "ntfy"; status = codes "dropped: expired"; ok = false }

abbrev pub sweep_well : SweepFaults
sweep_well = record { list_fails = false; read_fails = λ _. false; claim_fails = λ _. false }
