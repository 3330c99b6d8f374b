-- ===== src/Tests/EditTests.antt =====
-- The edit of a configuration file at concrete inputs.
use hubbub.Common.{Bool, true, false, not, [], ◌∷◌, ◌++◌, Option, some, ◌⊎◌, ◌≡◌, refl}
use hubbub.Common.Bytes.{Bytes, codes, equal, has_prefix}
use hubbub.Confedit.Apply.{
  Disk, ApplyFaults, written, conflict, not_synced, stage, commit, last_look, write_out, apply,
  sweep_entries,
}
use hubbub.Confedit.Apply.Pipeline.{IsLive, is_failure, apply_lem, apply-temps}

abbrev works : ApplyFaults
works = record {
  read_fails = false;
  create_fails = false;
  chmod_fails = false;
  write_fails = false;
  sync_fails = false;
  close_fails = false;
  last_read_fails = false;
  rename_fails = false;
  dir_open_fails = false;
  dir_sync_fails = false;
  remove_fails = false;
}

abbrev unsynced : ApplyFaults
unsynced = record works { dir_sync_fails = true }

abbrev not_empty : Bytes → Bool
not_empty s = not (equal s [])

abbrev append_x : Bytes → Option Bytes
append_x src = some (src ++ codes "x")

abbrev disk : Disk
disk = record { file = codes "a"; temps = 0 }

edited :
    apply (λ s. s) not_empty works (codes "a") append_x (λ s. s) disk
    ≡ (written (codes "ax"), record { file = codes "ax"; temps = 0 })
unfolding apply write_out last_look commit stage equal
edited = refl

-- Another write between the first look and the last one wins.
overtaken :
    apply (λ s. s) not_empty works (codes "a") append_x (λ s. codes "b") disk
    ≡ (conflict, record { file = codes "b"; temps = 0 })
unfolding apply write_out last_look commit stage equal
overtaken = refl

-- The error is reported although the edit is in the file.
live_but_failed :
    apply (λ s. s) not_empty unsynced (codes "a") append_x (λ s. s) disk
    ≡ (not_synced, record { file = codes "ax"; temps = 0 })
unfolding apply write_out last_look commit stage equal
live_but_failed = refl

apply_lem_example :
    ((is_failure (apply (λ s. s) not_empty unsynced (codes "a") append_x (λ s. s) disk).0 ≡ true)
      × (((apply (λ s. s) not_empty unsynced (codes "a") append_x (λ s. s) disk).1.file ≡ codes "a")
          ⊎ ((apply (λ s. s) not_empty unsynced (codes "a") append_x (λ s. s) disk).1.file
              ≡ codes "a")))
    ⊎ IsLive
        (λ s. s)
        not_empty
        unsynced
        (codes "a")
        append_x
        (λ s. s)
        disk
        (apply (λ s. s) not_empty unsynced (codes "a") append_x (λ s. s) disk)
apply_lem_example = apply_lem (λ s. s) not_empty unsynced (codes "a") append_x (λ s. s) disk

apply-temps_example :
    (apply (λ s. s) not_empty unsynced (codes "a") append_x (λ s. codes "b") disk).1.temps ≡ 0
apply-temps_example =
    apply-temps (λ s. s) not_empty unsynced (codes "a") append_x (λ s. codes "b") disk refl

swept :
    sweep_entries
      (λ n. false)
      (record { name = codes ".hubbub-edit-1"; is_dir = false }
        ∷ record { name = codes "keys.toml"; is_dir = false }
        ∷ [])
    ≡ (codes ".hubbub-edit-1" ∷ [], record { name = codes "keys.toml"; is_dir = false } ∷ [])
unfolding sweep_entries has_prefix
swept = refl
