-- ===== src/Outbox/Conservation/Finish.antt =====
-- What a claim with its settlement does to the accounts: `finish` of the worker, and a round of the
-- engine's sweeps.
use hubbub.Common.{
  ℕ, ◌+◌, Bool, true, false, not, ◌&&◌, List, some, ◌≡◌, arith, if◌then◌else◌, Option-cases, inl,
  inr,
}
use hubbub.Common.Bytes.{Bytes, equal, mem}
use hubbub.Outbox.Name.{Item, json, has_suffix, request_id_from_name}
use hubbub.Outbox.Spool.{holds, Dir, read_file, remove_file, claim}
use hubbub.Outbox.Spool.Laws.{read_file-remove_file}
use hubbub.Outbox.Registry.{Outcome, resolve}
use hubbub.Outbox.Settle.{Shared, delivery, settle, finish}
use hubbub.Outbox.Conservation.Measure.{
  pending, terminal, terminal-settle, IsUnique, IsUnique-remove_file, pending-remove_file,
}

-- The pending files and the terminal outcomes of request `r` on channel `ch`.
abbrev pub total : Bytes → List Bytes → Bytes → Shared → ℕ
total r stuck ch s = pending r stuck s.dir + terminal r ch s

-- Listed names are unique, and a file is named after the request of the item that it holds.
pub record IsSound (dir : Dir) : Type 0 where
  pub unique : IsUnique dir
  pub named :
      (n : Bytes) (it : Item)
      → has_suffix n json ≡ true
      → read_file n dir ≡ some (holds it)
      → request_id_from_name n ≡ it.notification.request_id

pub IsSound-remove_file : (k : Bytes) {dir : Dir} → IsSound dir → IsSound (remove_file k dir)
IsSound-remove_file k {dir} v = record {
  unique = IsUnique-remove_file k dir v.unique;
  named = λ n it j h. ground (arith, read_file-remove_file n k dir, v.named n it);
}

pub IsSound-claim :
    (fails : Bool) (k : Bytes) {dir : Dir} → IsSound dir → IsSound (claim fails k dir).1
unfolding claim
IsSound-claim true k v = v
IsSound-claim false k {dir} v = elim (Option-cases (read_file k dir)) [
  | inl e ↦ rw e v
  | inr (f, e) ↦ rw e (IsSound-remove_file k v)
]

pub dir-settle :
    (ch req caller : Bytes) (o : Outcome) (s : Shared) → (settle ch req caller o s).dir ≡ s.dir
unfolding settle resolve
dir-settle ch req caller o s = ground arith

module _ (r : Bytes) (stuck : List Bytes) (fails : Bool) (ch name req caller : Bytes) (o : Outcome)
    (metric : Bytes) (s : Shared) where
  abbrev after : Shared
  after = (finish fails ch name req caller o metric s).1

  abbrev removed : Bool
  removed = (finish fails ch name req caller o metric s).0

  -- `finish` leaves in the directory what its claim does.
  pub dir-finish : after.dir ≡ (claim fails name s.dir).1
  unfolding finish claim
  dir-finish = ground (
    arith,
    dir-settle ch req caller o (delivery ch metric (record s { dir = s.dir })),
    dir-settle ch req caller o (delivery ch metric (record s { dir = remove_file name s.dir })),
  )

  -- Where names are unique, `finish` on a `.json` name that is not stuck, for the request of that
  -- name, keeps the account of every request, except that an item with an `ok` outcome whose file
  -- was not removed has its outcome beside its file.
  pub total-finish :
      IsUnique s.dir
      → has_suffix name json ≡ true
      → mem name stuck ≡ false
      → req ≡ request_id_from_name name
      → total r stuck ch after
        ≡ total r stuck ch s + (if o.ok && not removed && equal req r then 1 else 0)
  unfolding finish claim
  total-finish u j m e = ground (
    arith,
    dir-settle ch req caller o (delivery ch metric (record s { dir = s.dir })),
    dir-settle ch req caller o (delivery ch metric (record s { dir = remove_file name s.dir })),
    terminal-settle r ch req caller o (delivery ch metric (record s { dir = s.dir })),
    terminal-settle r ch req caller o
        (delivery ch metric (record s { dir = remove_file name s.dir })),
    pending-remove_file r stuck name s.dir u j,
  )

  -- A file that is reported as left behind is left alone.
  pub dir-finish_left : removed ≡ false → after.dir ≡ s.dir
  unfolding finish claim
  dir-finish_left h =
      ground (arith, dir-settle ch req caller o (delivery ch metric (record s { dir = s.dir })))
