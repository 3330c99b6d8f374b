-- ===== src/Outbox/Conservation/Enqueue.antt =====
-- The accounts over `enqueue` and its eviction (internal/outbox/worker.go).
use hubbub.Common.{
  ℕ, ◌+◌, Bool, true, false, ◌&&◌, [], ◌∷◌, ◌++◌, Option, none, some, ◌≡◌, refl, ◌∙◌, arith,
  if◌then◌else◌, Bool-cases, Option-cases, inl, inr, leb,
}
use hubbub.Common.Bytes.{Bytes, codes, equal, equal_iff, mem}
use hubbub.Notify.{Notification}
use hubbub.Outbox.Name.{Item, json, file_name, has_suffix, request_id_from_name}
use hubbub.Outbox.Name.RoundTrip.{request_id_from_name-file_name}
use hubbub.Outbox.Spool.{
  Dir, read_file, claim, WriteFaults, write, put, count, oldest_evictable, tmp,
}
use hubbub.Outbox.Spool.Laws.{read_file-remove_file, write_atomic, read_file-write}
use hubbub.Outbox.Spool.Names.{file_name-json, tmp_not_json}
use hubbub.Outbox.Spool.Order.{oldest_evictable_sound}
use hubbub.Outbox.Settle.{Shared}
use hubbub.Outbox.Worker.{
  Worker, State, EnqueueFaults, outcome, protected, evict, make_room, new_item, enqueue,
}
use hubbub.Outbox.Conservation.Measure.{IsUnique-write, pending-write_new}
use hubbub.Outbox.Conservation.Finish.{total, IsSound, IsSound-claim, dir-finish, total-finish}

-- The account of request `r` on the worker's channel.
abbrev pub account : Bytes → State → ℕ
account r st = total r st.worker.stuck st.worker.channel_id st.shared

pub read_file-claim_none :
    (fails : Bool) (j k : Bytes) (dir : Dir)
    → read_file j dir ≡ none
    → read_file j (claim fails k dir).1 ≡ none
unfolding claim
read_file-claim_none fails j k dir h = ground (arith, read_file-remove_file j k dir)

-- A write keeps the directory sound if it writes an item under a name that carries its request id.
pub IsSound-write :
    (io : WriteFaults) (name : Bytes) (it : Item) (dir : Dir)
    → has_suffix name json ≡ true
    → request_id_from_name name ≡ it.notification.request_id
    → IsSound dir
    → IsSound (write io name it dir).1
IsSound-write io name it dir j e v = record {
  unique = IsUnique-write io name it dir j v.unique;
  named = λ n i k h. ground (
    arith,
    h,
    k,
    e,
    equal_iff name n,
    equal_iff (name ++ tmp) n,
    tmp_not_json name,
    write_atomic io name it dir,
    read_file-write io name it dir n,
    v.named n i,
  );
}

-- What the eviction at the head of `enqueue` may change.
record Kept (r : Bytes) (w : Worker) (s t : Shared) : Type 0 where
  same_total : total r w.stuck w.channel_id t ≡ total r w.stuck w.channel_id s
  sound : IsSound t.dir
  no_new : (n : Bytes) → read_file n s.dir ≡ none → read_file n t.dir ≡ none

Kept-refl : (r : Bytes) (w : Worker) (s : Shared) → IsSound s.dir → Kept r w s s
Kept-refl r w s v = record { same_total = refl; sound = v; no_new = λ n h. h }

not_stuck : (w : Worker) (n : Bytes) → mem n (protected w) ≡ false → mem n w.stuck ≡ false
unfolding mem
not_stuck w n h = ground arith

Kept-evict :
    (r : Bytes) (io : EnqueueFaults) (w : Worker) (victim : Option Bytes) (s : Shared)
    → oldest_evictable io.scan_fails (protected w) s.dir ≡ victim
    → IsSound s.dir
    → Kept r w s (evict io w victim s)
unfolding evict
Kept-evict r io w none s e v = Kept-refl r w s v
Kept-evict r io w (some []) s e v = Kept-refl r w s v
Kept-evict r io w (some (c ∷ cs)) s e v =
    let found = oldest_evictable_sound io.scan_fails (protected w) s.dir c cs e in
    let id = request_id_from_name (c ∷ cs) in
    let o = outcome w.channel_id (codes "dropped: evicted") in
    let d =
      dir-finish r w.stuck (io.claim_fails (c ∷ cs)) w.channel_id (c ∷ cs) id [] o (codes "evicted")
        s in
    record {
      same_total =
          total-finish r w.stuck (io.claim_fails (c ∷ cs)) w.channel_id (c ∷ cs) id [] o
            (codes "evicted") s v.unique found.1 (not_stuck w (c ∷ cs) found.0) refl
          ∙ omega arith;
      sound = rw d (IsSound-claim (io.claim_fails (c ∷ cs)) (c ∷ cs) v);
      no_new = λ n h. rw d (read_file-claim_none (io.claim_fails (c ∷ cs)) n (c ∷ cs) s.dir h);
    }

Kept-make_room :
    (r : Bytes) (io : EnqueueFaults) (w : Worker) (s : Shared)
    → IsSound s.dir
    → Kept r w s (make_room io w s)
unfolding make_room
Kept-make_room r io w s v = elim (Option-cases (count io.count_fails s.dir)) [
  | inl e ↦ rw (make_room, e) (Kept-refl r w s v)
  | inr (n, e) ↦ elim (Bool-cases (leb w.opts.cap_per_channel n)) [
    | inl full ↦ rw (make_room, e, full) (Kept-evict r io w _ s refl v)
    | inr room ↦ rw (make_room, e, room) (Kept-refl r w s v)
  ]
]

module _ (io : EnqueueFaults) (n : Notification) (test : Bool) (now later : ℕ) (st : State)
    (v : IsSound st.shared.dir)
    (fresh : read_file (file_name (new_item n test st.worker.channel_id now later)) st.shared.dir
      ≡ none)
    (unstuck : mem (file_name (new_item n test st.worker.channel_id now later)) st.worker.stuck
      ≡ false) where
  abbrev spooled : Item
  spooled = new_item n test st.worker.channel_id now later

  -- In a sound directory, an enqueue whose file name neither a file nor the stuck set has adds
  -- exactly one account, to the request that it spools and only if it returns without an error.
  -- What it evicts to make room goes from the spool to its outcome, whatever fails.
  pub account-enqueue :
      (r : Bytes)
      → account r (enqueue io n test now later st).1
        ≡ account r st
          + (if (enqueue io n test now later st).0 && equal n.request_id r then 1 else 0)
  unfolding enqueue put
  account-enqueue r =
      let kept = Kept-make_room r io st.worker st.shared v in
      let s = make_room io st.worker st.shared in
      ground (
        arith,
        kept.same_total,
        unstuck,
        request_id_from_name-file_name spooled,
        pending-write_new io.write (file_name spooled) spooled s.dir (file_name-json spooled) r
            st.worker.stuck (kept.no_new (file_name spooled) fresh),
      )

  pub enqueue-IsSound : IsSound (enqueue io n test now later st).1.shared.dir
  unfolding enqueue put
  enqueue-IsSound =
      IsSound-write io.write (file_name spooled) spooled (make_room io st.worker st.shared).dir
        (file_name-json spooled) (request_id_from_name-file_name spooled)
        (Kept-make_room [] io st.worker st.shared v).sound
