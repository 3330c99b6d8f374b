-- ===== src/Outbox/Conservation/Queue.antt =====
-- The accounts over the scan for the next item (internal/outbox/worker.go `next`).
use hubbub.Common.{
  ℕ, ◌+◌, ◌≤◌, Bool, true, false, not, ◌&&◌, List, [], ◌∷◌, some, ◌≡◌, refl, ap, ◌∙◌, arith,
  Bool-cases, Option-cases, inl, inr, select, count_if, ltb, all,
}
use hubbub.Common.Bytes.{Bytes, codes, equal, equal_iff, equal_refl, mem}
use hubbub.Outbox.Name.{Item, json, has_suffix, request_id_from_name}
use hubbub.Outbox.Spool.{holds, read_file, remove_file, claim, json_names, load, is_corrupt, list}
use hubbub.Outbox.Spool.Laws.{Load-cases, load-loaded, read_file-remove_file}
use hubbub.Outbox.Spool.Order.{list-json}
use hubbub.Outbox.Worker.{
  State, outcome, NextFaults, Look, passed, taken, forget, due, look_load, look, scan_next, next,
  not_before_of, prune_hold, second,
}
use hubbub.Outbox.Conservation.Measure.{
  pending_name, terminal, occurrences, occurrences-none, pending-remove_file,
}
use hubbub.Outbox.Conservation.Finish.{
  IsSound, IsSound-remove_file, IsSound-claim, dir-finish, total-finish,
}
use hubbub.Outbox.Conservation.Enqueue.{account}
use hubbub.Outbox.Conservation.Attempts.{InFlight}

abbrev without : Bytes → List Bytes → List Bytes
without name = select (λ n. not (equal n name))

mem-without :
    (n name : Bytes) (stuck : List Bytes)
    → mem n (without name stuck) ≡ (mem n stuck && not (equal n name))
unfolding mem
mem-without n name [] = refl
mem-without n name (x ∷ xs) =
    ground (arith, mem-without n name xs, equal_iff x name, equal_iff n x, equal_iff n name)

-- Forgetting a stuck name that is no longer listed changes no count.
pending-without :
    (r name : Bytes) (stuck ns : List Bytes)
    → occurrences name ns ≡ 0
    → count_if (pending_name r (without name stuck)) ns ≡ count_if (pending_name r stuck) ns
pending-without r name stuck [] h = refl
pending-without r name stuck (n ∷ ns) h =
    ground (arith, pending-without r name stuck ns, mem-without n name stuck)

abbrev pub end_state : Look → State
end_state (passed w st) = st
end_state (taken n it st) = st

-- What is known of a taken item: it is in flight, under its own name, and its not-before has come.
abbrev pub Takes : ℕ → Look → Type 0
Takes now (passed w st) = Unit {0}
Takes now (taken n it st) =
    InFlight n it st × (st.worker.in_flight ≡ n) × (not_before_of n it st.worker ≤ now)

-- What a look, and a scan, does with the accounts.
pub record Looked (r : Bytes) (now : ℕ) (st : State) (l : Look) : Type 0 where
  pub same : account r (end_state l) ≡ account r st
  pub sound : IsSound (end_state l).shared.dir
  pub takes : Takes now l

Looked-passed :
    {r : Bytes} {st : State} (now w : ℕ) (st' : State)
    → account r st' ≡ account r st
    → IsSound st'.shared.dir
    → Looked r now st (passed w st')
Looked-passed now w st' e v = record { same = e; sound = v; takes = tt }

module _ (r : Bytes) (name : Bytes) (st : State) (v : IsSound st.shared.dir)
    (j : has_suffix name json ≡ true) where
  account-forget :
      (fails : Bool)
      → mem name st.worker.stuck ≡ true
      → account r (forget name st (claim fails name st.shared.dir)) ≡ account r st
  unfolding forget claim
  account-forget true m = refl
  account-forget false m = elim (Option-cases (read_file name st.shared.dir)) [
    | inl e ↦ rw e (
        ap (λ k. k + terminal r st.worker.channel_id st.shared)
          (pending-without r name st.worker.stuck (json_names st.shared.dir)
            (occurrences-none name st.shared.dir e)))
    | inr (f, e) ↦ rw e (
        ground (
          arith,
          m,
          read_file-remove_file name name st.shared.dir,
          equal_refl name,
          pending-without r name st.worker.stuck (json_names (remove_file name st.shared.dir)),
          occurrences-none name (remove_file name st.shared.dir),
          pending-remove_file r st.worker.stuck name st.shared.dir v.unique j,
        ))
  ]

  forget-IsSound :
      (fails : Bool) → IsSound (forget name st (claim fails name st.shared.dir)).shared.dir
  unfolding forget claim
  forget-IsSound true = v
  forget-IsSound false = elim (Option-cases (read_file name st.shared.dir)) [
    | inl e ↦ rw e v
    | inr (f, e) ↦ rw e (IsSound-remove_file name v)
  ]

  Looked-due :
      (now until wait : ℕ) (it : Item)
      → read_file name st.shared.dir ≡ some (holds it)
      → mem name st.worker.stuck ≡ false
      → Looked r now st (due now until name wait st it)
  unfolding due
  Looked-due now until wait it p m = elim (Bool-cases (ltb now (not_before_of name it st.worker))) [
    | inl later ↦ rw later (Looked-passed now _ st refl v)
    | inr ready ↦ rw ready (record {
      same = refl;
      sound = v;
      takes = (
        record {
          sound = v;
          is_json = j;
          unstuck = m;
          own_name = v.named name it j p;
          present = λ absent. cc (p, absent);
        },
        refl,
        ground arith,
      );
    })
  ]

  Looked-corrupt :
      (io : NextFaults) (now until wait : ℕ)
      → mem name st.worker.stuck ≡ false
      → Looked r now st (look_load io now until name wait st is_corrupt)
  unfolding look_load
  Looked-corrupt io now until wait m =
      let ch = st.worker.channel_id in
      let o = outcome ch (codes "dropped: corrupt") in
      let fails = io.claim_fails name in
      let id = request_id_from_name name in
      Looked-passed now wait _
        (total-finish r st.worker.stuck fails ch name id [] o (codes "corrupt") st.shared v.unique j
            m refl
          ∙ omega arith)
        (rw (dir-finish r st.worker.stuck fails ch name id [] o (codes "corrupt") st.shared)
          (IsSound-claim fails name v))

  Looked-look :
      (io : NextFaults) (now until wait : ℕ) → Looked r now st (look io now until name wait st)
  unfolding look
  Looked-look io now until wait = elim (Bool-cases (mem name st.worker.stuck)) [
    | inl stuck ↦ rw stuck (
        Looked-passed now wait _ (account-forget (io.claim_fails name) stuck)
          (forget-IsSound (io.claim_fails name)))
    | inr other ↦ elim (Load-cases (load (io.read_fails name) name st.shared.dir)) [
      | inl e ↦ rw (other, e) (unfold look_load in Looked-passed now wait st refl v)
      | inr (inl e) ↦ rw (other, e) (Looked-corrupt io now until wait other)
      | inr (inr (it, e)) ↦
          rw (other, e)
            (unfold look_load in
              Looked-due now until wait it
                (load-loaded (io.read_fails name) name st.shared.dir it e) other)
    ]
  ]

Looked-more :
    {r : Bytes} {now : ℕ} {st st' : State} {l : Look}
    → account r st' ≡ account r st
    → Looked r now st' l
    → Looked r now st l
Looked-more e k = record { same = k.same ∙ e; sound = k.sound; takes = k.takes }

module _ (r : Bytes) (io : NextFaults) (now : ℕ) (until : Bytes → ℕ) where
  Looked-scan :
      (names : List Bytes) (wait : ℕ) (st : State)
      → IsSound st.shared.dir
      → all (λ n. has_suffix n json) names ≡ true
      → Looked r now st (scan_next io now until names wait st)
  unfolding scan_next
  Looked-scan [] wait st v h = Looked-passed now wait st refl v
  Looked-scan (n ∷ names) wait st v h =
      go (look io now (until n) n wait st)
        (Looked-look r n st v (ground arith) io now (until n) wait) (λ w s. Looked-scan names w s)
    where
      go :
          (l : Look)
          → Looked r now st l
          → ((w : ℕ) (s : State)
              → IsSound s.shared.dir
              → all (λ m. has_suffix m json) names ≡ true
              → Looked r now s (scan_next io now until names w s))
          → Looked r now st (elim l [
            | passed w s ↦ scan_next io now until names w s
            | taken m it s ↦ taken m it s
          ])
      go (passed w s) k rest = Looked-more k.same (rest w s k.sound (ground arith))
      go (taken m it s) k rest = k

-- In a sound directory, a scan for the next item keeps the account of every request and a sound
-- directory, whatever fails during it, and an item that it takes is noted as in flight, due, not
-- stuck, and on disk under its own name.
pub next-Looked :
    (r : Bytes) (io : NextFaults) (now : ℕ) (until : Bytes → ℕ) (st : State)
    → IsSound st.shared.dir
    → Looked r now st (next io now until st)
unfolding next
next-Looked r io now until st v = elim (Option-cases (list io.list_fails st.shared.dir)) [
  | inl e ↦ rw (next, e) (Looked-passed now second st refl v)
  | inr (names, e) ↦
      rw (next, e)
        (Looked-more refl (
          Looked-scan r io now until names second
            (record st { worker = record st.worker { hold = prune_hold names st.worker.hold } }) v
            (list-json io.list_fails st.shared.dir names e)))
]
