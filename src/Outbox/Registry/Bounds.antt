-- ===== src/Outbox/Registry/Bounds.antt =====
-- Sequences of calls of the registry, and what its channels hold (internal/outbox/registry.go).
use hubbub.Common.{
  ℕ, zero, suc, ◌+◌, ◌≤◌, true, false, List, [], ◌∷◌, ◌++◌, Option, none, some, ◌≡◌, ◌↔◌, refl,
  arith, if◌then◌else◌, length, count_if, get_or, ◌==◌,
}
use hubbub.Common.Bytes.{Bytes, equal_iff, equal_refl}
use hubbub.Outbox.Registry.{
  Outcome, WaiterKey, Sent, Registry, new_registry, same_key, find_waiter, delete_waiter,
  add_waiter, add_waiters, add, hand_over, resolve, delete_waiters, cancel,
}

-- The waiters that channel `c` still has, and the outcomes that were sent on it.
abbrev pub waiting : ℕ → List (WaiterKey × ℕ) → ℕ
waiting c = count_if (λ (w : WaiterKey × ℕ). w.1 == c)

abbrev pub sent_on : ℕ → List Sent → ℕ
sent_on c = count_if (λ (s : Sent). s.chan == c)

abbrev pub IsRoomy : Registry → Type 0
IsRoomy r = (c : ℕ) → waiting c r.waiters + sent_on c r.sent ≤ get_or r.capacities c 0

waiting-delete_waiter :
    (c : ℕ) (k : WaiterKey) (ws : List (WaiterKey × ℕ))
    → waiting c (delete_waiter k ws) ≤ waiting c ws
unfolding delete_waiter
waiting-delete_waiter c k [] = omega arith
waiting-delete_waiter c k ((j, d) ∷ ws) = ground (arith, waiting-delete_waiter c k ws)

-- The waiter that is found is one of those that the deletion takes.
waiting-find_waiter :
    (c d : ℕ) (k : WaiterKey) (ws : List (WaiterKey × ℕ))
    → find_waiter k ws ≡ some d
    → waiting c (delete_waiter k ws) + (if d == c then 1 else 0) ≤ waiting c ws
unfolding find_waiter delete_waiter
waiting-find_waiter c d k [] h = ground arith
waiting-find_waiter c d k ((j, e) ∷ ws) h =
    ground (arith, waiting-find_waiter c d k ws, waiting-delete_waiter c k ws)

waiting-add_waiter :
    (c d : ℕ) (k : WaiterKey) (ws : List (WaiterKey × ℕ))
    → waiting c (add_waiter k d ws) ≤ waiting c ws + (if d == c then 1 else 0)
unfolding add_waiter
waiting-add_waiter c d k ws = ground arith

waiting-add_waiters :
    (c d : ℕ) (id : Bytes) (chs : List Bytes) (ws : List (WaiterKey × ℕ))
    → waiting c (add_waiters id chs d ws) ≤ waiting c ws + (if d == c then length chs else 0)
unfolding add_waiters
waiting-add_waiters c d id [] ws = ground arith
waiting-add_waiters c d id (ch ∷ chs) ws =
    let k : WaiterKey = record { req_id = id; channel = ch } in
    ground (arith, waiting-add_waiters c d id chs (add_waiter k d ws), waiting-add_waiter c d k ws)

waiting-delete_waiters :
    (c : ℕ) (id : Bytes) (chs : List Bytes) (ws : List (WaiterKey × ℕ))
    → waiting c (delete_waiters id chs ws) ≤ waiting c ws
unfolding delete_waiters
waiting-delete_waiters c id [] ws = omega arith
waiting-delete_waiters c id (ch ∷ chs) ws =
    let k : WaiterKey = record { req_id = id; channel = ch } in
    omega
      (arith, waiting-delete_waiters c id chs (delete_waiter k ws), waiting-delete_waiter c k ws)

-- The capacity that an `Add` sets, and those that it leaves.
get_or-concat :
    (xs : List ℕ) (n c : ℕ)
    → get_or (xs ++ n ∷ []) c 0 ≡ get_or xs c 0 + (if length xs == c then n else 0)
get_or-concat [] n zero = ground arith
get_or-concat [] n (suc c) = ground arith
get_or-concat (x ∷ xs) n zero = ground arith
get_or-concat (x ∷ xs) n (suc c) = ground (arith, get_or-concat xs n c)

-- The calls that handlers and workers make, one at a time under the registry's lock.
pub data Call : Type 0 where
  add_call : Bytes → List Bytes → Call
  resolve_call : Bytes → Bytes → Outcome → Call
  cancel_call : Bytes → List Bytes → Call

abbrev pub call : Call → Registry → Registry
call (add_call id chs) r = (add id chs r).1
call (resolve_call id ch o) r = (resolve id ch o r).1
call (cancel_call id chs) r = cancel id chs r

abbrev pub run : List Call → Registry → Registry
run [] r = r
run (x ∷ xs) r = run xs (call x r)

hand_over-IsRoomy :
    (k : WaiterKey) (o : Outcome) (r : Registry) (found : Option ℕ)
    → find_waiter k r.waiters ≡ found
    → IsRoomy r
    → IsRoomy (hand_over k o r found).1
unfolding hand_over
hand_over-IsRoomy k o r none e h c = h c
hand_over-IsRoomy k o r (some d) e h c = omega (arith, h c, waiting-find_waiter c d k r.waiters e)

call-IsRoomy : (x : Call) (r : Registry) → IsRoomy r → IsRoomy (call x r)
unfolding add resolve cancel
call-IsRoomy (add_call id chs) r h c = omega (
  arith,
  h c,
  waiting-add_waiters c (length r.capacities) id chs r.waiters,
  get_or-concat r.capacities (length chs) c,
)
call-IsRoomy (resolve_call id ch o) r h c =
    let k : WaiterKey = record { req_id = id; channel = ch } in
    hand_over-IsRoomy k o r (find_waiter k r.waiters) refl h c
call-IsRoomy (cancel_call id chs) r h c =
    omega (arith, h c, waiting-delete_waiters c id chs r.waiters)

run-IsRoomy : (xs : List Call) (r : Registry) → IsRoomy r → IsRoomy (run xs r)
run-IsRoomy [] r h = h
run-IsRoomy (x ∷ xs) r h = run-IsRoomy xs (call x r) (call-IsRoomy x r h)

-- From a new registry, after any calls of `Add`, `Resolve` and `Cancel` in any order, no channel has
-- been sent more outcomes than its buffer has room for, even if nothing was received from it, so
-- the send in `Resolve` never blocks.
pub run-never_blocks :
    (xs : List Call) (c : ℕ)
    → sent_on c (run xs new_registry).sent ≤ get_or (run xs new_registry).capacities c 0
run-never_blocks xs c = omega (arith, run-IsRoomy xs new_registry (λ d. omega arith) c)

same_key_refl : (k : WaiterKey) → same_key k k ≡ true
unfolding same_key
same_key_refl k = ground (arith, equal_refl k.req_id, equal_refl k.channel)

pub same_key_iff : (a b : WaiterKey) → (same_key a b ≡ true) ↔ (a ≡ b)
unfolding same_key
same_key_iff a b = (
  λ h. ground (arith, h, equal_iff a.req_id b.req_id, equal_iff a.channel b.channel),
  λ e. rw e (same_key_refl b),
)

find_waiter-delete_waiter :
    (j k : WaiterKey) (ws : List (WaiterKey × ℕ))
    → find_waiter j (delete_waiter k ws) ≡ (if same_key k j then none else find_waiter j ws)
unfolding find_waiter delete_waiter
find_waiter-delete_waiter j k [] = ground arith
find_waiter-delete_waiter j k ((i, c) ∷ ws) =
    ground (
      arith,
      find_waiter-delete_waiter j k ws,
      same_key_iff i k,
      same_key_iff i j,
      same_key_iff k j,
    )

-- A waiter is handed one outcome: once `Resolve` has consumed it, a second `Resolve` for the same
-- request and channel reports that nobody waits, and sends nothing.
pub resolve_once :
    (id ch : Bytes) (o again : Outcome) (r : Registry)
    → (resolve id ch o r).0 ≡ true
    → resolve id ch again (resolve id ch o r).1 ≡ (false, (resolve id ch o r).1)
unfolding resolve
resolve_once id ch o again r h =
    let k : WaiterKey = record { req_id = id; channel = ch } in
    ground (arith, find_waiter-delete_waiter k k r.waiters, same_key_refl k)

find_waiter-add_waiter :
    (j k : WaiterKey) (c : ℕ) (ws : List (WaiterKey × ℕ)) {d : ℕ}
    → find_waiter j ws ≡ some d
    → find_waiter j (add_waiter k c ws) ≡ some d
unfolding find_waiter add_waiter
find_waiter-add_waiter j k c ws h = ground (arith, same_key_iff k j)

add_waiters-keeps_first :
    (id : Bytes) (chs : List Bytes) (c : ℕ) (ws : List (WaiterKey × ℕ)) (k : WaiterKey) {d : ℕ}
    → find_waiter k ws ≡ some d
    → find_waiter k (add_waiters id chs c ws) ≡ some d
unfolding add_waiters
add_waiters-keeps_first id [] c ws k h = h
add_waiters-keeps_first id (ch ∷ chs) c ws k h =
    let j : WaiterKey = record { req_id = id; channel = ch } in
    add_waiters-keeps_first id chs c (add_waiter j c ws) k (find_waiter-add_waiter k j c ws h)

-- `Add` never takes a waiter over: whoever waits on a key before the call still does after it.
pub add-keeps_first :
    (id : Bytes) (chs : List Bytes) (r : Registry) (k : WaiterKey) {d : ℕ}
    → find_waiter k r.waiters ≡ some d
    → find_waiter k (add id chs r).1.waiters ≡ some d
unfolding add
add-keeps_first id chs r k h = add_waiters-keeps_first id chs (length r.capacities) r.waiters k h
