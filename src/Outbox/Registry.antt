-- ===== src/Outbox/Registry.antt =====
-- internal/outbox/registry.go: the waiters of the request handlers. A Go channel is an index into
-- `capacities`; what was sent on it stays in `sent` with the key that it was sent for, so `sent` is
-- a history: receiving from a channel, which only makes room, is not modelled.
pub mod Bounds
use hubbub.Common.{
  ℕ, ◌+◌, Bool, true, false, ◌&&◌, List, [], ◌∷◌, ◌++◌, Option, none, some, if◌then◌else◌, length,
}
use hubbub.Common.Bytes.{Bytes, equal}

pub record Outcome : Type 0 where
  pub channel : Bytes
  pub status : Bytes
  pub ok : Bool

pub record WaiterKey : Type 0 where
  pub req_id : Bytes
  pub channel : Bytes

pub record Sent : Type 0 where
  pub key : WaiterKey
  pub chan : ℕ
  pub outcome : Outcome

pub record Registry : Type 0 where
  pub waiters : List (WaiterKey × ℕ)
  pub capacities : List ℕ
  pub sent : List Sent

abbrev pub new_registry : Registry
new_registry = record { waiters = []; capacities = []; sent = [] }

unfoldable pub same_key : WaiterKey → WaiterKey → Bool
same_key a b = equal a.req_id b.req_id && equal a.channel b.channel

unfoldable pub find_waiter : WaiterKey → List (WaiterKey × ℕ) → Option ℕ
find_waiter k [] = none
find_waiter k ((j, c) ∷ ws) = if same_key j k then some c else find_waiter k ws

-- `delete(r.waiters, k)`.
unfoldable pub delete_waiter : WaiterKey → List (WaiterKey × ℕ) → List (WaiterKey × ℕ)
delete_waiter k [] = []
delete_waiter k ((j, c) ∷ ws) =
    let rest = delete_waiter k ws in if same_key j k then rest else (j, c) ∷ rest

-- One round of the loop of `Add`: a key that is taken keeps its first waiter.
unfoldable pub add_waiter : WaiterKey → ℕ → List (WaiterKey × ℕ) → List (WaiterKey × ℕ)
add_waiter k c ws = elim (find_waiter k ws) [ some taken ↦ ws | none ↦ (k, c) ∷ ws ]

unfoldable pub add_waiters : Bytes → List Bytes → ℕ → List (WaiterKey × ℕ) → List (WaiterKey × ℕ)
add_waiters id [] c ws = ws
add_waiters id (ch ∷ chs) c ws =
    add_waiters id chs c (add_waiter (record { req_id = id; channel = ch }) c ws)

-- `Add`; the result is the new channel.
unfoldable pub add : Bytes → List Bytes → Registry → ℕ × Registry
add id chs r = (
  length r.capacities,
  record r {
    waiters = add_waiters id chs (length r.capacities) r.waiters;
    capacities = r.capacities ++ length chs ∷ [];
  },
)

unfoldable pub hand_over : WaiterKey → Outcome → Registry → Option ℕ → Bool × Registry
hand_over k o r none = (false, r)
hand_over k o r (some c) = (
  true,
  record r {
    waiters = delete_waiter k r.waiters;
    sent = record { key = k; chan = c; outcome = o } ∷ r.sent;
  },
)

unfoldable pub resolve : Bytes → Bytes → Outcome → Registry → Bool × Registry
unfolding hand_over
resolve id ch o r =
    let k : WaiterKey = record { req_id = id; channel = ch } in
    hand_over k o r (find_waiter k r.waiters)

unfoldable pub delete_waiters : Bytes → List Bytes → List (WaiterKey × ℕ) → List (WaiterKey × ℕ)
delete_waiters id [] ws = ws
delete_waiters id (ch ∷ chs) ws =
    delete_waiters id chs (delete_waiter (record { req_id = id; channel = ch }) ws)

unfoldable pub cancel : Bytes → List Bytes → Registry → Registry
cancel id chs r = record r { waiters = delete_waiters id chs r.waiters }
