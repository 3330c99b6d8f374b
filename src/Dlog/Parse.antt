-- ===== src/Dlog/Parse.antt =====
-- internal/dlog/read.go: `parseRecent`, the fold of log lines into deliveries.
pub mod Rows
pub mod Life
pub mod Lines
pub mod Context
use hubbub.Common.{
  ℕ, zero, suc, ◌+◌, Bool, true, false, List, [], ◌∷◌, ◌++◌, Option, none, some, if◌then◌else◌,
  length, all, map,
}
use hubbub.Common.Bytes.{Bytes, equal, split_at}
use hubbub.Common.Assoc.{Eq, pair_eq, bytes_eq, lookup, insert, remove}
use hubbub.Outbox.Spool.{sort_names}
use hubbub.Tomledit.Edit.{is_ascii_space}
use hubbub.Dlog.{Kind, request, terminal, other, Record, Delivery, truncate}

-- A delivery's request and channel.
abbrev pub Key : Type 0
Key = Bytes × Bytes

-- `out`, `index` and `awaiting`.
pub record Fold : Type 0 where
  pub out : List Delivery
  pub index : List (Key × ℕ)
  pub awaiting : List (Key × Bool)

abbrev pub no_rows : Fold
no_rows = record { out = []; index = []; awaiting = [] }

-- `out[i] = f(out[i])`.
abbrev pub update_at : ℕ → (Delivery → Delivery) → List Delivery → List Delivery
update_at i f [] = []
update_at zero f (d ∷ ds) = f d ∷ ds
update_at (suc i) f (d ∷ ds) = d ∷ update_at i f ds

abbrev pub reversed : List Bytes → List Bytes
reversed [] = []
reversed (x ∷ xs) = reversed xs ++ x ∷ []

-- The keys of a Go map, each once, in descending order.
unfoldable pub sorted_channels : List (Bytes × Bytes) → List Bytes
sorted_channels m = reversed (sort_names (map (λ (p : Bytes × Bytes). p.0) m))

-- What a missing key of `r.Channels` reads as.
abbrev pub outcome_in : Bytes → List (Bytes × Bytes) → Bytes
outcome_in ch m = elim (lookup ch m) [ none ↦ [] | some o ↦ o ]

-- A request line for a row that a terminal line made.
abbrev pub merge : Record → Delivery → Delivery
merge r d = record d {
  settled = d.time;
  time = truncate r.time;
  title = r.title;
  priority = r.priority;
  caller_id = (if equal d.caller_id [] then r.caller_id else d.caller_id);
}

abbrev pub requested : Record → Bytes → Delivery
requested r ch = record {
  time = truncate r.time;
  settled = 0;
  request_id = r.request_id;
  caller_id = r.caller_id;
  channel = ch;
  title = r.title;
  priority = r.priority;
  outcome = outcome_in ch r.channels;
}

-- One channel of a request line.
unfoldable pub see_request : Record → Bytes → Fold → Fold
see_request r ch st = elim (lookup (r.request_id, ch) st.index) [
  | none ↦ record st {
    out = st.out ++ requested r ch ∷ [];
    index = insert (r.request_id, ch) (length st.out) st.index;
  }
  | some i ↦ elim (lookup (r.request_id, ch) st.awaiting) [
    | none ↦ st
    | some w ↦ record st {
      out = update_at i (merge r) st.out;
      awaiting = remove (r.request_id, ch) st.awaiting;
    }
  ]
]

abbrev pub settled_by : Record → Delivery → Delivery
settled_by r d = record d { outcome = r.outcome; settled = truncate r.time }

abbrev pub terminated : Record → Delivery
terminated r = record {
  time = truncate r.time;
  settled = 0;
  request_id = r.request_id;
  caller_id = r.caller_id;
  channel = r.channel;
  title = [];
  priority = [];
  outcome = r.outcome;
}

unfoldable pub see_terminal : Record → Fold → Fold
see_terminal r st = elim (lookup (r.request_id, r.channel) st.index) [
  | some i ↦ record st { out = update_at i (settled_by r) st.out }
  | none ↦ record {
    out = st.out ++ terminated r ∷ [];
    index = insert (r.request_id, r.channel) (length st.out) st.index;
    awaiting = insert (r.request_id, r.channel) true st.awaiting;
  }
]

unfoldable pub see_channels : Record → List Bytes → Fold → Fold
see_channels r [] st = st
see_channels r (ch ∷ chs) st = see_channels r chs (see_request r ch st)

see_kind : Kind → Record → Fold → Fold
see_kind request r st = see_channels r (sorted_channels r.channels) st
see_kind terminal r st = see_terminal r st
see_kind (other name) r st = st

unfoldable pub see : Record → Fold → Fold
unfolding see_kind
see r st = see_kind r.kind r st

unfoldable pub see_all : List Record → Fold → Fold
see_all [] st = st
see_all (r ∷ rs) st = see_all rs (see r st)

-- The lines of a buffer, without the tail end of a record that was cut off.
abbrev pub behind_first : List Bytes → List Bytes
behind_first [] = []
behind_first (l ∷ ls) = ls

abbrev pub whole_lines : Bytes → Bool → List Bytes
whole_lines buf cut = if cut then behind_first (split_at b'\n' buf) else split_at b'\n' buf

module _ (decode : Bytes → Option Record) where
  -- The records of the lines that are not blank and that decode. White space beyond ASCII is no
  -- JSON, so a line of it is left out either way.
  unfoldable pub records : List Bytes → List Record
  records [] = []
  records (l ∷ ls) =
      let more = records ls in
      if all is_ascii_space l then more else elim (decode l) [ none ↦ more | some r ↦ r ∷ more ]

  unfoldable pub parse_rows : Bytes → Bool → List Delivery
  parse_rows buf cut = (see_all (records (whole_lines buf cut)) no_rows).out
