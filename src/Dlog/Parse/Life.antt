-- ===== src/Dlog/Parse/Life.antt =====
-- The fold of `parseRecent` against the life of a single delivery.
use hubbub.Common.{
  ℕ, Bool, true, false, List, [], ◌∷◌, Option, none, some, ◌≡◌, inl, inr, refl, ap, ◌∙◌, arith,
  if◌then◌else◌, length, Option-cases,
}
use hubbub.Common.Bytes.{Bytes, equal}
use hubbub.Common.Assoc.{
  pair_eq, bytes_eq, pair_beq, pair_beq_iff, lookup, insert, remove, lookup-insert, lookup-remove,
}
use hubbub.Dlog.{Kind, request, terminal, other, Record, Delivery}
use hubbub.Dlog.Parse.{
  Key, Fold, merge, requested, see_request, settled_by, terminated, see_terminal, see_channels,
}
use hubbub.Dlog.Parse.Rows.{
  row, IsIndexed, appended, updated, row-appended, appended-IsIndexed, row-updated,
  updated-IsIndexed,
}

-- What is known of one delivery: its row, and whether that still waits for its request line.
abbrev pub Cell : Type 0
Cell = Option (Delivery × Bool)

abbrev pub cell_of : Option Delivery → Option Bool → Cell
cell_of none w = none
cell_of (some d) none = some (d, false)
cell_of (some d) (some w) = some (d, true)

abbrev pub cell : Key → Fold → Cell
cell k st = cell_of (row k st.out st.index) (lookup k st.awaiting)

-- A request line that names the delivery. A second one changes nothing.
abbrev pub accept : Record → Key → Cell → Cell
accept r k none = some (requested r k.1, false)
accept r k (some (d, true)) = some (merge r d, false)
accept r k (some (d, false)) = some (d, false)

-- A terminal line that names the delivery.
abbrev pub settle : Record → Cell → Cell
settle r none = some (terminated r, true)
settle r (some (d, w)) = some (settled_by r d, w)

abbrev pub live_kind : Kind → Record → Key → Cell → Cell
live_kind request r k c =
    if equal r.request_id k.0
    then (elim (lookup k.1 r.channels) [ none ↦ c | some o ↦ accept r k c ])
    else c
live_kind terminal r k c = if pair_beq (r.request_id, r.channel) k then settle r c else c
live_kind (other name) r k c = c

-- One line, for one delivery.
abbrev pub live : Key → Record → Cell → Cell
live k r c = live_kind r.kind r k c

abbrev pub live_all : Key → List Record → Cell → Cell
live_all k [] c = c
live_all k (r ∷ rs) c = live_all k rs (live k r c)

see_terminal_new :
    (r : Record) (st : Fold)
    → lookup (r.request_id, r.channel) st.index ≡ none
    → see_terminal r st
      ≡ appended st (terminated r) (insert (r.request_id, r.channel) true st.awaiting)
unfolding see_terminal
see_terminal_new r st h = ground (arith, h)

see_terminal_old :
    (r : Record) (st : Fold) (i : ℕ)
    → (at : lookup (r.request_id, r.channel) st.index ≡ some i)
    → see_terminal r st ≡ updated st i (settled_by r) st.awaiting
unfolding see_terminal
see_terminal_old r st i h = ground (arith, h)

see_terminal-IsIndexed : (r : Record) (st : Fold) → IsIndexed st → IsIndexed (see_terminal r st)
see_terminal-IsIndexed r st v = elim (Option-cases (lookup (r.request_id, r.channel) st.index)) [
  | inl h ↦
      rw (see_terminal_new r st h) (
        appended-IsIndexed st (terminated r) (insert (r.request_id, r.channel) true st.awaiting) v
          h)
  | inr (i, h) ↦
      rw (see_terminal_old r st i h) (
        updated-IsIndexed st (r.request_id, r.channel) i (settled_by r) st.awaiting v h (λ d. refl))
]

pub cell-see_terminal :
    (r : Record) (st : Fold)
    → IsIndexed st
    → (k : Key)
    → cell k (see_terminal r st)
      ≡ (if pair_beq (r.request_id, r.channel) k then settle r (cell k st) else cell k st)
cell-see_terminal r st v k = elim (Option-cases (lookup (r.request_id, r.channel) st.index)) [
  | inl h ↦
      ap (cell k) (see_terminal_new r st h)
      ∙ ground (
        arith,
        h,
        row-appended st (terminated r) (insert (r.request_id, r.channel) true st.awaiting) v h k,
        lookup-insert k (r.request_id, r.channel) true st.awaiting,
        pair_beq_iff (r.request_id, r.channel) k,
      )
  | inr (i, h) ↦
      let (d, g, q) = v.indexed (r.request_id, r.channel) i h in
      ap (cell k) (see_terminal_old r st i h)
      ∙ ground (
        arith,
        h,
        g,
        pair_beq_iff (r.request_id, r.channel) k,
        row-updated st (r.request_id, r.channel) i (settled_by r) st.awaiting v h (λ d. refl) k,
      )
]

see_request_new :
    (r : Record) (ch : Bytes) (st : Fold)
    → lookup (r.request_id, ch) st.index ≡ none
    → see_request r ch st ≡ appended st (requested r ch) st.awaiting
unfolding see_request
see_request_new r ch st h = ground (arith, h)

see_request_again :
    (r : Record) (ch : Bytes) (st : Fold) (i : ℕ)
    → lookup (r.request_id, ch) st.index ≡ some i
    → lookup (r.request_id, ch) st.awaiting ≡ none
    → see_request r ch st ≡ st
unfolding see_request
see_request_again r ch st i h w = ground (arith, h, w)

see_request_merges :
    (r : Record) (ch : Bytes) (st : Fold) (i : ℕ) (b : Bool)
    → lookup (r.request_id, ch) st.index ≡ some i
    → lookup (r.request_id, ch) st.awaiting ≡ some b
    → see_request r ch st ≡ updated st i (merge r) (remove (r.request_id, ch) st.awaiting)
unfolding see_request
see_request_merges r ch st i b h w = ground (arith, h, w)

see_request-IsIndexed :
    (r : Record) (ch : Bytes) (st : Fold) → IsIndexed st → IsIndexed (see_request r ch st)
see_request-IsIndexed r ch st v = elim (Option-cases (lookup (r.request_id, ch) st.index)) [
  | inl h ↦ rw (see_request_new r ch st h) (appended-IsIndexed st (requested r ch) st.awaiting v h)
  | inr (i, h) ↦ elim (Option-cases (lookup (r.request_id, ch) st.awaiting)) [
    | inl w ↦ rw (see_request_again r ch st i h w) v
    | inr (b, w) ↦ rw (see_request_merges r ch st i b h w) (
        updated-IsIndexed st (r.request_id, ch) i (merge r) (remove (r.request_id, ch) st.awaiting)
          v h (λ d. refl))
  ]
]

-- A delivery that still waits for its request line has a row.
pub record IsTracked (st : Fold) : Type 0 where
  pub rows : IsIndexed st
  pub waiting : (k : Key) → lookup k st.index ≡ none → lookup k st.awaiting ≡ none

pub cell-see_request :
    (r : Record) (ch : Bytes) (st : Fold)
    → IsTracked st
    → (k : Key)
    → cell k (see_request r ch st)
      ≡ (if pair_beq (r.request_id, ch) k then accept r k (cell k st) else cell k st)
cell-see_request r ch st v k = elim (Option-cases (lookup (r.request_id, ch) st.index)) [
  | inl h ↦
      ap (cell k) (see_request_new r ch st h)
      ∙ ground (
        arith,
        h,
        v.waiting k,
        row-appended st (requested r ch) st.awaiting v.rows h k,
        pair_beq_iff (r.request_id, ch) k,
      )
  | inr (i, h) ↦
      let (d, g, q) = v.rows.indexed (r.request_id, ch) i h in
      elim (Option-cases (lookup (r.request_id, ch) st.awaiting)) [
        | inl w ↦
            ap (cell k) (see_request_again r ch st i h w)
            ∙ ground (arith, h, w, g, pair_beq_iff (r.request_id, ch) k)
        | inr (b, w) ↦
            ap (cell k) (see_request_merges r ch st i b h w)
            ∙ ground (
              arith,
              h,
              w,
              g,
              pair_beq_iff (r.request_id, ch) k,
              lookup-remove k (r.request_id, ch) st.awaiting,
              row-updated st (r.request_id, ch) i (merge r) (remove (r.request_id, ch) st.awaiting)
                  v.rows h (λ d. refl) k,
            )
      ]
]

pub see_terminal-IsTracked : (r : Record) (st : Fold) → IsTracked st → IsTracked (see_terminal r st)
see_terminal-IsTracked r st v = record {
  rows = see_terminal-IsIndexed r st v.rows;
  waiting = λ k.
      unfold see_terminal in
      elim (Option-cases (lookup (r.request_id, r.channel) st.index)) [
        | inl h ↦ λ e. ground (
          arith,
          h,
          v.waiting k,
          lookup-insert k (r.request_id, r.channel) true st.awaiting,
          lookup-insert k (r.request_id, r.channel) (length st.out) st.index,
        )
        | inr (i, h) ↦ λ e. ground (arith, h, v.waiting k)
      ];
}

pub see_request-IsTracked :
    (r : Record) (ch : Bytes) (st : Fold) → IsTracked st → IsTracked (see_request r ch st)
see_request-IsTracked r ch st v = record {
  rows = see_request-IsIndexed r ch st v.rows;
  waiting = λ k.
      unfold see_request in
      elim (Option-cases (lookup (r.request_id, ch) st.index)) [
        | inl h ↦ λ e.
            ground
              (arith, h, v.waiting k, lookup-insert k (r.request_id, ch) (length st.out) st.index)
        | inr (i, h) ↦ λ e. ground (
          arith,
          h,
          v.waiting k,
          lookup-remove k (r.request_id, ch) st.awaiting,
          Option-cases (lookup (r.request_id, ch) st.awaiting),
        )
      ];
}

pub see_channels-IsTracked :
    (r : Record) (chs : List Bytes) (st : Fold) → IsTracked st → IsTracked (see_channels r chs st)
unfolding see_channels
see_channels-IsTracked r [] st v = v
see_channels-IsTracked r (ch ∷ chs) st v =
    see_channels-IsTracked r chs (see_request r ch st) (see_request-IsTracked r ch st v)
