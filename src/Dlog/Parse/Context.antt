-- ===== src/Dlog/Parse/Context.antt =====
-- What a row reports, from the lines that name its delivery.
use hubbub.Common.{
  ℕ, get_elem?, Bool, true, false, List, [], ◌∷◌, Option, none, some, ◌≡◌, refl, ap, ◌∙◌, arith,
  if◌then◌else◌, Option-cases,
}
use hubbub.Common.Bytes.{Bytes, equal}
use hubbub.Common.Assoc.{bytes_eq, pair_beq, lookup}
use hubbub.Dlog.{Kind, request, terminal, other, Record, Delivery, truncate}
use hubbub.Dlog.Parse.{Key, outcome_in, merge, requested, settled_by, terminated}
use hubbub.Dlog.Parse.Life.{Cell, accept, settle, live_kind, live_all}
use hubbub.Dlog.Parse.Lines.{told, parse_rows-told}
use hubbub.Dlog.Parse.Rows.{key_of}
use hubbub.Dlog.Parse.{records, whole_lines, parse_rows}

-- What a line is to a delivery.
pub data Role : Type 0 where
  asks ends neither : Role

abbrev role_kind : Kind → Record → Key → Role
role_kind request r k =
    if equal r.request_id k.0
    then (elim (lookup k.1 r.channels) [ none ↦ neither | some o ↦ asks ])
    else neither
role_kind terminal r k = if pair_beq (r.request_id, r.channel) k then ends else neither
role_kind (other name) r k = neither

abbrev pub role : Key → Record → Role
role k r = role_kind r.kind r k

-- The request line that counts, and the terminal line that does.
unfoldable pub first_request : Key → List Record → Option Record
first_request k [] = none
first_request k (r ∷ rs) = elim (role k r) [
  | asks ↦ some r
  | ends ↦ first_request k rs
  | neither ↦ first_request k rs
]

unfoldable pub last_terminal : Key → List Record → Option Record
last_terminal k [] = none
last_terminal k (r ∷ rs) = elim (last_terminal k rs) [
  | some t ↦ some t
  | none ↦ (elim (role k r) [ ends ↦ some r | asks ↦ none | neither ↦ none ])
]

abbrev pub or_else : {A : Type 0} → (Record → A) → Option Record → A → A
or_else f none a = a
or_else f (some r) a = f r

abbrev play : Role → Record → Key → Cell → Cell
play asks r k c = accept r k c
play ends r k c = settle r c
play neither r k c = c

live_kind-play :
    (kd : Kind) (r : Record) (k : Key) (c : Cell)
    → live_kind kd r k c ≡ play (role_kind kd r k) r k c
live_kind-play request r k c = ground arith
live_kind-play terminal r k c = ground arith
live_kind-play (other name) r k c = refl

-- What becomes of a row.
record Becomes (k : Key) (rs : List Record) (d : Delivery) (w : Bool) (e : Delivery) : Type 0 where
  outcome_last : e.outcome ≡ or_else (λ t. t.outcome) (last_terminal k rs) d.outcome
  title_first :
      e.title ≡ (if w then or_else (λ r. r.title) (first_request k rs) d.title else d.title)
  priority_first :
      e.priority
      ≡ (if w then or_else (λ r. r.priority) (first_request k rs) d.priority else d.priority)
  time_first :
      e.time ≡ (if w then or_else (λ r. truncate r.time) (first_request k rs) d.time else d.time)

abbrev Result : Key → List Record → Delivery → Bool → Type 0
Result k rs d w =
    (e : Delivery) × (x : Bool) × (live_all k rs (some (d, w)) ≡ some (e, x)) × Becomes k rs d w e

live_all-cons :
    (k : Key) (r : Record) (rs : List Record) (c : Cell) {q : Role}
    → role k r ≡ q
    → live_all k (r ∷ rs) c ≡ live_all k rs (play q r k c)
live_all-cons k r rs c h =
    ap (live_all k rs) (live_kind-play r.kind r k c ∙ ap (λ q. play q r k c) h)

Becomes-cons :
    (k : Key) (r : Record) (rs : List Record) (d : Delivery) (w : Bool) (q : Role)
    → role k r ≡ q
    → ((d : Delivery) (w : Bool) → Result k rs d w)
    → Result k (r ∷ rs) d w
unfolding first_request last_terminal
Becomes-cons k r rs d true asks h ih =
    let (e, x, g, b) = ih (merge r d) false in
    (
      e,
      x,
      live_all-cons k r rs (some (d, true)) h ∙ g,
      record {
        outcome_last = ground (arith, h, b.outcome_last);
        title_first = ground (arith, h, b.title_first);
        priority_first = ground (arith, h, b.priority_first);
        time_first = ground (arith, h, b.time_first);
      },
    )
Becomes-cons k r rs d false asks h ih =
    let (e, x, g, b) = ih d false in
    (
      e,
      x,
      live_all-cons k r rs (some (d, false)) h ∙ g,
      record {
        outcome_last = ground (arith, h, b.outcome_last);
        title_first = b.title_first;
        priority_first = b.priority_first;
        time_first = b.time_first;
      },
    )
Becomes-cons k r rs d w ends h ih =
    let (e, x, g, b) = ih (settled_by r d) w in
    (
      e,
      x,
      live_all-cons k r rs (some (d, w)) h ∙ g,
      record {
        outcome_last = ground (arith, h, b.outcome_last);
        title_first = ground (arith, h, b.title_first);
        priority_first = ground (arith, h, b.priority_first);
        time_first = ground (arith, h, b.time_first);
      },
    )
Becomes-cons k r rs d w neither h ih =
    let (e, x, g, b) = ih d w in
    (
      e,
      x,
      live_all-cons k r rs (some (d, w)) h ∙ g,
      record {
        outcome_last = ground (arith, h, b.outcome_last);
        title_first = ground (arith, h, b.title_first);
        priority_first = ground (arith, h, b.priority_first);
        time_first = ground (arith, h, b.time_first);
      },
    )

becomes : (k : Key) (rs : List Record) (d : Delivery) (w : Bool) → Result k rs d w
becomes k [] d w =
    unfold first_request last_terminal in
    (
      d,
      w,
      refl,
      record {
        outcome_last = refl;
        title_first = ground arith;
        priority_first = ground arith;
        time_first = ground arith;
      },
    )
becomes k (r ∷ rs) d w = Becomes-cons k r rs d w (role k r) refl (becomes k rs)

abbrev Tells : Key → List Record → Delivery → Type 0
Tells k rs d =
    (d.outcome
      ≡ or_else (λ t. t.outcome) (last_terminal k rs)
          (or_else (λ r. outcome_in k.1 r.channels) (first_request k rs) []))
    × (d.title ≡ or_else (λ r. r.title) (first_request k rs) [])
    × (d.priority ≡ or_else (λ r. r.priority) (first_request k rs) [])
    × (d.time ≡ or_else (λ r. truncate r.time) (first_request k rs) d.time)

Tells-cons :
    (k : Key) (r : Record) (rs : List Record) (d : Delivery) (q : Role)
    → role k r ≡ q
    → told k (r ∷ rs) ≡ some d
    → (told k rs ≡ some d → Tells k rs d)
    → Tells k (r ∷ rs) d
unfolding first_request last_terminal
Tells-cons k r rs d asks h t ih =
    let (e, x, g, b) = becomes k rs (requested r k.1) false in
    let same : d ≡ e = ground (arith, t, g, live_all-cons k r rs none h) in
    rw (same) (
      ground (arith, h, b.outcome_last),
      ground (arith, h, b.title_first),
      ground (arith, h, b.priority_first),
      ground (arith, h, b.time_first, Option-cases (first_request k rs)),
    )
Tells-cons k r rs d ends h t ih =
    let (e, x, g, b) = becomes k rs (terminated r) true in
    let same : d ≡ e = ground (arith, t, g, live_all-cons k r rs none h) in
    rw (same) (
      ground (arith, h, b.outcome_last),
      ground (arith, h, b.title_first),
      ground (arith, h, b.priority_first),
      ground (arith, h, b.time_first, Option-cases (first_request k rs)),
    )
Tells-cons k r rs d neither h t ih =
    let (o, n, p, m) = ih (ground (arith, t, live_all-cons k r rs none h)) in
    (ground (arith, h, o), ground (arith, h, n), ground (arith, h, p), ground (arith, h, m))

told-lines : (k : Key) (rs : List Record) (d : Delivery) → told k rs ≡ some d → Tells k rs d
told-lines k [] d h = ground (arith, h)
told-lines k (r ∷ rs) d h = Tells-cons k r rs d (role k r) refl h (told-lines k rs d)

module _ (decode : Bytes → Option Record) where
  -- A row reports the outcome of the last terminal line that names its delivery, and without one what
  -- the first request line recorded for the channel. Its title, its priority and its time are those of
  -- the first request line, wherever that stands among the terminal lines; without one the title and
  -- the priority are empty.
  pub parse_rows-lines :
      (buf : Bytes) (cut : Bool) (i : ℕ) (d : Delivery)
      → get_elem? (parse_rows decode buf cut) i ≡ some d
      → let rs = records decode (whole_lines buf cut) in
        (d.outcome
          ≡ or_else
              (λ t. t.outcome)
              (last_terminal (key_of d) rs)
              (or_else (λ r. outcome_in d.channel r.channels) (first_request (key_of d) rs) []))
        × (d.title ≡ or_else (λ r. r.title) (first_request (key_of d) rs) [])
        × (d.priority ≡ or_else (λ r. r.priority) (first_request (key_of d) rs) [])
        × (d.time ≡ or_else (λ r. truncate r.time) (first_request (key_of d) rs) d.time)
  parse_rows-lines buf cut i d h =
      told-lines (key_of d) (records decode (whole_lines buf cut)) d
        ((parse_rows-told decode buf cut).0 i d h)
