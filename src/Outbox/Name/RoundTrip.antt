-- ===== src/Outbox/Name/RoundTrip.antt =====
-- What the name of an item says of it: its request id, its enqueue time, and its place in the queue.
use mathlib.Core.List.{concat-ne-nil}
use native.Mathlib.Nat.{pow-suc}
use hubbub.Common.{
  ℕ, zero, suc, ◌+◌, ◌-◌, ◌*◌, ◌/◌, ◌%◌, ◌^◌, ◌≤◌, ◌<◌, Bool, true, false, not, [], ◌∷◌, ◌++◌, some,
  ◌≡◌, refl, ◌≢◌, ◌⊎◌, inl, inr, ap, ◌∙◌, arith, if◌then◌else◌, leb, ◌==◌, within, length,
  length-append, take-append, drop-append, all, append_assoc,
}
use hubbub.Common.Bytes.{Bytes, equal_refl, cut_at, less}
use hubbub.Outbox.Name.{
  Item, pad, json, dash, file_name, has_suffix, trim_suffix, split_name, request_id_from_name,
  max_int64, digits_value, parse_int, enqueue_nanos_from_name,
}

pub cut_at-append :
    (b : ℕ) (xs r : Bytes)
    → all (λ c. not (c == b)) xs ≡ true
    → cut_at b (xs ++ b ∷ r) ≡ some (xs, r)
unfolding cut_at
cut_at-append b [] r h = ground arith
cut_at-append b (x ∷ xs) r h = ground (arith, cut_at-append b xs r)

pub trim_suffix-append : (s end : Bytes) → trim_suffix (s ++ end) end ≡ s
unfolding trim_suffix has_suffix
trim_suffix-append s end =
    let e : length (s ++ end) - length end ≡ length s = omega (arith, length-append s end) in
    let l : leb (length end) (length (s ++ end)) ≡ true = ground (arith, length-append s end) in
    rw (e, l, drop-append, equal_refl) (take-append s end)

all-append :
    (p : ℕ → Bool) (xs ys : Bytes) → all p xs ≡ true → all p ys ≡ true → all p (xs ++ ys) ≡ true
all-append p [] ys h k = k
all-append p (x ∷ xs) ys h k = ground (arith, all-append p xs ys)

pad_no_dash : (k n : ℕ) → all (λ c. not (c == dash)) (pad k n) ≡ true
unfolding pad
pad_no_dash zero n = refl
pad_no_dash (suc k) n = all-append _ (pad k (n / 10)) _ (pad_no_dash k (n / 10)) (ground arith)

split_name-parts :
    (class : ℕ) (nanos id : Bytes)
    → (class == dash) ≡ false
    → all (λ c. not (c == dash)) nanos ≡ true
    → split_name (class ∷ dash ∷ (nanos ++ dash ∷ id)) ≡ some (class ∷ [], nanos, id)
unfolding split_name
split_name-parts class nanos id hc hn = rw (
  split_name,
  cut_at-append dash (class ∷ []) (nanos ++ dash ∷ id) (ground arith),
  cut_at-append dash nanos id hn,
)

split_name-file_name :
    (it : Item)
    → split_name (trim_suffix (file_name it) json)
      ≡ some
          ((if it.test then b'0' else b'1') ∷ [], pad 20 it.enqueued_at, it.notification.request_id)
unfolding file_name
split_name-file_name it = rw trim_suffix-append (
    split_name-parts (if it.test then b'0' else b'1') (pad 20 it.enqueued_at)
      it.notification.request_id (ground arith) (pad_no_dash 20 it.enqueued_at))

-- The name that `fileName` writes gives back the item's request id, whatever bytes the id holds.
pub request_id_from_name-file_name :
    (it : Item) → request_id_from_name (file_name it) ≡ it.notification.request_id
unfolding request_id_from_name
request_id_from_name-file_name it = rw (request_id_from_name, split_name-file_name it)

digits_value-append :
    (acc : ℕ) (xs ys : Bytes) (v : ℕ)
    → digits_value acc xs ≡ some v
    → digits_value acc (xs ++ ys) ≡ digits_value v ys
unfolding digits_value
digits_value-append acc [] ys v h = ground arith
digits_value-append acc (x ∷ xs) ys v h =
    ground (arith, digits_value-append (acc * 10 + (x - b'0')) xs ys v)

digits_value-digit : (acc d : ℕ) → d < 10 → digits_value acc ((48 + d) ∷ []) ≡ some (acc * 10 + d)
unfolding digits_value
digits_value-digit acc d h = ground arith

digits_value-pad : (k acc n : ℕ) → n < 10 ^ k → digits_value acc (pad k n) ≡ some (acc * 10 ^ k + n)
unfolding pad
digits_value-pad zero acc n h =
    let e : acc * 1 + n ≡ acc = omega arith in rw e (unfold digits_value in refl)
digits_value-pad (suc k) acc n h =
    let below : n / 10 < 10 ^ k = omega (arith, pow-suc 10 k) in
    rw (digits_value-append acc (pad k (n / 10)) _ _ (digits_value-pad k acc (n / 10) below))
      (rw (digits_value-digit _ (n % 10) (omega arith), pow-suc) (ap some (omega arith)))

abbrev is_digit : ℕ → Bool
is_digit c = within b'0' b'9' c

pad_digits : (k n : ℕ) → all is_digit (pad k n) ≡ true
unfolding pad
pad_digits zero n = refl
pad_digits (suc k) n = all-append _ (pad k (n / 10)) _ (pad_digits k (n / 10)) (ground arith)

parse_int-digits :
    (s : Bytes) (v : ℕ)
    → s ≢ []
    → all is_digit s ≡ true
    → digits_value 0 s ≡ some v
    → v ≤ max_int64
    → parse_int s ≡ some v
unfolding parse_int
parse_int-digits [] v ne d h b = absurd (ne refl)
parse_int-digits (c ∷ cs) v ne d h b = rw h (ground arith)

pad-ne-nil : (k n : ℕ) → pad (suc k) n ≢ []
unfolding pad
pad-ne-nil k n = concat-ne-nil _ (pad k (n / 10))

-- The name that `fileName` writes gives back the item's enqueue time, for every time from 0 that an
-- `int64` holds.
pub enqueue_nanos_from_name-file_name :
    (it : Item)
    → it.enqueued_at ≤ max_int64
    → enqueue_nanos_from_name (file_name it) ≡ some it.enqueued_at
unfolding enqueue_nanos_from_name
enqueue_nanos_from_name-file_name it h =
    rw (enqueue_nanos_from_name, split_name-file_name it)
      (parse_int-digits (pad 20 it.enqueued_at) it.enqueued_at (pad-ne-nil 19 it.enqueued_at)
        (pad_digits 20 it.enqueued_at)
        (digits_value-pad 20 0 it.enqueued_at (omega arith) ∙ ap some (omega arith)) h)

less-append : (p a b : Bytes) → less (p ++ a) (p ++ b) ≡ less a b
unfolding less
less-append [] a b = refl
less-append (x ∷ p) a b = ground (arith, less-append p a b)

lt_or_eq : (m n : ℕ) → m ≤ n → (m < n) ⊎ (m ≡ n)
lt_or_eq m n h = omega arith

less-pad :
    (k m n : ℕ) (r s : Bytes) → m < n → n < 10 ^ k → less (pad k m ++ r) (pad k n ++ s) ≡ true
unfolding pad
less-pad zero m n r s h b = absurd (omega arith)
less-pad (suc k) m n r s h b =
    rw (append_assoc (pad k (m / 10)), append_assoc (pad k (n / 10)))
      (elim (lt_or_eq (m / 10) (n / 10) (omega arith)) [
        | inl l ↦ less-pad k (m / 10) (n / 10) _ _ l (omega (arith, pow-suc 10 k))
        | inr e ↦ rw (e, less-append (pad k (n / 10))) (unfold less in ground arith)
      ])

-- The byte order of names is the order of classes, then of enqueue times: the name of a test send
-- precedes that of any other item, and of two items of one class the earlier one's name precedes,
-- when the later item's time is one that an `int64` holds.
pub less-file_name :
    (a b : Item)
    → b.enqueued_at ≤ max_int64
    → ((a.test ≡ true) × (b.test ≡ false)) ⊎ ((a.test ≡ b.test) × (a.enqueued_at < b.enqueued_at))
    → less (file_name a) (file_name b) ≡ true
unfolding file_name
less-file_name a b h c =
    rw (append_assoc (pad 20 a.enqueued_at), append_assoc (pad 20 b.enqueued_at))
      (unfold less in
        ground (
          arith,
          less-pad 20 a.enqueued_at b.enqueued_at (dash ∷ (a.notification.request_id ++ json))
              (dash ∷ (b.notification.request_id ++ json)),
        ))
