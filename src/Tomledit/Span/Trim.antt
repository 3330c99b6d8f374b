-- ===== src/Tomledit/Span/Trim.antt =====
-- Where `trimTrailing` ends a block (internal/tomledit/tomledit.go).
use hubbub.Common.{
  ℕ, zero, suc, ◌-◌, ◌≤◌, ◌<◌, Bool, true, not, ◌||◌, List, some, ◌≡◌, ◌⊎◌, inl, inr, arith, leb,
  Bool-cases,
}
use hubbub.Tomledit.Scan.{Line, is_comment, is_blank}
use hubbub.Tomledit.Span.{line_at, back_while, trim_loop, trim_trailing}

pub back_while-le :
    (test : Line → Bool) (lines : List Line) (h m : ℕ) → back_while test lines h m ≤ m
unfolding back_while
back_while-le test lines h zero = omega arith
back_while-le test lines h (suc m) = ground (arith, back_while-le test lines h m)

pub back_while-ge :
    (test : Line → Bool) (lines : List Line) (h m : ℕ) → h ≤ m → h ≤ back_while test lines h m
unfolding back_while
back_while-ge test lines h zero l = omega arith
back_while-ge test lines h (suc m) l = ground (arith, back_while-ge test lines h m)

le_suc_cases : (i m : ℕ) → i ≤ suc m → (i ≤ m) ⊎ (i ≡ suc m)
le_suc_cases i m h = omega arith

-- What the walk passes over passes the test.
pub back_while-passes :
    (test : Line → Bool) (lines : List Line) (h m i : ℕ)
    → back_while test lines h m < i
    → i ≤ m
    → test (line_at lines i) ≡ true
unfolding back_while
back_while-passes test lines h zero i l u = absurd (omega arith)
back_while-passes test lines h (suc m) i l u = elim (le_suc_cases i m u) [
  | inl below ↦ ground (arith, back_while-passes test lines h m i)
  | inr top ↦ rw top (ground (arith, top))
]

-- A test line above the header is passed over.
pub back_while-moves :
    (test : Line → Bool) (lines : List Line) (h m : ℕ)
    → h < m
    → test (line_at lines m) ≡ true
    → back_while test lines h m < m
unfolding back_while
back_while-moves test lines h zero l t = absurd (omega arith)
back_while-moves test lines h (suc m) l t = ground (arith, back_while-le test lines h m)

-- With more fuel than `m` the loop returns.
pub trim_loop-total :
    (fuel : ℕ) (lines : List Line) (h m : ℕ)
    → m < fuel
    → (r : ℕ) × (trim_loop fuel lines h m ≡ some r)
unfolding trim_loop
trim_loop-total zero lines h m l = elim l [ ]
trim_loop-total (suc fuel) lines h m l =
    let m' = back_while is_blank lines h m in
    let j = back_while is_comment lines h m' in
    elim (Bool-cases (leb m' h || not (is_comment (line_at lines m')))) [
      | inl over ↦ (m', rw over)
      | inr run ↦ elim (Bool-cases (not (is_blank (line_at lines j)))) [
        | inl attached ↦ (m', rw (run, attached))
        | inr apart ↦
            rw (run, apart)
              (trim_loop-total fuel lines h j (
                ground (
                  arith,
                  back_while-le is_blank lines h m,
                  back_while-moves is_comment lines h m',
                )))
      ]
    ]

pub trim_loop-bounds :
    (fuel : ℕ) (lines : List Line) (h m : ℕ) {r : ℕ}
    → h ≤ m
    → trim_loop fuel lines h m ≡ some r
    → (h ≤ r) × (r ≤ m)
unfolding trim_loop
trim_loop-bounds zero lines h m l e = cc
trim_loop-bounds (suc fuel) lines h m {r} l e =
    let m' = back_while is_blank lines h m in
    let j = back_while is_comment lines h m' in
    ground (
      arith,
      back_while-le is_blank lines h m,
      back_while-ge is_blank lines h m,
      back_while-le is_comment lines h m',
      back_while-ge is_comment lines h m',
      trim_loop-bounds fuel lines h j {r = r},
    )

-- Every line that the loop leaves out is blank or a comment.
abbrev pub IsTrimmed : Line → Type 0
IsTrimmed l = (is_blank l ≡ true) ⊎ (is_comment l ≡ true)

pub trim_loop-IsTrimmed :
    (fuel : ℕ) (lines : List Line) (h m : ℕ) {r : ℕ} (i : ℕ)
    → trim_loop fuel lines h m ≡ some r
    → r < i
    → i ≤ m
    → IsTrimmed (line_at lines i)
unfolding trim_loop
trim_loop-IsTrimmed zero lines h m i e l u = cc
trim_loop-IsTrimmed (suc fuel) lines h m {r} i e l u =
    let m' = back_while is_blank lines h m in
    let j = back_while is_comment lines h m' in
    ground (
      arith,
      back_while-passes is_blank lines h m i,
      back_while-passes is_comment lines h m' i,
      trim_loop-IsTrimmed fuel lines h j {r = r} i,
    )

pub trim_trailing_lem :
    (lines : List Line) (h next : ℕ)
    → h < next
    → (m : ℕ) × (trim_loop next lines h (next - 1) ≡ some m) × (trim_trailing lines h next ≡ m)
unfolding trim_trailing
trim_trailing_lem lines h next l =
    let (m, e) = trim_loop-total next lines h (next - 1) (omega arith) in
    (
      m,
      e,
      rw (trim_trailing, e)
          (omega (arith, trim_loop-bounds next lines h (next - 1) {r = m} (omega arith) e)),
    )

pub trim_trailing_bounds :
    (lines : List Line) (h next : ℕ)
    → h < next
    → (h ≤ trim_trailing lines h next) × (trim_trailing lines h next < next)
trim_trailing_bounds lines h next l =
    let (m, e, r) = trim_trailing_lem lines h next l in
    let b = trim_loop-bounds next lines h (next - 1) (omega arith) e in
    rw r (b.0, omega (arith, b.1))

le_or_gt : (m n : ℕ) → (m ≤ n) ⊎ (n < m)
le_or_gt m n = omega arith

-- Where `trimTrailing` ends a block with a header at line `h` and the next header at a later line
-- `next`: not before its header, before the next header, and so that each line `i` in front of the
-- next header is in the block or is blank or a comment outside any value. So a block never loses a
-- line of a value, and never takes a line of the next table.
pub trim_trailing-keeps_values :
    (lines : List Line) (h next i : ℕ)
    → h < next
    → i < next
    → (h ≤ trim_trailing lines h next)
      × (trim_trailing lines h next < next)
      × ((i ≤ trim_trailing lines h next) ⊎ IsTrimmed (line_at lines i))
trim_trailing-keeps_values lines h next i l u =
    let (m, e, r) = trim_trailing_lem lines h next l in
    let b = trim_trailing_bounds lines h next l in
    (
      b.0,
      b.1,
      elim (le_or_gt i m) [
        | inl inside ↦ inl (rw r inside)
        | inr behind ↦ inr (trim_loop-IsTrimmed next lines h (next - 1) i e behind (omega arith))
      ],
    )
