-- ===== src/Tomledit/Lines/Cover.antt =====
-- The physical lines, joined again (internal/tomledit/tomledit.go `scan`).
use hubbub.Common.{ℕ, ◌≤◌, List, [], ◌∷◌, ◌++◌, ◌≡◌, refl, arith, length}
use hubbub.Common.Bytes.{Bytes}
use hubbub.Tomledit.Lines.{split_lines, cons_line, skip_basic, skip_literal}

unfoldable pub flatten : List Bytes → Bytes
flatten [] = []
flatten (l ∷ ls) = l ++ flatten ls

flatten-cons_line : (c : ℕ) (ls : List Bytes) → flatten (cons_line c ls) ≡ c ∷ flatten ls
unfolding flatten
flatten-cons_line c [] = refl
flatten-cons_line c (l ∷ ls) = refl

-- Every byte of the file is in one line, in order.
pub flatten-split_lines : (src : Bytes) → flatten (split_lines src) ≡ src
unfolding split_lines flatten
flatten-split_lines [] = refl
flatten-split_lines (c ∷ cs) =
    ground (arith, flatten-split_lines cs, flatten-cons_line c (split_lines cs))

pub skip_basic-le : (cs : Bytes) → skip_basic cs ≤ length cs
unfolding skip_basic
skip_basic-le [] = omega arith
skip_basic-le (c ∷ []) = ground arith
skip_basic-le (c ∷ d ∷ cs) = ground (arith, skip_basic-le cs, skip_basic-le (d ∷ cs))

pub skip_literal-le : (cs : Bytes) → skip_literal cs ≤ length cs
unfolding skip_literal
skip_literal-le [] = omega arith
skip_literal-le (c ∷ cs) = ground (arith, skip_literal-le cs)
