-- ===== src/Confedit/Diff.antt =====
-- internal/confedit/diff.go: the line diff of two configuration files.
pub mod Sides
use hubbub.Common.{
  ℕ, zero, suc, ◌+◌, max, Bool, true, false, not, ◌&&◌, ◌||◌, List, [], ◌∷◌, ◌++◌, if◌then◌else◌,
  ◌==◌, leb, length, get_or, any, count_if,
}
use hubbub.Common.Bytes.{Bytes, equal, split_at}
use hubbub.Outbox.Name.{trim_suffix}
use hubbub.Tomledit.Edit.{lf, crlf_to_lf}

pub data Op : Type 0 where
  same del add : Op

pub record DiffLine : Type 0 where
  pub op : Op
  pub text : Bytes

unfoldable pub text_lines : Bytes → List Bytes
text_lines b = let s = trim_suffix (crlf_to_lf b) lf in if equal s [] then [] else split_at b'\n' s

-- A row of the table of common subsequences, from the row below it.
unfoldable pub lcs_row : Bytes → List Bytes → List ℕ → List ℕ
lcs_row x [] below = 0 ∷ []
lcs_row x (y ∷ ys) below =
    let rest = lcs_row x ys (tail below) in
    (if equal x y then get_or below 1 0 + 1 else max (get_or below 0 0) (get_or rest 0 0)) ∷ rest
  where
    tail : List ℕ → List ℕ
    tail [] = []
    tail (n ∷ ns) = ns

zeros : List Bytes → List ℕ
zeros [] = 0 ∷ []
zeros (y ∷ ys) = 0 ∷ zeros ys

unfoldable pub lcs_table : List Bytes → List Bytes → List (List ℕ)
unfolding zeros
lcs_table [] b = zeros b ∷ []
lcs_table (x ∷ a) b = let below = lcs_table a b in lcs_row x b (get_or below 0 []) ∷ below

abbrev pub cell : List (List ℕ) → ℕ → ℕ → ℕ
cell t i j = get_or (get_or t i []) j 0

abbrev pub all_as : Op → List Bytes → List DiffLine
all_as o [] = []
all_as o (x ∷ xs) = record { op = o; text = x } ∷ all_as o xs

-- The walk from cell `i`, `j` with the lines that are left on both sides. Each round takes a line,
-- so the number of all lines is fuel enough.
unfoldable pub walk : List (List ℕ) → ℕ → ℕ → ℕ → List Bytes → List Bytes → List DiffLine
walk t fuel i j [] b = all_as add b
walk t fuel i j (x ∷ a) [] = all_as del (x ∷ a)
walk t zero i j (x ∷ a) (y ∷ b) = []
walk t (suc fuel) i j (x ∷ a) (y ∷ b) =
    let both = walk t fuel (suc i) (suc j) a b in
    let old = walk t fuel (suc i) j a (y ∷ b) in
    let new = walk t fuel i (suc j) (x ∷ a) b in
    if equal x y
    then record { op = same; text = x } ∷ both
    else if leb (cell t i (suc j)) (cell t (suc i) j)
    then record { op = del; text = x } ∷ old
    else record { op = add; text = y } ∷ new

unfoldable pub diff : Bytes → Bytes → List DiffLine
diff before after =
    let a = text_lines before in
    let b = text_lines after in walk (lcs_table a b) (length a + length b) 0 0 a b

abbrev pub is_same : DiffLine → Bool
is_same l = elim l.op [ same ↦ true | del ↦ false | add ↦ false ]

abbrev pub is_del : DiffLine → Bool
is_del l = elim l.op [ same ↦ false | del ↦ true | add ↦ false ]

abbrev pub is_add : DiffLine → Bool
is_add l = elim l.op [ same ↦ false | del ↦ false | add ↦ true ]

abbrev pub changed : List DiffLine → Bool
changed = any (λ l. not (is_same l))

-- `Counts`: the added and the deleted lines.
abbrev pub counts : List DiffLine → ℕ × ℕ
counts d = (count_if is_add d, count_if is_del d)
