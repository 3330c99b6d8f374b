-- ===== src/Confedit/Diff/Sides.antt =====
-- The two files that a diff shows (internal/confedit/diff.go).
use hubbub.Common.{
  ℕ, zero, suc, ◌+◌, ◌≤◌, false, List, [], ◌∷◌, ◌≡◌, refl, arith, sym, ◌∙◌, if◌then◌else◌, length,
}
use hubbub.Common.Bytes.{Bytes, equal_iff}
use hubbub.Confedit.Diff.{
  del, add, DiffLine, text_lines, lcs_table, all_as, walk, diff, is_del, is_add, changed, counts,
}

-- The lines of the file as it was, and as it would be.
abbrev pub old_side : List DiffLine → List Bytes
old_side [] = []
old_side (l ∷ ls) = let rest = old_side ls in if is_add l then rest else l.text ∷ rest

abbrev pub new_side : List DiffLine → List Bytes
new_side [] = []
new_side (l ∷ ls) = let rest = new_side ls in if is_del l then rest else l.text ∷ rest

sides-add : (b : List Bytes) → (old_side (all_as add b) ≡ []) × (new_side (all_as add b) ≡ b)
sides-add [] = (refl, refl)
sides-add (y ∷ b) = ground (arith, sides-add b)

sides-del : (a : List Bytes) → (old_side (all_as del a) ≡ a) × (new_side (all_as del a) ≡ [])
sides-del [] = (refl, refl)
sides-del (x ∷ a) = ground (arith, sides-del a)

sides-walk :
    (t : List (List ℕ)) (fuel i j : ℕ) (a b : List Bytes)
    → length a + length b ≤ fuel
    → (old_side (walk t fuel i j a b) ≡ a) × (new_side (walk t fuel i j a b) ≡ b)
unfolding walk
sides-walk t fuel i j [] b h = sides-add b
sides-walk t fuel i j (x ∷ a) [] h = sides-del (x ∷ a)
sides-walk t zero i j (x ∷ a) (y ∷ b) h = absurd (omega arith)
sides-walk t (suc fuel) i j (x ∷ a) (y ∷ b) h = ground (
  arith,
  equal_iff x y,
  sides-walk t fuel (suc i) (suc j) a b,
  sides-walk t fuel (suc i) j a (y ∷ b),
  sides-walk t fuel i (suc j) (x ∷ a) b,
)

-- The unchanged and deleted lines of a diff are the lines of the file as it was, and the unchanged
-- and added ones those of the file as it would be, each in order: no line is left out of a diff.
pub diff-sides :
    (before after : Bytes)
    → (old_side (diff before after) ≡ text_lines before)
      × (new_side (diff before after) ≡ text_lines after)
unfolding diff
diff-sides before after =
    let a = text_lines before in
    let b = text_lines after in
    sides-walk (lcs_table a b) (length a + length b) 0 0 a b (omega arith)

sides-unchanged : (d : List DiffLine) → changed d ≡ false → old_side d ≡ new_side d
sides-unchanged [] h = refl
sides-unchanged (l ∷ ls) h = ground (arith, sides-unchanged ls)

-- A diff that reports no change is of two files with the same lines.
pub diff-unchanged :
    (before after : Bytes)
    → changed (diff before after) ≡ false
    → text_lines before ≡ text_lines after
diff-unchanged before after h =
    let (old, new) = diff-sides before after in
    sym old ∙ sides-unchanged (diff before after) h ∙ new

sides-counts :
    (d : List DiffLine) → length (new_side d) + (counts d).1 ≡ length (old_side d) + (counts d).0
sides-counts [] = refl
sides-counts (l ∷ ls) = ground (arith, sides-counts ls)

-- The numbers of added and deleted lines account for the difference of the files' lengths.
pub diff-counts :
    (before after : Bytes)
    → length (text_lines after) + (counts (diff before after)).1
      ≡ length (text_lines before) + (counts (diff before after)).0
diff-counts before after =
    let (old, new) = diff-sides before after in rw (← old, ← new) (sides-counts (diff before after))
