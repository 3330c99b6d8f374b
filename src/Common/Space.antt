-- ===== src/Common/Space.antt =====
-- `strings.TrimSpace` on the bytes of a string, which need not be valid UTF-8: a white space character
-- goes if all of its bytes are there.
use hubbub.Common.{
  ℕ, zero, suc, ◌-◌, Bool, true, false, ◌&&◌, List, [], ◌∷◌, if◌then◌else◌, ◌==◌, length,
}
use hubbub.Common.Bytes.{Bytes}

-- The characters with the Unicode property White_Space, in UTF-8.
abbrev white_space : List Bytes
white_space =
    (0x09 ∷ [])
    ∷ (0x0a ∷ [])
    ∷ (0x0b ∷ [])
    ∷ (0x0c ∷ [])
    ∷ (0x0d ∷ [])
    ∷ (0x20 ∷ [])
    ∷ (0xc2 ∷ 0x85 ∷ [])
    ∷ (0xc2 ∷ 0xa0 ∷ [])
    ∷ (0xe1 ∷ 0x9a ∷ 0x80 ∷ [])
    ∷ (0xe2 ∷ 0x80 ∷ 0x80 ∷ [])
    ∷ (0xe2 ∷ 0x80 ∷ 0x81 ∷ [])
    ∷ (0xe2 ∷ 0x80 ∷ 0x82 ∷ [])
    ∷ (0xe2 ∷ 0x80 ∷ 0x83 ∷ [])
    ∷ (0xe2 ∷ 0x80 ∷ 0x84 ∷ [])
    ∷ (0xe2 ∷ 0x80 ∷ 0x85 ∷ [])
    ∷ (0xe2 ∷ 0x80 ∷ 0x86 ∷ [])
    ∷ (0xe2 ∷ 0x80 ∷ 0x87 ∷ [])
    ∷ (0xe2 ∷ 0x80 ∷ 0x88 ∷ [])
    ∷ (0xe2 ∷ 0x80 ∷ 0x89 ∷ [])
    ∷ (0xe2 ∷ 0x80 ∷ 0x8a ∷ [])
    ∷ (0xe2 ∷ 0x80 ∷ 0xa8 ∷ [])
    ∷ (0xe2 ∷ 0x80 ∷ 0xa9 ∷ [])
    ∷ (0xe2 ∷ 0x80 ∷ 0xaf ∷ [])
    ∷ (0xe2 ∷ 0x81 ∷ 0x9f ∷ [])
    ∷ (0xe3 ∷ 0x80 ∷ 0x80 ∷ [])
    ∷ []

abbrev starts : Bytes → Bytes → Bool
starts s [] = true
starts [] (c ∷ cs) = false
starts (d ∷ s) (c ∷ cs) = d == c && starts s cs

-- The length of the character of the list at the start of a text, 0 if there is none.
abbrev width : List Bytes → Bytes → ℕ
width [] s = 0
width (w ∷ ws) s = let rest = width ws s in if starts s w then length w else rest

-- A text without the characters of the list at its start; the number is of bytes still to skip.
abbrev strip : List Bytes → ℕ → Bytes → Bytes
strip ws n [] = []
strip ws (suc n) (c ∷ cs) = strip ws n cs
strip ws zero (c ∷ cs) =
    let n = width ws (c ∷ cs) in let rest = strip ws (n - 1) cs in if n == 0 then c ∷ cs else rest

-- A text back to front, in front of another one.
abbrev onto : Bytes → Bytes → Bytes
onto [] t = t
onto (c ∷ s) t = onto s (c ∷ t)

abbrev each_reversed : List Bytes → List Bytes
each_reversed [] = []
each_reversed (w ∷ ws) = onto w [] ∷ each_reversed ws

unfoldable pub trim_space : Bytes → Bytes
trim_space s = onto (strip (each_reversed white_space) 0 (onto (strip white_space 0 s) [])) []
