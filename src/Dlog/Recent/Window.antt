-- ===== src/Dlog/Recent/Window.antt =====
-- The window of the log that a read looks at.
use hubbub.Common.{
  ℕ, zero, suc, ◌-◌, ◌*◌, ◌^◌, ◌<◌, ◌≤◌, Bool, true, false, not, ◌&&◌, ◌||◌, List, [], ◌∷◌, ◌++◌,
  Option, none, some, ◌⊎◌, ◌≡◌, inl, inr, refl, arith, if◌then◌else◌, ltb, leb, ◌==◌, length, take,
  drop, Bool-cases,
}
use hubbub.Common.Bytes.{Bytes, codes, equal, split_at}
use hubbub.Dlog.{Record, Query}
use hubbub.Dlog.Parse.{behind_first, whole_lines, parse_rows}
use hubbub.Dlog.Page.{Page, page}
use hubbub.Dlog.Recent.{
  View, cut_lead, last_bytes, tail, ReadResult, answered, read_failed, max_tail_bytes, grow, recent,
}

-- There is a first line.
split_at_lem : (b : ℕ) (s : Bytes) → (l : Bytes) × (ls : List Bytes) × (split_at b s ≡ l ∷ ls)
unfolding split_at
split_at_lem b [] = ([], [], refl)
split_at_lem b (c ∷ s) =
    let (l, ls, g) = split_at_lem b s in
    elim (Bool-cases (c == b)) [
      | inl e ↦ ([], split_at b s, ground (arith, e))
      | inr e ↦ (c ∷ l, ls, ground (arith, e, g))
    ]

-- The lines from a byte on are the last ones of the file, and a line is before them.
split_at-drop :
    (n b : ℕ) (file : Bytes) (c : ℕ) (buf : Bytes)
    → drop n file ≡ c ∷ buf
    → (l : Bytes) × (ls : List Bytes) × (l ∷ ls
          ++ (if c == b then split_at b buf else behind_first (split_at b buf))
        ≡ split_at b file)
unfolding split_at
split_at-drop zero b [] c buf h = ground (arith, h)
split_at-drop zero b (x ∷ xs) c buf h = elim (Bool-cases (c == b)) [
  | inl e ↦ ([], [], ground (arith, h, e))
  | inr e ↦ let (l, ls, g) = split_at_lem b buf in (c ∷ l, [], ground (arith, h, e, g))
]
split_at-drop (suc n) b [] c buf h = ground (arith, h)
split_at-drop (suc n) b (x ∷ xs) c buf h =
    let (l, ls, g) = split_at-drop n b xs c buf h in
    elim (Bool-cases (x == b)) [
      | inl e ↦ ([], l ∷ ls, ground (arith, g, e))
      | inr e ↦ (x ∷ l, ls, ground (arith, g, e))
    ]

drop_lem : (n : ℕ) (s : Bytes) → n < length s → (c : ℕ) × (buf : Bytes) × (drop n s ≡ c ∷ buf)
drop_lem n [] h = ground (arith, h)
drop_lem zero (c ∷ s) h = (c, s, refl)
drop_lem (suc n) (c ∷ s) h = drop_lem n s (ground (arith, h))

-- The lines of the last bytes are the last lines of the log, none of them cut.
last_bytes-whole_lines :
    (max : ℕ) (file : Bytes)
    → (earlier : List Bytes) × (earlier
          ++ whole_lines (last_bytes max file).0 (last_bytes max file).1
        ≡ split_at b'\n' file)
      × (ltb max (length file) ≡ not (length earlier == 0))
unfolding last_bytes cut_lead
last_bytes-whole_lines max file = elim (Bool-cases (ltb max (length file))) [
  | inr e ↦ ([], ground (arith, e), ground (arith, e))
  | inl e ↦
      let (c, buf, h) = drop_lem (length file - max - 1) file (ground (arith, e)) in
      let (l, ls, g) = split_at-drop (length file - max - 1) b'\n' file c buf h in
      (l ∷ ls, ground (arith, e, h, g), ground (arith, e))
]

-- Either a system call fails, and so does `tail`; or the lines that it takes are the last lines of the
-- log, none of them cut, and they are all of them exactly if the log fits in the window.
pub tail-whole_lines :
    (max : ℕ) (v : View)
    → ((v.stat_fails || v.read_fails ≡ true) × (tail max v ≡ none))
      ⊎ ((buf : Bytes) × (cut : Bool) × (earlier : List Bytes) × (tail max v ≡ some (buf, cut))
          × (earlier ++ whole_lines buf cut ≡ split_at b'\n' v.file)
          × (ltb max (length v.file) ≡ not (length earlier == 0)))
unfolding tail
tail-whole_lines max v = elim (Bool-cases (v.stat_fails || v.read_fails)) [
  | inl e ↦ inl (e, ground (arith, e))
  | inr e ↦
      let (earlier, l, n) = last_bytes-whole_lines max v.file in
      inr ((last_bytes max v.file).0, (last_bytes max v.file).1, earlier, ground (arith, e), l, n)
]

-- The byte in front of a window ends a line.
abbrev pub starts_at_line : ℕ → Bytes → Bool
starts_at_line w file = equal (take 1 (drop (length file - w - 1) file)) (codes "\n")

-- Bytes that are taken not to be cut are the whole log, or start at a line.
last_bytes-cut :
    (w : ℕ) (file : Bytes)
    → (last_bytes w file).1 ≡ false
    → (length file ≤ w) ⊎ (starts_at_line w file ≡ true)
unfolding last_bytes cut_lead equal
last_bytes-cut w file h = elim (Bool-cases (ltb w (length file))) [
  | inr e ↦ inl (ground (arith, e))
  | inl e ↦
      let (c, buf, d) = drop_lem (length file - w - 1) file (ground (arith, e)) in
      inr (ground (arith, h, e, d))
]

abbrev pub windows : List ℕ
windows = 2 * 2 ^ 20 ∷ 8 * 2 ^ 20 ∷ 32 * 2 ^ 20 ∷ []

abbrev pub mem_nat : ℕ → List ℕ → Bool
mem_nat n [] = false
mem_nat n (m ∷ ms) = n == m || mem_nat n ms

module _ (decode : Bytes → Option Record) (view : ℕ → View) (q : Query) where
  abbrev pub is_full : Page → Bool
  is_full p = ltb 0 q.limit && leb q.limit (length p.deliveries)

  -- A window at which the read ended in an error.
  pub record IsFailed (r : ReadResult) : Type 0 where
    pub window : ℕ
    pub is_window : mem_nat window windows ≡ true
    pub fails : (view window).stat_fails || (view window).read_fails ≡ true
    pub result : r ≡ read_failed

  -- A window that gave the page, and why no wider one was read.
  pub record IsAnswered (r : ReadResult) : Type 0 where
    pub window : ℕ
    pub shown : Page
    pub is_window : mem_nat window windows ≡ true
    pub result : r ≡ answered shown
    pub rows :
        shown
        ≡ page
            (parse_rows decode
              (last_bytes window (view window).file).0
              (last_bytes window (view window).file).1)
            q
    pub complete :
        (is_full shown ≡ true)
        ⊎ (length (view window).file ≤ window)
        ⊎ (starts_at_line window (view window).file ≡ true)
        ⊎ (window ≡ 32 * 2 ^ 20)

  -- One pass, where the wider windows end as they should, or there is none.
  grow_pass :
      (fuel w : ℕ)
      → mem_nat w windows ≡ true
      → (IsFailed (grow decode fuel (w * 4) view q) ⊎ IsAnswered (grow decode fuel (w * 4) view q))
        ⊎ (w ≡ 32 * 2 ^ 20)
      → IsFailed (grow decode (suc fuel) w view q) ⊎ IsAnswered (grow decode (suc fuel) w view q)
  unfolding grow tail
  grow_pass fuel w m wider =
      let file = (view w).file in
      let p = page (parse_rows decode (last_bytes w file).0 (last_bytes w file).1) q in
      elim (Bool-cases ((view w).stat_fails || (view w).read_fails)) [
        | inl e ↦
            inl (record { window = w; is_window = m; fails = e; result = rw (e, grow, tail) refl })
        | inr e ↦
            let ends : (grow decode (suc fuel) w view q ≡ answered p)
                → (is_full p ≡ true)
                  ⊎ (length file ≤ w)
                  ⊎ (starts_at_line w file ≡ true)
                  ⊎ (w ≡ 32 * 2 ^ 20)
                → IsFailed (grow decode (suc fuel) w view q)
                  ⊎ IsAnswered (grow decode (suc fuel) w view q) =
              λ r c. inr (record {
                window = w;
                shown = p;
                is_window = m;
                result = r;
                rows = refl;
                complete = c;
              }) in
            elim (Bool-cases (is_full p)) [
              | inl f ↦ ends (ground (arith, e, f)) (inl f)
              | inr f ↦ elim (Bool-cases (last_bytes w file).1) [
                | inr c ↦
                    ends (ground (arith, e, f, c))
                      (inr (elim (last_bytes-cut w file c) [ inl s ↦ inl s | inr s ↦ inr (inl s) ]))
                | inl c ↦ elim (Bool-cases (leb max_tail_bytes w)) [
                  | inl l ↦
                      ends (ground (arith, e, f, c, l)) (inr (inr (inr (ground (arith, l, m)))))
                  | inr l ↦ elim wider [
                    | inr t ↦ absurd (ground (arith, l, t))
                    | inl r ↦
                        let on : grow decode (suc fuel) w view q ≡ grow decode fuel (w * 4) view q =
                          ground (arith, e, f, c, l) in
                        rw on r
                  ]
                ]
              ]
            ]
      ]

  -- A read of the log always ends, at one of the windows of 2, 8 and 32 MiB: in an error where that
  -- window cannot be read, or with the page of that window. A page that has fewer rows than the limit,
  -- or of a query without one, is of the whole log, of 32 MiB, or of a window that starts at a line.
  pub recent-returns : IsFailed (recent decode view q) ⊎ IsAnswered (recent decode view q)
  unfolding recent
  recent-returns =
      grow_pass 2 (2 * 2 ^ 20) refl
        (inl (grow_pass 1 (8 * 2 ^ 20) refl (inl (grow_pass 0 (32 * 2 ^ 20) refl (inr refl)))))
