-- ===== src/TdmaHelper/FromFile.antt =====
-- The array of slots that the constructor of tdma-helper.cc takes from a slot file.
use saero_rp.Prelude.{
  ℕ, zero, suc, ◌+◌, ◌*◌, ◌/◌, ◌%◌, ◌^◌, ◌<◌, ◌≤◌, ◌≡◌, ◌⊎◌, refl, ap, ◌∙◌, Bool, true, false, ◌&&◌,
  Option, none, some, List, [], ◌∷◌, map, ltb, ◌==◌, if◌then◌else◌, length, All, arith, Bool-cases,
  inl, inr, ==_iff,
}
use native.Mathlib.Nat.{mul-mod_right, mul-div_right, div-add-mod}
use saero_rp.TdmaHelper.{SlotArray, allocate, nth, set_slots, of_file}
use saero_rp.SlotParser.{SlotFile, parse}
use saero_rp.SlotParser.RoundTrip.{
  Line, IsLine, print, row_of, width, total, length-map, parse-print,
}
use saero_rp.TdmaHelper.Filling.{
  at, row_at, all_long, nth-at, From-start, fill_rows-Has, fill_rows-none,
}

-- All lines have so many slots.
abbrev pub is_even : ℕ → List Line → Bool
is_even w [] = true
is_even w (l ∷ ls) = (width l == w) && is_even w ls

-- The value in a row and a column of a list of rows.
abbrev pub entry : List (List ℕ) → ℕ → ℕ → Option ℕ
entry rows x y = elim (nth rows x) [ none ↦ none | some r ↦ nth r y ]

total_even : (w : ℕ) (ls : List Line) → is_even w ls ≡ true → total ls ≡ length ls * w
total_even w [] h = omega arith
total_even w (l ∷ ls) h =
    let rest = total_even w ls (ground (arith, h)) in
    let same : width l ≡ w = (==_iff (width l) w).0 (ground (arith, h)) in omega arith

length-row_of : (l : Line) → length (row_of l) ≡ suc (width l)
length-row_of l = ap (λ n. suc (suc n)) (length-map l.others)

even_long : (w : ℕ) (ls : List Line) → is_even w ls ≡ true → all_long (w + 1) (map row_of ls) ≡ true
even_long w [] h = refl
even_long w (l ∷ ls) h =
    let same : width l ≡ w = (==_iff (width l) w).0 (ground (arith, h)) in
    ground (arith, even_long w ls (ground (arith, h)), length-row_of l, same)

long_total :
    (q : ℕ) (ls : List Line) → all_long (q + 1) (map row_of ls) ≡ true → length ls * q ≤ total ls
long_total q [] h = omega arith
long_total q (l ∷ ls) h =
    let rest = long_total q ls (ground (arith, h)) in
    let long : q ≤ width l = ground (arith, h, length-row_of l) in omega arith

-- No line has more slots than the least, if the sum is as small as that.
long_even :
    (q : ℕ) (ls : List Line)
    → all_long (q + 1) (map row_of ls) ≡ true
    → total ls ≡ length ls * q
    → is_even q ls ≡ true
long_even q [] h t = refl
long_even q (l ∷ ls) h t =
    let rest = long_total q ls (ground (arith, h)) in
    let long : q ≤ width l = ground (arith, h, length-row_of l) in
    let same : width l ≡ q = omega arith in
    let others : total ls ≡ length ls * q = omega arith in
    ground (arith, long_even q ls (ground (arith, h)) others, (==_iff (width l) q).1 same)

length-rows : (ls : List Line) → length (map row_of ls) ≡ length ls
length-rows [] = refl
length-rows (l ∷ ls) = ap suc (length-rows ls)

entry-even :
    (w : ℕ) (ls : List Line) (x y : ℕ)
    → is_even w ls ≡ true
    → let rows = map row_of ls in
      entry rows x y
      ≡ (if ltb x (length ls) && ltb y (w + 1) then some (at (row_at rows x) y) else none)
unfolding nth
entry-even w [] x y h = ground arith
entry-even w (l ∷ ls) zero y h =
    let same : width l ≡ w = (==_iff (width l) w).0 (ground (arith, h)) in
    let long : length (row_of l) ≡ w + 1 = omega (arith, length-row_of l) in
    ground (arith, nth-at (row_of l) y, long)
entry-even w (l ∷ ls) (suc x) y h = ground (arith, entry-even w ls x y (ground (arith, h)))

-- What the constructor makes of a list of lines.
abbrev pub IsRead : Line → List Line → Option SlotArray → Type 0
IsRead l ls o =
    let lines = l ∷ ls in
    ((o ≡ none) × (is_even (width l) lines ≡ false))
    ⊎ ((a : SlotArray) × (o ≡ some a)
        × (is_even (width l) lines ≡ true)
        × (a.rows ≡ length lines)
        × (a.cols ≡ width l + 1)
        × ((x y : ℕ)
            → entry (map row_of lines) x y
              ≡ (if ltb x a.rows && ltb y a.cols then some (a.cell x y) else none)))

even-IsRead :
    (l : Line) (ls : List Line)
    → All IsLine (l ∷ ls)
    → total (l ∷ ls) < 2 ^ 32
    → is_even (width l) (l ∷ ls) ≡ true
    → IsRead l ls (of_file (print (l ∷ ls)))
unfolding of_file set_slots allocate
even-IsRead l ls h b even =
    let lines = l ∷ ls in
    let n = length lines in
    let w = width l in
    let sum : total lines ≡ n * w = total_even w lines even in
    let divides : total lines % n ≡ 0 = ap (λ t. t % n) sum ∙ mul-mod_right n w in
    let quotient : total lines / n ≡ w = ap (λ t. t / n) sum ∙ mul-div_right w (omega arith) in
    let rows = map row_of lines in
    let same_length : length rows ≡ n = length-rows lines in
    let (a, fills, has) =
      fill_rows-Has (allocate n w) rows rows 0 (From-start rows) (omega (arith, same_length))
        (even_long w lines even) in
    let file : SlotFile = record { slot_array = rows; num_rows = n; num_cols = w } in
    let parsed : parse (print lines) ≡ some file =
      ground (arith, parse-print l ls h b, divides, quotient) in
    inr (
      a,
      ground (arith, parsed, fills, same_length),
      even,
      has.rows,
      has.cols,
      λ x y. ground (arith, entry-even w lines x y even, has.cells x y, has.rows, has.cols),
    )

uneven-IsRead :
    (l : Line) (ls : List Line)
    → All IsLine (l ∷ ls)
    → total (l ∷ ls) < 2 ^ 32
    → is_even (width l) (l ∷ ls) ≡ false
    → IsRead l ls (of_file (print (l ∷ ls)))
unfolding of_file set_slots allocate
uneven-IsRead l ls h b uneven =
    let lines = l ∷ ls in
    let n = length lines in
    let q = total lines / n in
    let rows = map row_of lines in
    elim (Bool-cases (total lines % n == 0)) [
      | inl divides ↦
          let file : SlotFile = record { slot_array = rows; num_rows = n; num_cols = q } in
          let parsed : parse (print lines) ≡ some file =
            ground (arith, parse-print l ls h b, divides) in
          let sum : total lines ≡ n * q = ground (arith, div-add-mod (total lines) n, divides) in
          let short : all_long (q + 1) rows ≡ false = elim (Bool-cases (all_long (q + 1) rows)) [
            | inl long ↦
                let even = long_even q lines long sum in
                let same : width l ≡ q = (==_iff (width l) q).0 (ground (arith, even)) in
                absurd (ground (arith, uneven, even, ap (λ w. is_even w lines) same))
            | inr some_short ↦ some_short
          ] in
          let stops =
            fill_rows-none (allocate n q) rows rows 0 (From-start rows)
              (omega (arith, length-rows lines)) short in
          inl (ground (arith, parsed, stops, length-rows lines), uneven)
      | inr left_over ↦ inl (ground (arith, parse-print l ls h b, left_over), uneven)
    ]

-- The constructor of the helper, given a file of at least one line in which each line has a number
-- of a node in digits, below 2^31, and at least one slot, with fewer than 2^32 - 1 slots in all,
-- takes the file exactly if all lines have the same number of slots. Then the array has a row for
-- each line and a column more than that number, and its cells are the numbers of the nodes, in the
-- first column, and the slots of the file. For any other such file an assertion fails, or rows are
-- read out of bounds.
pub of_file-IsRead :
    (l : Line) (ls : List Line)
    → All IsLine (l ∷ ls)
    → total (l ∷ ls) + 1 < 2 ^ 32
    → IsRead l ls (of_file (print (l ∷ ls)))
of_file-IsRead l ls h b = elim (Bool-cases (is_even (width l) (l ∷ ls))) [
  | inl even ↦ even-IsRead l ls h (omega arith) even
  | inr uneven ↦ uneven-IsRead l ls h (omega arith) uneven
]
