-- ===== src/TdmaHelper/Filling.antt =====
-- The assignments of `SetSlots` of tdma-helper.cc to the array of slots.
use saero_rp.Prelude.{
  ℕ, zero, suc, ◌+◌, ◌<◌, ◌≤◌, ◌≡◌, refl, ap, ◌∙◌, Bool, true, false, ◌&&◌, none, some, List, [],
  ◌∷◌, ltb, leb, ◌==◌, if◌then◌else◌, length, arith, Bool-cases, inl, inr, ==_iff,
}
use saero_rp.TdmaHelper.{SlotArray, write, nth, fill_row, fill_rows}

-- An element, 0 out of bounds.
abbrev pub at : List ℕ → ℕ → ℕ
at [] n = 0
at (x ∷ xs) zero = x
at (x ∷ xs) (suc n) = at xs n

pub nth-at : (xs : List ℕ) (n : ℕ) → nth xs n ≡ (if ltb n (length xs) then some (at xs n) else none)
unfolding nth
nth-at [] n = ground arith
nth-at (x ∷ xs) zero = ground arith
nth-at (x ∷ xs) (suc n) = ground (arith, nth-at xs n)

-- An array with the cells of a function.
pub record Has (a a' : SlotArray) (p : ℕ → ℕ → ℕ) : Type 0 where
  pub rows : a'.rows ≡ a.rows
  pub cols : a'.cols ≡ a.cols
  pub cells : (x y : ℕ) → a'.cell x y ≡ p x y

fill_row-Has :
    (a : SlotArray) (i : ℕ) (row : List ℕ) (left j : ℕ)
    → i < a.rows
    → j + left ≡ a.cols
    → a.cols ≤ length row
    → (a' : SlotArray) × (fill_row a i row left j ≡ some a')
      × Has a a' (λ x y. if x == i && (leb j y && ltb y a.cols) then at row y else a.cell x y)
unfolding fill_row write
fill_row-Has a i row zero j hi hj h =
    (a, refl, record { rows = refl; cols = refl; cells = λ x y. ground arith })
fill_row-Has a i row (suc left) j hi hj h =
    let value = at row j in
    let a1 : SlotArray = record a {
      cell = λ x y. if x == i && y == j then value else a.cell x y;
    } in
    let (a', runs, rest) = fill_row-Has a1 i row left (j + 1) hi (omega arith) h in
    (
      a',
      ground (arith, nth-at row j, runs),
      record {
        rows = rest.rows;
        cols = rest.cols;
        cells = λ x y. elim (Bool-cases (y == j)) [
          | inl here ↦
              let same : y ≡ j = (==_iff y j).0 here in
              ground (arith, rest.cells x y, here, same, ap (at row) same)
          | inr there ↦ ground (arith, rest.cells x y, there)
        ];
      },
    )

fill_row-none :
    (a : SlotArray) (i : ℕ) (row : List ℕ) (left j : ℕ)
    → i < a.rows
    → j + left ≡ a.cols
    → length row < a.cols
    → j ≤ length row
    → fill_row a i row left j ≡ none
unfolding fill_row write
fill_row-none a i row zero j hi hj h k = absurd (omega arith)
fill_row-none a i row (suc left) j hi hj h k =
    let a1 : SlotArray = record a {
      cell = λ x y. if x == i && y == j then at row j else a.cell x y;
    } in
    elim (Bool-cases (ltb j (length row))) [
      | inl more ↦
          let rest =
            fill_row-none a1 i row left (j + 1) hi (omega arith) h (ground (arith, more)) in
          ground (arith, nth-at row j, more, rest)
      | inr over ↦ ground (arith, nth-at row j, over)
    ]

-- A row, which is empty out of bounds.
abbrev pub row_at : List (List ℕ) → ℕ → List ℕ
row_at rows x = elim (nth rows x) [ none ↦ [] | some r ↦ r ]

abbrev pub all_long : ℕ → List (List ℕ) → Bool
all_long n [] = true
all_long n (r ∷ rs) = leb n (length r) && all_long n rs

-- The rows from the number `i` on are `later`.
abbrev pub From : ℕ → List (List ℕ) → List (List ℕ) → Type 0
From i rows later = (k : ℕ) → nth rows (i + k) ≡ nth later k

pub From-start : (rows : List (List ℕ)) → From 0 rows rows
From-start rows k = let same : 0 + k ≡ k = omega arith in ap (nth rows) same

pub From-suc :
    (i : ℕ) (rows : List (List ℕ)) (r : List ℕ) (later : List (List ℕ))
    → From i rows (r ∷ later)
    → From (i + 1) rows later
unfolding nth
From-suc i rows r later h k =
    let same : i + 1 + k ≡ i + suc k = omega arith in ap (nth rows) same ∙ h (suc k)

pub From-head :
    (i : ℕ) (rows : List (List ℕ)) (r : List ℕ) (later : List (List ℕ))
    → From i rows (r ∷ later)
    → nth rows i ≡ some r
unfolding nth
From-head i rows r later h = let same : i ≡ i + 0 = omega arith in ap (nth rows) same ∙ h 0

pub fill_rows-Has :
    (a : SlotArray) (rows later : List (List ℕ)) (i : ℕ)
    → From i rows later
    → i + length later ≡ a.rows
    → all_long a.cols later ≡ true
    → (a' : SlotArray) × (fill_rows a rows (length later) i ≡ some a')
      × Has a a' (λ x y.
        if leb i x && (ltb x a.rows && ltb y a.cols) then at (row_at rows x) y else a.cell x y)
unfolding fill_rows
fill_rows-Has a rows [] i f n h =
    (a, refl, record { rows = refl; cols = refl; cells = λ x y. ground arith })
fill_rows-Has a rows (r ∷ later) i f n h =
    let here = From-head i rows r later f in
    let (a1, fills, mine) =
      fill_row-Has a i r a.cols 0 (omega arith) (omega arith) (ground (arith, h)) in
    let (a', runs, rest) =
      fill_rows-Has a1 rows later (i + 1) (From-suc i rows r later f) (omega (arith, mine.rows))
        (ground (arith, h, mine.cols)) in
    (
      a',
      ground (arith, here, fills, runs),
      record {
        rows = ground (arith, rest.rows, mine.rows);
        cols = ground (arith, rest.cols, mine.cols);
        cells = λ x y. elim (Bool-cases (x == i)) [
          | inl now ↦
              let same : x ≡ i = (==_iff x i).0 now in
              let row : row_at rows x ≡ r = ground (arith, same, here) in
              ground (
                arith,
                rest.cells x y,
                mine.cells x y,
                now,
                same,
                mine.rows,
                mine.cols,
                ap (λ u. at u y) row,
              )
          | inr later_on ↦
              ground (arith, rest.cells x y, mine.cells x y, later_on, mine.rows, mine.cols)
        ];
      },
    )

pub fill_rows-none :
    (a : SlotArray) (rows later : List (List ℕ)) (i : ℕ)
    → From i rows later
    → i + length later ≡ a.rows
    → all_long a.cols later ≡ false
    → fill_rows a rows (length later) i ≡ none
unfolding fill_rows
fill_rows-none a rows [] i f n h = absurd (ground (arith, h))
fill_rows-none a rows (r ∷ later) i f n h =
    let here = From-head i rows r later f in
    elim (Bool-cases (leb a.cols (length r))) [
      | inl long ↦
          let (a1, fills, mine) =
            fill_row-Has a i r a.cols 0 (omega arith) (omega arith) (ground (arith, long)) in
          let rest =
            fill_rows-none a1 rows later (i + 1) (From-suc i rows r later f)
              (omega (arith, mine.rows)) (ground (arith, h, long, mine.cols)) in
          ground (arith, here, fills, rest)
      | inr short ↦
          let stops =
            fill_row-none a i r a.cols 0 (omega arith) (omega arith) (ground (arith, short))
              (omega arith) in
          ground (arith, here, stops)
    ]
