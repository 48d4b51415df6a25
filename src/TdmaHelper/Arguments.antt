-- ===== src/TdmaHelper/Arguments.antt =====
-- The two forms of `SetSlots` of tdma-helper.cc: from the rows of a file, and from arguments.
use saero_rp.Prelude.{
  ℕ, zero, suc, ◌+◌, ◌≡◌, refl, ap, sym, subst, ◌∙◌, inl, inr, Option, Option-cases, none, some,
  List, [], ◌∷◌, ◌++◌, length, All, arith,
}
use saero_rp.TdmaHelper.{
  SlotArray, write, nth, fill_row, fill_rows, set_slots, fill_row_args, fill_args, set_slots_of,
}
use saero_rp.TdmaHelper.Filling.{From, From-start, From-suc, From-head}

-- The values of the row from the column `j` on are `later`.
abbrev Rest : ℕ → List ℕ → List ℕ → Type 0
Rest j row later = (k : ℕ) → nth row (j + k) ≡ nth later k

Rest-start : (row : List ℕ) → Rest 0 row row
Rest-start row k = let same : 0 + k ≡ k = omega arith in ap (nth row) same

Rest-suc :
    (j : ℕ) (row : List ℕ) (v : ℕ) (later : List ℕ)
    → Rest j row (v ∷ later)
    → Rest (j + 1) row later
unfolding nth
Rest-suc j row v later h k =
    let same : j + 1 + k ≡ j + suc k = omega arith in ap (nth row) same ∙ h (suc k)

Rest-head :
    (j : ℕ) (row : List ℕ) (v : ℕ) (later : List ℕ) → Rest j row (v ∷ later) → nth row j ≡ some v
unfolding nth
Rest-head j row v later h = let same : j ≡ j + 0 = omega arith in ap (nth row) same ∙ h 0

-- A result with the arguments that are left.
abbrev with_args : List ℕ → Option SlotArray → Option (SlotArray × List ℕ)
with_args args none = none
with_args args (some a) = some (a, args)

fill_row-args :
    (a : SlotArray) (i : ℕ) (row later args : List ℕ) (j : ℕ)
    → Rest j row later
    → fill_row_args a i (later ++ args) (length later) j
      ≡ with_args args (fill_row a i row (length later) j)
unfolding fill_row_args fill_row
fill_row-args a i row [] args j h = refl
fill_row-args a i row (v ∷ later) args j h =
    let here = Rest-head j row v later h in
    elim (Option-cases (write a i j v)) [
      | inl out ↦ ground (arith, here, out)
      | inr (a', e) ↦
          ground
            (arith, here, e, fill_row-args a' i row later args (j + 1) (Rest-suc j row v later h))
    ]

abbrev pub concat : List (List ℕ) → List ℕ
concat [] = []
concat (r ∷ rs) = r ++ concat rs

-- The number of columns of a result, if there is one.
abbrev cols_or : ℕ → Option SlotArray → ℕ
cols_or n none = n
cols_or n (some a) = a.cols

cols-write : (a : SlotArray) (i j v : ℕ) → cols_or a.cols (write a i j v) ≡ a.cols
unfolding write
cols-write a i j v = ground arith

cols-fill_row :
    (a : SlotArray) (i : ℕ) (row : List ℕ) (left j : ℕ)
    → cols_or a.cols (fill_row a i row left j) ≡ a.cols
unfolding fill_row
cols-fill_row a i row zero j = refl
cols-fill_row a i row (suc left) j = elim (Option-cases (nth row j)) [
  | inl over ↦ ground (arith, over)
  | inr (v, e) ↦ elim (Option-cases (write a i j v)) [
    | inl out ↦ ground (arith, e, out)
    | inr (a', e') ↦
        let same : a'.cols ≡ a.cols = ap (cols_or a.cols) (sym e') ∙ cols-write a i j v in
        ground (arith, e, e', same, cols-fill_row a' i row left (j + 1))
  ]
]

fill_args-rows :
    (a : SlotArray) (w : ℕ) (rows later : List (List ℕ)) (i : ℕ)
    → a.cols ≡ w
    → All (λ r. length r ≡ w) later
    → From i rows later
    → fill_args a (concat later) (length later) i ≡ fill_rows a rows (length later) i
unfolding fill_args fill_rows
fill_args-rows a w rows [] i c h f = refl
fill_args-rows a w rows (r ∷ later) i c h f =
    let here = From-head i rows r later f in
    let long : length r ≡ a.cols = omega (arith, h.0, c) in
    let row = fill_row-args a i r r (concat later) 0 (Rest-start r) in
    let row' : fill_row_args a i (r ++ concat later) a.cols 0
        ≡ with_args (concat later) (fill_row a i r a.cols 0) =
      subst
        (λ n.
          fill_row_args a i (r ++ concat later) n 0 ≡ with_args (concat later) (fill_row a i r n 0))
        long row in
    elim (Option-cases (fill_row a i r a.cols 0)) [
      | inl fails ↦ ground (arith, here, row', fails)
      | inr (a', e) ↦
          let same : a'.cols ≡ a.cols =
            ap (cols_or a.cols) (sym e) ∙ cols-fill_row a i r a.cols 0 in
          let rest =
            fill_args-rows a' w rows later (i + 1) (same ∙ c) h.1 (From-suc i rows r later f) in
          ground (arith, here, row', e, rest)
    ]

-- `SetSlots` with the values of some rows one after another as arguments does what `SetSlots` does
-- with a file of these rows, if there are as many rows as in the array and each has as many values
-- as the array has columns, whatever the number of nodes that is passed.
pub set_slots_of-concat :
    (a : SlotArray) (num_nodes : ℕ) (rows : List (List ℕ))
    → length rows ≡ a.rows
    → All (λ r. length r ≡ a.cols) rows
    → set_slots_of a num_nodes (concat rows) ≡ set_slots a rows
unfolding set_slots_of set_slots
set_slots_of-concat a num_nodes rows n h =
    subst (λ m. fill_args a (concat rows) m 0 ≡ fill_rows a rows m 0) n
      (fill_args-rows a a.cols rows rows 0 refl h (From-start rows))
