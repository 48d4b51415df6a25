-- ===== src/TdmaHelper.antt =====
-- The slot assignment of tdma-helper.h and tdma-helper.cc: the array of slots of all nodes, its
-- default contents, and the calls of the controller for it.
pub mod Defaults
pub mod Assigned
pub mod Filling
pub mod FromFile
pub mod Arguments
use saero_rp.Prelude.{
  ℕ, zero, suc, ◌+◌, ◌-◌, ◌*◌, ◌/◌, ◌%◌, ◌^◌, Bool, true, false, not, ◌&&◌, ◌||◌, Option, none,
  some, List, [], ◌∷◌, ◌==◌, ltb, if◌then◌else◌,
}
use saero_rp.SlotParser.{parse}
use saero_rp.TdmaController.{TdmaController, add_tdma_slot, set_total_slots_allowed}

-- `m_slotAllotmentArray` with `m_numRows` and `m_numCols`: a row for each node, whose first column is
-- the node's number.
pub record SlotArray : Type 0 where
  pub rows : ℕ
  pub cols : ℕ
  pub cell : ℕ → ℕ → ℕ

-- A write to the array, `none` out of its bounds.
unfoldable pub write : SlotArray → ℕ → ℕ → ℕ → Option SlotArray
write a i j v =
    if ltb i a.rows && ltb j a.cols
    then some (record a { cell = λ x y. if x == i && y == j then v else a.cell x y })
    else none

-- `Allocate2D`, called by the constructor with a number of nodes and of slots.
unfoldable pub allocate : ℕ → ℕ → SlotArray
allocate nodes slots = record {
  rows = nodes;
  cols = slots + 1;
  cell = λ x y. if y == 0 then x else 0;
}

-- The `while` loop of `SetDefaultSlots` for the row `i`, whose `base` is `continuousSlots * i`:
-- `left` rounds from `tmp` on.
unfoldable pub set_run : SlotArray → ℕ → ℕ → ℕ → ℕ → Option SlotArray
set_run a i base zero tmp = some a
set_run a i base (suc left) tmp =
    if ltb a.cols ((base + (tmp + 1)) % 2 ^ 32)
    then some a
    else elim (write a i ((base + (tmp + 1)) % 2 ^ 32) 1) [
      | none ↦ none
      | some a' ↦ set_run a' i base left (tmp + 1)
    ]

-- The loop over the rows, `left` of them from `i` on.
unfoldable pub set_rows : SlotArray → ℕ → ℕ → ℕ → Option SlotArray
set_rows a continuous zero i = some a
set_rows a continuous (suc left) i = elim (set_run a i (continuous * i) continuous 0) [
  | none ↦ none
  | some a' ↦ set_rows a' continuous left (i + 1)
]

-- The loop over the remaining slots, `left` of them from `i` on.
unfoldable pub set_rest : SlotArray → ℕ → ℕ → ℕ → Option SlotArray
set_rest a base zero i = some a
set_rest a base (suc left) i = elim (write a i (base + i + 1) 1) [
  | none ↦ none
  | some a' ↦ set_rest a' base left (i + 1)
]

-- `SetDefaultSlots`. `none` is a division by zero or a write out of bounds. `continuousSlots` is an
-- `int`, whose value is the quotient if that is below 2^31.
unfoldable pub set_default_slots : SlotArray → Option SlotArray
set_default_slots a =
    let continuous = (a.cols - 1) / a.rows in
    if a.rows == 0 then none else elim (set_rows a continuous a.rows 0) [
      | none ↦ none
      | some a' ↦ set_rest a' (continuous * a.rows) (a.cols - 1 - continuous * a.rows) 0
    ]

-- An element of a vector, `none` out of its bounds.
unfoldable pub nth : {A : Type 0} → List A → ℕ → Option A
nth [] n = none
nth (x ∷ xs) zero = some x
nth (x ∷ xs) (suc n) = nth xs n

-- The assignments of `SetSlots` to the row `i` from the row of the file, `left` of them from the
-- column `j` on.
unfoldable pub fill_row : SlotArray → ℕ → List ℕ → ℕ → ℕ → Option SlotArray
unfolding nth write
fill_row a i row zero j = some a
fill_row a i row (suc left) j = elim (nth row j) [
  | none ↦ none
  | some v ↦ elim (write a i j v) [ none ↦ none | some a' ↦ fill_row a' i row left (j + 1) ]
]

-- The loop of `SetSlots` over the rows, `left` of them from `i` on.
unfoldable pub fill_rows : SlotArray → List (List ℕ) → ℕ → ℕ → Option SlotArray
unfolding nth fill_row
fill_rows a rows zero i = some a
fill_rows a rows (suc left) i = elim (nth rows i) [
  | none ↦ none
  | some row ↦ elim (fill_row a i row a.cols 0) [
    | none ↦ none
    | some a' ↦ fill_rows a' rows left (i + 1)
  ]
]

-- `SetSlots`. `none` is a read out of the bounds of the parser's arrays.
unfoldable pub set_slots : SlotArray → List (List ℕ) → Option SlotArray
unfolding fill_rows
set_slots a rows = fill_rows a rows a.rows 0

-- The loop over a row in `SetSlots` with arguments: the array, and the arguments that are left.
-- `none` is an argument that is not there.
unfoldable pub fill_row_args : SlotArray → ℕ → List ℕ → ℕ → ℕ → Option (SlotArray × List ℕ)
unfolding write
fill_row_args a i args zero j = some (a, args)
fill_row_args a i [] (suc left) j = none
fill_row_args a i (v ∷ args) (suc left) j = elim (write a i j v) [
  | none ↦ none
  | some a' ↦ fill_row_args a' i args left (j + 1)
]

unfoldable pub fill_args : SlotArray → List ℕ → ℕ → ℕ → Option SlotArray
unfolding fill_row_args
fill_args a args zero i = some a
fill_args a args (suc left) i = elim (fill_row_args a i args a.cols 0) [
  | none ↦ none
  | some (a', later) ↦ fill_args a' later left (i + 1)
]

-- `SetSlots` with arguments behind the number of nodes, which it does not use.
unfoldable pub set_slots_of : SlotArray → ℕ → List ℕ → Option SlotArray
unfolding fill_args
set_slots_of a num_nodes args = fill_args a args a.rows 0

-- The constructor with the text of a file.
unfoldable pub of_file : List ℕ → Option SlotArray
unfolding parse set_slots allocate
of_file text = elim (parse text) [
  | none ↦ none
  | some f ↦ set_slots (allocate f.num_rows f.num_cols) f.slot_array
]

-- The loop over the other rows in `AssignTdmaSlots`: whether none of the first `left` rows but `i`
-- has the slot `j`.
unfoldable pub is_exclusive : SlotArray → ℕ → ℕ → ℕ → Bool
is_exclusive a i j zero = true
is_exclusive a i j (suc k) =
    (k == i || not (a.cell k j == 1 && a.cell i j == 1)) && is_exclusive a i j k

-- The loop over the slots of the row `i`, `left` of them from the column `j` on: the slots for which
-- `AddTdmaSlot` is called. `none` is a failed assertion.
unfoldable pub slots_of : SlotArray → ℕ → ℕ → ℕ → Option (List ℕ)
slots_of a i zero j = some []
slots_of a i (suc left) j =
    let rest = slots_of a i left (j + 1) in
    let value = a.cell i j in
    if (value == 0 || value == 1) && is_exclusive a i j a.rows
    then elim rest [
      | none ↦ none
      | some slots ↦ some (if value == 1 then (j - 1) ∷ slots else slots)
    ]
    else none

-- Calls of `AddTdmaSlot` with one MAC.
unfoldable pub add_slots : TdmaController → List ℕ → ℕ → TdmaController
add_slots c [] mac = c
add_slots c (slot ∷ slots) mac = add_slots (add_tdma_slot c slot mac) slots mac

-- `AssignTdmaSlots`: the rows whose first column is the node's number, `left` of them from `i` on.
unfoldable pub assign_tdma_slots :
    SlotArray → TdmaController → ℕ → ℕ → ℕ → ℕ → Option TdmaController
assign_tdma_slots a c mac node zero i = some c
assign_tdma_slots a c mac node (suc left) i =
    if a.cell i 0 == node
    then elim (slots_of a i (a.cols - 1) 1) [
      | none ↦ none
      | some slots ↦ assign_tdma_slots a (add_slots c slots mac) mac node left (i + 1)
    ]
    else assign_tdma_slots a c mac node left (i + 1)

-- `Install` of a list of nodes, each with its number and its new MAC.
unfoldable pub install : SlotArray → TdmaController → List (ℕ × ℕ) → Option TdmaController
install a c [] = some c
install a c ((node, mac) ∷ nodes) = elim (assign_tdma_slots a c mac node a.rows 0) [
  | none ↦ none
  | some c' ↦ install a c' nodes
]

-- `SetTdmaControllerHelper`: the new controller takes the slots of a frame.
unfoldable pub set_controller : SlotArray → TdmaController → TdmaController
set_controller a c = set_total_slots_allowed c (a.cols - 1)
