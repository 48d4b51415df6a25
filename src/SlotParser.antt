-- ===== src/SlotParser.antt =====
-- The parser of slot files: tdma-slot-assignment-parser.h and tdma-slot-assignment-parser.cc. A text
-- is the list of its bytes, and `none` is a failed assertion or a division by zero.
pub mod Text
pub mod RoundTrip
pub mod Accepted
use saero_rp.Prelude.{
  ℕ, ◌+◌, ◌-◌, ◌*◌, ◌/◌, ◌%◌, ◌^◌, Bool, true, false, ◌&&◌, ◌||◌, Option, none, some, List, [], ◌∷◌,
  leb, ◌==◌, if◌then◌else◌, length, drop, keep_if,
}

-- The parts of a text between the bytes of a kind.
unfoldable pub pieces : (ℕ → Bool) → List ℕ → List (List ℕ)
pieces ends [] = [] ∷ []
pieces ends (x ∷ xs) =
    let rest = pieces ends xs in
    if ends x
    then [] ∷ rest
    else elim rest [ [] ↦ (x ∷ []) ∷ [] | first ∷ others ↦ (x ∷ first) ∷ others ]

-- `std::isspace`
unfoldable pub is_space : ℕ → Bool
is_space x = x == 32 || (leb 9 x && leb x 13)

abbrev pub is_filled : List ℕ → Bool
is_filled [] = false
is_filled (x ∷ xs) = true

-- What `topgen >> line` reads, time after time, up to the end of the file.
unfoldable pub words : List ℕ → List (List ℕ)
unfolding pieces is_space
words text = keep_if is_filled (pieces is_space text)

-- `getline` up to a delimiter.
unfoldable pub until : ℕ → List ℕ → List ℕ
until c [] = []
until c (x ∷ xs) = let rest = until c xs in if x == c then [] else x ∷ rest

unfoldable pub is_digit : ℕ → Bool
is_digit x = leb b'0' x && leb x b'9'

-- The digits of `atoi`, behind the value `n`.
unfoldable pub digits_from : ℕ → List ℕ → ℕ
digits_from n [] = n
digits_from n (x ∷ xs) =
    let rest = digits_from (n * 10 + (x - b'0')) xs in if is_digit x then rest else n

-- `atoi` of a text without white space, put into a `uint32_t`. The value is that of `atoi` if it is
-- one of `int`; for other values C++ does not say what `atoi` returns.
unfoldable pub atoi : List ℕ → ℕ
unfolding digits_from
atoi [] = 0
atoi (x ∷ xs) =
    if x == b'-'
    then (2 ^ 32 - digits_from 0 xs % 2 ^ 32) % 2 ^ 32
    else if x == b'+'
    then digits_from 0 xs % 2 ^ 32
    else digits_from 0 (x ∷ xs) % 2 ^ 32

-- `field == "0" || field == "1"`
unfoldable pub is_slot : List ℕ → Bool
is_slot [] = false
is_slot (x ∷ []) = x == b'0' || x == b'1'
is_slot (x ∷ (y ∷ xs)) = false

-- The inner loop over a line, which is given by its parts between commas, and the last slot behind
-- it. An empty part is no slot: the loop stops at it, and the assertion on what is left fails.
unfoldable pub slots : List (List ℕ) → Option (List ℕ)
unfolding is_slot atoi
slots [] = none
slots (p ∷ []) = if is_slot p then some (atoi p ∷ []) else none
slots (p ∷ (q ∷ ps)) =
    let rest = slots (q ∷ ps) in
    if is_slot p then elim rest [ none ↦ none | some vs ↦ some (atoi p ∷ vs) ] else none

-- The row of a line: the number of the node and its slots.
unfoldable pub row : List ℕ → Option (List ℕ)
unfolding slots until pieces atoi
row line =
    let node_id = until b':' line in
    let fields = pieces (λ x. x == b',') (drop (length node_id + 1) line) in
    elim (slots fields) [ none ↦ none | some vs ↦ some (atoi node_id ∷ vs) ]

-- The outer loop: `m_slotArray`, `m_numRows` and `m_numCols` after it. It stops at a line without
-- a number of a node. The counters wrap at 2^32.
unfoldable pub rows : List (List ℕ) → Option (List (List ℕ) × ℕ × ℕ)
unfolding row
rows [] = some ([], 0, 0)
rows (line ∷ lines) =
    let rest = rows lines in
    if is_filled (until b':' line)
    then elim (row line) [
      | none ↦ none
      | some r ↦ elim rest [
        | none ↦ none
        | some (array, num_rows, num_cols) ↦
            some (r ∷ array, (num_rows + 1) % 2 ^ 32, (num_cols + (length r - 1)) % 2 ^ 32)
      ]
    ]
    else some ([], 0, 0)

pub record SlotFile : Type 0 where
  pub slot_array : List (List ℕ)
  pub num_rows : ℕ
  pub num_cols : ℕ

-- `ParseTdmaSlotInformation` of the text of the file, which is empty for a file that is not there.
unfoldable pub parse : List ℕ → Option SlotFile
unfolding rows words
parse text = elim (rows (words text)) [
  | none ↦ none
  | some (array, num_rows, num_cols) ↦
      if num_rows == 0
      then none
      else if num_cols % num_rows == 0
      then some (record { slot_array = array; num_rows = num_rows; num_cols = num_cols / num_rows })
      else none
]
