-- ===== src/SlotParser/Accepted.antt =====
-- What a slot file has that tdma-slot-assignment-parser.cc reads without a failed assertion.
use saero_rp.Prelude.{
  ℕ, ◌+◌, ◌-◌, ◌*◌, ◌/◌, ◌%◌, ◌^◌, ◌<◌, ◌≡◌, ◌⊎◌, refl, subst, ◌∙◌, true, Option, none, some, List,
  [], ◌∷◌, ◌==◌, length, All, drop, arith, Option-cases, Bool-cases, inl, inr,
}
use native.Mathlib.Nat.{div-add-mod}
use saero_rp.SlotParser.{
  pieces, is_filled, until, atoi, digits_from, is_digit, words, is_slot, slots, row, rows, SlotFile,
  parse,
}

abbrev pub IsBit : ℕ → Type 0
IsBit v = (v ≡ 0) ⊎ (v ≡ 1)

-- Bits, at least one.
abbrev pub IsSlots : List ℕ → Type 0
IsSlots vs = (0 < length vs) × All IsBit vs

-- The number of a node and its slots.
abbrev pub IsRow : List ℕ → Type 0
IsRow r = elim r [ [] ↦ ⊥ | node ∷ vs ↦ IsSlots vs ]

abbrev pub count_slots : List (List ℕ) → ℕ
count_slots [] = 0
count_slots (r ∷ rs) = (length r - 1) + count_slots rs

-- If there is a result, it has the property.
abbrev pub Whenever : {A : Type 0} → (A → Type 0) → Option A → Type 0
Whenever P none = Unit
Whenever P (some a) = P a

slot-IsBit : (p : List ℕ) → is_slot p ≡ true → IsBit (atoi p)
unfolding is_slot atoi digits_from is_digit
slot-IsBit [] h = inl refl
slot-IsBit (x ∷ []) h = elim (Bool-cases (x == b'0')) [
  | inl zero ↦ inl (ground (arith, zero))
  | inr other ↦ inr (ground (arith, other, h))
]
slot-IsBit (x ∷ (y ∷ ys)) h = absurd (ground (arith, h))

slots-IsSlots : (ps : List (List ℕ)) → Whenever IsSlots (slots ps)
unfolding slots
slots-IsSlots [] = tt
slots-IsSlots (p ∷ []) = elim (Bool-cases (is_slot p)) [
  | inl good ↦ rw good (omega arith, (slot-IsBit p good, tt))
  | inr bad ↦ rw bad tt
]
slots-IsSlots (p ∷ (q ∷ ps)) =
    let later = slots-IsSlots (q ∷ ps) in
    elim (Bool-cases (is_slot p)) [
      | inl good ↦ elim (Option-cases (slots (q ∷ ps))) [
        | inl fails ↦ rw good (rw fails tt)
        | inr (vs, e) ↦
            let bits : IsSlots vs = subst (λ o. Whenever IsSlots o) e later in
            rw good (rw e (omega arith, (slot-IsBit p good, bits.1)))
      ]
      | inr bad ↦ rw bad tt
    ]

row-IsRow : (line : List ℕ) → Whenever IsRow (row line)
unfolding row
row-IsRow line =
    let fields = pieces (λ x. x == b',') (drop (length (until b':' line) + 1) line) in
    elim (Option-cases (slots fields)) [
      | inl fails ↦ rw (fails, row) tt
      | inr (vs, e) ↦ rw (e, row) (subst (λ o. Whenever IsSlots o) e (slots-IsSlots fields))
    ]

-- What the outer loop leaves.
record IsArray (r : List (List ℕ) × ℕ × ℕ) : Type 0 where
  rows : All IsRow r.0
  number : length r.0 % 2 ^ 32 ≡ r.1
  total : count_slots r.0 % 2 ^ 32 ≡ r.2

rows-IsArray : (lines : List (List ℕ)) → Whenever IsArray (rows lines)
unfolding rows
rows-IsArray [] = record { rows = tt; number = refl; total = refl }
rows-IsArray (line ∷ lines) =
    let later = rows-IsArray lines in
    elim (Bool-cases (is_filled (until b':' line))) [
      | inl node ↦ elim (Option-cases (row line)) [
        | inl fails ↦ rw node (rw fails tt)
        | inr (r, e) ↦ elim (Option-cases (rows lines)) [
          | inl fails ↦ rw node (rw e (rw fails tt))
          | inr (array, e') ↦
              let rest : IsArray array = subst (λ o. Whenever IsArray o) e' later in
              rw node (
                rw e (
                  rw e' (record {
                    rows = (subst (λ o. Whenever IsRow o) e (row-IsRow line), rest.rows);
                    number = omega (arith, rest.number);
                    total = omega (arith, rest.total);
                  })))
        ]
      ]
      | inr empty ↦ rw empty (record { rows = tt; number = refl; total = refl })
    ]

-- What the parser holds of a file.
pub record IsParsed (f : SlotFile) : Type 0 where
  pub some_row : 0 < f.num_rows
  pub number : length f.slot_array % 2 ^ 32 ≡ f.num_rows
  pub total : count_slots f.slot_array % 2 ^ 32 ≡ f.num_rows * f.num_cols
  pub rows : All IsRow f.slot_array

-- Whatever the text, if it is read without a failed assertion or a division by zero, then
-- `m_numRows` is not 0 and is the number of rows modulo 2^32, each row has the number of a node and
-- at least one slot, all slots are 0 or 1, and there are, modulo 2^32, `m_numRows` times
-- `m_numCols` slots in all.
pub parse-IsParsed : (text : List ℕ) → Whenever IsParsed (parse text)
unfolding parse
parse-IsParsed text = elim (Option-cases (rows (words text))) [
  | inl fails ↦ rw (fails, parse) tt
  | inr ((array, num_rows, num_cols), e) ↦
      let read : IsArray (array, num_rows, num_cols) =
        subst (λ o. Whenever IsArray o) e (rows-IsArray (words text)) in
      elim (Bool-cases (num_rows == 0)) [
        | inl none_read ↦ rw (e, parse) (rw none_read tt)
        | inr positive ↦ elim (Bool-cases (num_cols % num_rows == 0)) [
          | inl even ↦
              let whole : num_cols ≡ num_rows * (num_cols / num_rows) =
                ground (arith, div-add-mod num_cols num_rows, even) in
              rw (e, parse)
                (rw positive (
                  rw even (record {
                    some_row = ground (arith, positive);
                    number = read.number;
                    total = read.total ∙ whole;
                    rows = read.rows;
                  })))
          | inr odd ↦ rw (e, parse) (rw positive (rw odd tt))
        ]
      ]
]
