-- ===== src/SlotParser/RoundTrip.antt =====
-- The slot files that tdma-slot-assignment-parser.cc reads, and what it makes of them.
use saero_rp.Prelude.{
  ℕ, suc, ◌+◌, ◌/◌, ◌%◌, ◌^◌, ◌<◌, ◌≤◌, ◌≡◌, refl, ap, sym, ◌∙◌, Bool, true, false, none, some,
  List, [], ◌∷◌, ◌++◌, map, ◌==◌, if◌then◌else◌, length, All, append-All, append_assoc,
  length-append, drop, drop-append, arith,
}
use saero_rp.SlotParser.{
  pieces, is_space, is_filled, until, is_digit, digits_from, atoi, words, is_slot, slots, row, rows,
  parse,
}
use saero_rp.SlotParser.Text.{Free, words-line, until-append, IsDigits, number, digits_from-number}

-- A line of a file: the digits of the node's number, and at least one slot.
pub record Line : Type 0 where
  pub node : List ℕ
  pub first : Bool
  pub others : List Bool

abbrev pub digit : Bool → ℕ
digit true = b'1'
digit false = b'0'

abbrev pub print_slots : List Bool → List ℕ
print_slots [] = []
print_slots (b ∷ bs) = b',' ∷ digit b ∷ print_slots bs

-- Such a line in the format of the file, `node:0,1,0` for three slots.
abbrev pub print_line : Line → List ℕ
print_line l = l.node ++ b':' ∷ digit l.first ∷ print_slots l.others

abbrev pub print : List Line → List ℕ
print [] = []
print (l ∷ ls) = print_line l ++ 10 ∷ print ls

-- The node's number has digits, and is one of `int`.
pub record IsLine (l : Line) : Type 0 where
  pub digits : IsDigits l.node
  pub filled : is_filled l.node ≡ true
  pub small : number l.node < 2 ^ 31

-- The number of slots of a line, and of all lines.
abbrev pub width : Line → ℕ
width l = suc (length l.others)

abbrev pub total : List Line → ℕ
total [] = 0
total (l ∷ ls) = width l + total ls

abbrev pub bit : Bool → ℕ
bit true = 1
bit false = 0

-- The row that stands for the line.
abbrev pub row_of : Line → List ℕ
row_of l = number l.node ∷ bit l.first ∷ map bit l.others

digits-Free :
    (ends : ℕ → Bool) (text : List ℕ)
    → ((x : ℕ) → is_digit x ≡ true → ends x ≡ false)
    → IsDigits text
    → Free ends text
digits-Free ends [] f h = tt
digits-Free ends (x ∷ xs) f h = (f x h.0, digits-Free ends xs f h.1)

abbrev comma : ℕ → Bool
comma x = x == b','

abbrev fields : List Bool → List (List ℕ)
fields bs = map (λ b. digit b ∷ []) bs

pieces-print :
    (b : Bool) (bs : List Bool)
    → pieces comma (digit b ∷ print_slots bs) ≡ (digit b ∷ []) ∷ fields bs
unfolding pieces
pieces-print true [] = refl
pieces-print false [] = refl
pieces-print true (b ∷ bs) = ground (arith, pieces-print b bs)
pieces-print false (b ∷ bs) = ground (arith, pieces-print b bs)

slots-fields :
    (b : Bool) (bs : List Bool) → slots ((digit b ∷ []) ∷ fields bs) ≡ some (bit b ∷ map bit bs)
unfolding slots is_slot atoi digits_from is_digit
slots-fields true [] = refl
slots-fields false [] = refl
slots-fields true (b ∷ bs) = ground (arith, slots-fields b bs)
slots-fields false (b ∷ bs) = ground (arith, slots-fields b bs)

atoi-number :
    (text : List ℕ)
    → IsDigits text
    → is_filled text ≡ true
    → number text < 2 ^ 31
    → atoi text ≡ number text
unfolding atoi is_digit
atoi-number [] h f s = absurd (ground (arith, f))
atoi-number (x ∷ xs) h f s = ground (arith, digits_from-number 0 (x ∷ xs) h, h.0, s)

row-print : (l : Line) → IsLine l → row (print_line l) ≡ some (row_of l)
unfolding row is_digit
row-print l h =
    let colon : Free (λ x. x == b':') l.node =
      digits-Free (λ x. x == b':') l.node (λ x d. ground (arith, d)) h.digits in
    let tail = digit l.first ∷ print_slots l.others in
    let id : until b':' (print_line l) ≡ l.node = until-append b':' l.node tail colon in
    let behind : drop (length l.node + 1) (print_line l) ≡ tail =
      ap (drop (length l.node + 1)) (sym (append_assoc l.node (b':' ∷ []) tail))
      ∙ drop-append (length l.node + 1) (l.node ++ b':' ∷ []) tail
          (length-append l.node (b':' ∷ [])) in
    ground (
      arith,
      id,
      behind,
      pieces-print l.first l.others,
      slots-fields l.first l.others,
      atoi-number l.node h.digits h.filled h.small,
    )

digit-Free : (b : Bool) → is_space (digit b) ≡ false
unfolding is_space
digit-Free true = refl
digit-Free false = refl

slots-Free : (bs : List Bool) → Free is_space (print_slots bs)
unfolding is_space
slots-Free [] = tt
slots-Free (b ∷ bs) = (refl, (digit-Free b, slots-Free bs))

-- The bytes of a line: it has no white space, and it is not empty.
line-Free : (l : Line) → IsLine l → Free is_space (print_line l)
unfolding is_space is_digit
line-Free l h =
    append-All (λ x. is_space x ≡ false) l.node (b':' ∷ digit l.first ∷ print_slots l.others)
      (digits-Free is_space l.node (λ x d. ground (arith, d)) h.digits)
      (refl, (digit-Free l.first, slots-Free l.others))

append-filled : (a b : List ℕ) → is_filled a ≡ true → is_filled (a ++ b) ≡ true
append-filled [] b h = absurd (ground (arith, h))
append-filled (x ∷ a) b h = refl

pub length-map : (bs : List Bool) → length (map bit bs) ≡ length bs
length-map [] = refl
length-map (b ∷ bs) = ap suc (length-map bs)

-- Each line has a slot.
pub length-le-total : (ls : List Line) → length ls ≤ total ls
length-le-total [] = omega arith
length-le-total (l ∷ ls) = omega (arith, length-le-total ls)

rows-print :
    (ls : List Line)
    → All IsLine ls
    → total ls < 2 ^ 32
    → rows (words (print ls)) ≡ some (map row_of ls, length ls, total ls)
unfolding rows words pieces is_digit
rows-print [] h b = refl
rows-print (l ∷ ls) h b =
    let colon : Free (λ x. x == b':') l.node =
      digits-Free (λ x. x == b':') l.node (λ x d. ground (arith, d)) h.0.digits in
    let tail = digit l.first ∷ print_slots l.others in
    let id : until b':' (print_line l) ≡ l.node = until-append b':' l.node tail colon in
    let line =
      words-line (print_line l) (print ls) (line-Free l h.0)
        (append-filled l.node (b':' ∷ tail) h.0.filled) in
    ground (
      arith,
      id,
      h.0.filled,
      line,
      rows-print ls h.1 (omega arith),
      row-print l h.0,
      length-map l.others,
      length-le-total ls,
    )

-- A file of at least one line, in which each line has a number of a node in digits, below 2^31, and
-- at least one slot, and which has fewer than 2^32 slots in all, is read exactly if the number of
-- all its slots is a multiple of the number of lines. Then the rows are the numbers and the slots
-- in the order of the file, and the two counters are the number of lines and the quotient.
pub parse-print :
    (l : Line) (ls : List Line)
    → All IsLine (l ∷ ls)
    → total (l ∷ ls) < 2 ^ 32
    → parse (print (l ∷ ls)) ≡ (
        if total (l ∷ ls) % length (l ∷ ls) == 0
        then some (record {
          slot_array = map row_of (l ∷ ls);
          num_rows = length (l ∷ ls);
          num_cols = total (l ∷ ls) / length (l ∷ ls);
        })
        else none)
unfolding parse
parse-print l ls h b = ground (arith, rows-print (l ∷ ls) h b)
