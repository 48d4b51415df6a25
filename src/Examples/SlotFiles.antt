-- ===== src/Examples/SlotFiles.antt =====
-- Slot files: two nodes, 0 and 12, of two slots each.
use saero_rp.Prelude.{ℕ, ◌≡◌, refl, true, false, some, List, [], ◌∷◌, All, arith}
use saero_rp.SlotParser.{parse, is_digit}
use saero_rp.SlotParser.RoundTrip.{Line, IsLine, parse-print}
use saero_rp.SlotParser.Accepted.{Whenever, IsParsed, parse-IsParsed}
use saero_rp.TdmaHelper.{allocate, set_slots, set_slots_of, of_file}
use saero_rp.TdmaHelper.Arguments.{set_slots_of-concat}
use saero_rp.TdmaHelper.FromFile.{IsRead, of_file-IsRead}

abbrev line0 : Line
line0 = record { node = b'0' ∷ []; first = true; others = false ∷ [] }

abbrev line12 : Line
line12 = record { node = b'1' ∷ b'2' ∷ []; first = false; others = true ∷ [] }

lines-IsLine : All IsLine (line0 ∷ line12 ∷ [])
unfolding is_digit
lines-IsLine = (
  record { digits = (refl, tt); filled = refl; small = omega arith },
  (record { digits = (refl, (refl, tt)); filled = refl; small = omega arith }, tt),
)

-- `0:1,0` and `12:0,1`
abbrev text : List ℕ
text = b'0' ∷ b':' ∷ b'1' ∷ b',' ∷ b'0' ∷ 10 ∷ b'1' ∷ b'2' ∷ b':' ∷ b'0' ∷ b',' ∷ b'1' ∷ 10 ∷ []

parse-print_example :
    parse text
    ≡ some (record {
      slot_array = (0 ∷ 1 ∷ 0 ∷ []) ∷ (12 ∷ 0 ∷ 1 ∷ []) ∷ [];
      num_rows = 2;
      num_cols = 2;
    })
parse-print_example = parse-print line0 (line12 ∷ []) lines-IsLine (omega arith)

parse-IsParsed_example : Whenever IsParsed (parse text)
parse-IsParsed_example = parse-IsParsed text

of_file-IsRead_example : IsRead line0 (line12 ∷ []) (of_file text)
of_file-IsRead_example = of_file-IsRead line0 (line12 ∷ []) lines-IsLine (omega arith)

set_slots_of-concat_example :
    set_slots_of (allocate 2 2) 2 (0 ∷ 1 ∷ 0 ∷ 12 ∷ 0 ∷ 1 ∷ [])
    ≡ set_slots (allocate 2 2) ((0 ∷ 1 ∷ 0 ∷ []) ∷ (12 ∷ 0 ∷ 1 ∷ []) ∷ [])
unfolding allocate
set_slots_of-concat_example =
    set_slots_of-concat (allocate 2 2) 2 ((0 ∷ 1 ∷ 0 ∷ []) ∷ (12 ∷ 0 ∷ 1 ∷ []) ∷ []) refl
      (refl, (refl, tt))
