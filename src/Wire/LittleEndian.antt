-- ===== src/Wire/LittleEndian.antt =====
-- A buffer that meets what is assumed of ns-3's: each number least significant byte first.
use saero_rp.Prelude.{
  ℕ, zero, suc, ◌+◌, ◌*◌, ◌/◌, ◌%◌, ◌^◌, ◌≡◌, refl, Option, none, some, List, [], ◌∷◌, ◌++◌, arith,
  length, All, ◌<◌,
}
use saero_rp.Wire.{Wire, IsWire}

-- The low `n` bytes of a number.
bytes_of : ℕ → ℕ → List ℕ
bytes_of zero v = []
bytes_of (suc n) v = (v % 2 ^ 8) ∷ bytes_of n (v / 2 ^ 8)

number_of : ℕ → List ℕ → Option (ℕ × List ℕ)
number_of zero bs = some (0, bs)
number_of (suc n) [] = none
number_of (suc n) (b ∷ bs) = elim (number_of n bs) [
  | none ↦ none
  | some (v, rest) ↦ some (b + 2 ^ 8 * v, rest)
]

-- What `number_of n` makes of `bytes_of n v`.
residue : ℕ → ℕ → ℕ
residue zero v = 0
residue (suc n) v = v % 2 ^ 8 + 2 ^ 8 * residue n (v / 2 ^ 8)

number_of-bytes_of :
    (n v : ℕ) (rest : List ℕ) → number_of n (bytes_of n v ++ rest) ≡ some (residue n v, rest)
unfolding number_of bytes_of residue
number_of-bytes_of zero v rest = refl
number_of-bytes_of (suc n) v rest = ground (arith, number_of-bytes_of n (v / 2 ^ 8) rest)

length-bytes_of : (n v : ℕ) → length (bytes_of n v) ≡ n
unfolding bytes_of
length-bytes_of zero v = refl
length-bytes_of (suc n) v = omega (arith, length-bytes_of n (v / 2 ^ 8))

bytes_of-All : (n v : ℕ) → All (λ b. b < 2 ^ 8) (bytes_of n v)
unfolding bytes_of
bytes_of-All zero v = tt
bytes_of-All (suc n) v = (omega arith, bytes_of-All n (v / 2 ^ 8))

residue_one : (v : ℕ) → residue 1 v ≡ v % 2 ^ 8
unfolding residue
residue_one v = omega arith

residue_four : (v : ℕ) → residue 4 v ≡ v % 2 ^ 32
unfolding residue
residue_four v = omega arith

residue_eight : (v : ℕ) → residue 8 v ≡ v % 2 ^ 64
unfolding residue
residue_eight v = omega arith

unfoldable pub little_endian : Wire
unfolding bytes_of number_of
little_endian = record {
  write_u8 = bytes_of 1;
  write_u32 = bytes_of 4;
  write_u64 = bytes_of 8;
  write_address = bytes_of 4;
  read_u8 = number_of 1;
  read_u32 = number_of 4;
  read_u64 = number_of 8;
  read_address = number_of 4;
  sizeof_address = 4;
}

pub little_endian-IsWire : IsWire little_endian
unfolding little_endian
little_endian-IsWire = record {
  read_write_u8 = λ v rest. ground (arith, number_of-bytes_of 1 v rest, residue_one v);
  read_write_u32 = λ v rest. ground (arith, number_of-bytes_of 4 v rest, residue_four v);
  read_write_u64 = λ v rest. ground (arith, number_of-bytes_of 8 v rest, residue_eight v);
  read_write_address = λ v rest. ground (arith, number_of-bytes_of 4 v rest, residue_four v);
  length_u8 = length-bytes_of 1;
  length_u32 = length-bytes_of 4;
  length_u64 = length-bytes_of 8;
  length_address = length-bytes_of 4;
  bytes_u8 = bytes_of-All 1;
  bytes_u32 = bytes_of-All 4;
  bytes_u64 = bytes_of-All 8;
  bytes_address = bytes_of-All 4;
  size_address = refl;
}

-- A byte is written as it is.
pub little_endian-raw : (b : ℕ) → b < 2 ^ 8 → little_endian.write_u8 b ≡ b ∷ []
unfolding little_endian bytes_of
little_endian-raw b h = ground arith
