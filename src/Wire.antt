-- ===== src/Wire.antt =====
-- The byte buffer that the headers of aerorp-packet.cc are written to and read from: ns-3's
-- `Buffer::Iterator` and `WriteTo`/`ReadFrom` of an address, as a parameter. A buffer is the list
-- of its bytes from the iterator on; a read past the end, or a failed assertion, is `none`.
pub mod LittleEndian
use saero_rp.Prelude.{
  ℕ, zero, suc, ◌+◌, ◌-◌, ◌^◌, ◌%◌, ◌<◌, ◌≡◌, refl, Bool, true, false, Option, none, some, List, [],
  ◌∷◌, ◌++◌, arith, ◌==◌, if◌then◌else◌, length, length-append, All, append_assoc,
}

pub record Wire : Type 0 where
  pub write_u8 : ℕ → List ℕ
  pub write_u32 : ℕ → List ℕ
  pub write_u64 : ℕ → List ℕ
  pub write_address : ℕ → List ℕ
  pub read_u8 : List ℕ → Option (ℕ × List ℕ)
  pub read_u32 : List ℕ → Option (ℕ × List ℕ)
  pub read_u64 : List ℕ → Option (ℕ × List ℕ)
  pub read_address : List ℕ → Option (ℕ × List ℕ)
  -- `sizeof(Ipv4Address)`
  pub sizeof_address : ℕ

-- What is documented of it: an argument is converted to the width of the write, which puts as many
-- bytes; a read of the same width takes them off and returns the value.
pub record IsWire (w : Wire) : Type 0 where
  pub read_write_u8 :
      (v : ℕ) (rest : List ℕ) → w.read_u8 (w.write_u8 v ++ rest) ≡ some (v % 2 ^ 8, rest)
  pub read_write_u32 :
      (v : ℕ) (rest : List ℕ) → w.read_u32 (w.write_u32 v ++ rest) ≡ some (v % 2 ^ 32, rest)
  pub read_write_u64 :
      (v : ℕ) (rest : List ℕ) → w.read_u64 (w.write_u64 v ++ rest) ≡ some (v % 2 ^ 64, rest)
  pub read_write_address :
      (v : ℕ) (rest : List ℕ) → w.read_address (w.write_address v ++ rest) ≡ some (v % 2 ^ 32, rest)
  pub length_u8 : (v : ℕ) → length (w.write_u8 v) ≡ 1
  pub length_u32 : (v : ℕ) → length (w.write_u32 v) ≡ 4
  pub length_u64 : (v : ℕ) → length (w.write_u64 v) ≡ 8
  pub length_address : (v : ℕ) → length (w.write_address v) ≡ 4
  pub bytes_u8 : (v : ℕ) → All (λ b. b < 2 ^ 8) (w.write_u8 v)
  pub bytes_u32 : (v : ℕ) → All (λ b. b < 2 ^ 8) (w.write_u32 v)
  pub bytes_u64 : (v : ℕ) → All (λ b. b < 2 ^ 8) (w.write_u64 v)
  pub bytes_address : (v : ℕ) → All (λ b. b < 2 ^ 8) (w.write_address v)
  -- An address is its 32-bit number; GS_PACKET_SIZE of aerorp-routing-protocol.h counts on it.
  pub size_address : w.sizeof_address ≡ 4

-- A sequence of reads.
abbrev pub Reader : Type 0 → Type 0
Reader A = List ℕ → Option (A × List ℕ)

infixl 5 ◌>>=◌
abbrev pub ◌>>=◌ : {A B : Type 0} → Reader A → (A → Reader B) → Reader B
◌>>=◌ m f i = elim (m i) [ none ↦ none | some (a, i') ↦ f a i' ]

abbrev pub pure : {A : Type 0} → A → Reader A
pure a i = some (a, i)

-- The end of each `Deserialize`: `NS_ASSERT (dist == GetSerializedSize ())`.
unfoldable pub checked : {A : Type 0} → ℕ → Reader A → Reader A
checked size m start = elim (m start) [
  | none ↦ none
  | some (a, i) ↦ if length start - length i == size then some (a, i) else none
]

pub checked_lem :
    {A : Type 0} (size : ℕ) (m : Reader A) (bytes rest : List ℕ) (a : A)
    → m (bytes ++ rest) ≡ some (a, rest)
    → checked size m (bytes ++ rest) ≡ (if length bytes == size then some (a, rest) else none)
unfolding checked
checked_lem size m bytes rest a h = ground (arith, h, length-append bytes rest)

pub checked_ok :
    {A : Type 0} (size : ℕ) (m : Reader A) (bytes rest : List ℕ) (a : A)
    → length bytes ≡ size
    → m (bytes ++ rest) ≡ some (a, rest)
    → checked size m (bytes ++ rest) ≡ some (a, rest)
checked_ok size m bytes rest a l h = ground (arith, checked_lem size m bytes rest a h)

-- An array of `uint8_t`.
abbrev pub IsBytes : ℕ → List ℕ → Type 0
IsBytes n bs = (length bs ≡ n) × All (λ b. b < 2 ^ 8) bs

module _ (w : Wire) where
  -- The loops over the bytes of an array.
  unfoldable pub write_bytes : List ℕ → List ℕ
  write_bytes [] = []
  write_bytes (b ∷ bs) = w.write_u8 b ++ write_bytes bs

  unfoldable pub read_bytes : ℕ → Reader (List ℕ)
  read_bytes zero = pure []
  read_bytes (suc n) = do b ← w.read_u8; bs ← read_bytes n; pure (b ∷ bs)

  -- If `WriteU8` appends its argument itself, the loop appends the array.
  pub write_bytes-raw :
      ((b : ℕ) → b < 2 ^ 8 → w.write_u8 b ≡ b ∷ [])
      → (bs : List ℕ) → All (λ b. b < 2 ^ 8) bs
      → write_bytes bs ≡ bs
  unfolding write_bytes
  write_bytes-raw raw [] h = refl
  write_bytes-raw raw (b ∷ bs) h = ground (arith, raw b h.0, write_bytes-raw raw bs h.1)

  module _ (laws : IsWire w) where
    pub length-write_bytes : (bs : List ℕ) → length (write_bytes bs) ≡ length bs
    unfolding write_bytes
    length-write_bytes [] = refl
    length-write_bytes (b ∷ bs) = omega (
      arith,
      laws.length_u8 b,
      length-write_bytes bs,
      length-append (w.write_u8 b) (write_bytes bs),
    )

    pub read-write_bytes :
        (n : ℕ) (bs rest : List ℕ)
        → IsBytes n bs
        → read_bytes n (write_bytes bs ++ rest) ≡ some (bs, rest)
    unfolding write_bytes read_bytes
    read-write_bytes zero [] rest h = refl
    read-write_bytes (suc n) [] rest h = absurd (omega arith)
    read-write_bytes zero (b ∷ bs) rest h = absurd (omega arith)
    read-write_bytes (suc n) (b ∷ bs) rest h = ground (
      arith,
      append_assoc (w.write_u8 b) (write_bytes bs) rest,
      laws.read_write_u8 b (write_bytes bs ++ rest),
      read-write_bytes n bs rest (omega arith, h.1.1),
    )

    -- A read that a program begins with meets the write that made the front of the buffer.
    module _ {B : Type 0} (f : ℕ → Reader B) (v : ℕ) (rest : List ℕ) where
      pub bind_u8 : ◌>>=◌ w.read_u8 f (w.write_u8 v ++ rest) ≡ f (v % 2 ^ 8) rest
      bind_u8 = ground (arith, laws.read_write_u8 v rest)

      pub bind_u32 : ◌>>=◌ w.read_u32 f (w.write_u32 v ++ rest) ≡ f (v % 2 ^ 32) rest
      bind_u32 = ground (arith, laws.read_write_u32 v rest)

      pub bind_u64 : ◌>>=◌ w.read_u64 f (w.write_u64 v ++ rest) ≡ f (v % 2 ^ 64) rest
      bind_u64 = ground (arith, laws.read_write_u64 v rest)

      pub bind_address : ◌>>=◌ w.read_address f (w.write_address v ++ rest) ≡ f (v % 2 ^ 32) rest
      bind_address = ground (arith, laws.read_write_address v rest)

    pub bind_bytes :
        {B : Type 0} (n : ℕ) (f : List ℕ → Reader B) (bs rest : List ℕ)
        → IsBytes n bs
        → ◌>>=◌ (read_bytes n) f (write_bytes bs ++ rest) ≡ f bs rest
    bind_bytes n f bs rest h = ground (arith, read-write_bytes n bs rest h)
