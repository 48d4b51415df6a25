-- ===== src/Packet/Hello.antt =====
-- `HelloHeader` of aerorp-packet.h and aerorp-packet.cc.
use saero_rp.Prelude.{
  ℕ, ◌^◌, ◌<◌, ◌≡◌, ◌↔◌, Bool, true, ◌&&◌, some, List, ◌++◌, arith, ◌==◌, length, length-append,
  append_assoc,
}
use saero_rp.Wire.{Wire, IsWire, Reader, ◌>>=◌, pure, checked, checked_ok, bind_u8, bind_u32}

pub record HelloHeader : Type 0 where
  pub origin_posx : ℕ
  pub origin_posy : ℕ
  pub origin_posz : ℕ
  pub vel_sign : ℕ
  pub origin_velx : ℕ
  pub origin_vely : ℕ
  pub origin_velz : ℕ

-- The fields are `uint32_t`, the sign `uint8_t`.
pub record IsInRange (h : HelloHeader) : Type 0 where
  pub posx : h.origin_posx < 2 ^ 32
  pub posy : h.origin_posy < 2 ^ 32
  pub posz : h.origin_posz < 2 ^ 32
  pub sign : h.vel_sign < 2 ^ 8
  pub velx : h.origin_velx < 2 ^ 32
  pub vely : h.origin_vely < 2 ^ 32
  pub velz : h.origin_velz < 2 ^ 32

abbrev pub get_serialized_size : ℕ
get_serialized_size = 25

-- `operator==`
unfoldable pub equals : HelloHeader → HelloHeader → Bool
equals a b =
    (a.origin_posx == b.origin_posx)
    && (a.origin_posy == b.origin_posy)
    && (a.origin_posz == b.origin_posz)
    && (a.vel_sign == b.vel_sign)
    && (a.origin_velx == b.origin_velx)
    && (a.origin_vely == b.origin_vely)
    && (a.origin_velz == b.origin_velz)

-- `operator==` holds exactly of headers that are equal in every field.
pub equals_iff : (a b : HelloHeader) → (equals a b ≡ true) ↔ (a ≡ b)
unfolding equals
equals_iff a b = (λ h. ground arith, λ h. ground arith)

module _ (w : Wire) where
  unfoldable pub serialize : HelloHeader → List ℕ
  serialize h =
      w.write_u32 h.origin_posx
      ++ (w.write_u32 h.origin_posy
          ++ (w.write_u32 h.origin_posz
              ++ (w.write_u8 h.vel_sign
                  ++ (w.write_u32 h.origin_velx
                      ++ (w.write_u32 h.origin_vely ++ w.write_u32 h.origin_velz)))))

  unfoldable pub read_fields : Reader HelloHeader
  read_fields = do
    posx ← w.read_u32
    posy ← w.read_u32
    posz ← w.read_u32
    sign ← w.read_u8
    velx ← w.read_u32
    vely ← w.read_u32
    velz ← w.read_u32
    pure (record {
      origin_posx = posx;
      origin_posy = posy;
      origin_posz = posz;
      vel_sign = sign;
      origin_velx = velx;
      origin_vely = vely;
      origin_velz = velz;
    })

  unfoldable pub deserialize : Reader HelloHeader
  unfolding read_fields
  deserialize = checked get_serialized_size read_fields

  module _ (laws : IsWire w) where
    read_fields-serialize :
        (h : HelloHeader) (rest : List ℕ)
        → IsInRange h
        → read_fields (serialize h ++ rest) ≡ some (h, rest)
    unfolding read_fields serialize
    read_fields-serialize h rest r =
        simp (append_assoc, bind_u32 w laws, bind_u8 w laws) (ground arith)

    length-serialize : (h : HelloHeader) → length (serialize h) ≡ get_serialized_size
    unfolding serialize
    length-serialize h = omega (arith, length-append {0}, laws.length_u32, laws.length_u8)

    -- `Serialize` writes as many bytes as `GetSerializedSize` says, and `Deserialize` of them,
    -- whatever follows, returns the header, if the fields are in the ranges of their types.
    pub deserialize-serialize_hello :
        (h : HelloHeader) (rest : List ℕ)
        → IsInRange h
        → (length (serialize h) ≡ get_serialized_size)
          × (deserialize (serialize h ++ rest) ≡ some (h, rest))
    unfolding deserialize
    deserialize-serialize_hello h rest r = (
      length-serialize h,
      checked_ok get_serialized_size read_fields (serialize h) rest h (length-serialize h)
          (read_fields-serialize h rest r),
    )
