-- ===== src/Packet/SecureGsGeoLocation.antt =====
-- `SecureGSGeoLocationHeader` of aerorp-packet.h and aerorp-packet.cc, with GS_PACKET_SIZE 44 and
-- TAG_SIZE 16.
use saero_rp.Prelude.{ℕ, ◌+◌, ◌≡◌, some, List, ◌++◌, arith, length, length-append, append_assoc}
use saero_rp.Wire.{
  Wire, IsWire, Reader, ◌>>=◌, pure, checked, checked_ok, write_bytes, read_bytes, IsBytes,
  length-write_bytes, bind_bytes,
}

pub record SecureGsGeoLocationHeader : Type 0 where
  pub cipher : List ℕ
  pub tag : List ℕ

-- The fields have the values of their C++ types.
pub record IsInRange (h : SecureGsGeoLocationHeader) : Type 0 where
  pub cipher_range : IsBytes 44 h.cipher
  pub tag_range : IsBytes 16 h.tag

module _ (w : Wire) where
  abbrev pub get_serialized_size : ℕ
  get_serialized_size = 44 + 16

  unfoldable pub serialize : SecureGsGeoLocationHeader → List ℕ
  serialize h = write_bytes w h.cipher ++ write_bytes w h.tag

  unfoldable pub read_fields : Reader SecureGsGeoLocationHeader
  read_fields = do
    cipher' ← read_bytes w 44
    tag' ← read_bytes w 16
    pure (record { cipher = cipher'; tag = tag' })

  unfoldable pub deserialize : Reader SecureGsGeoLocationHeader
  unfolding read_fields
  deserialize = checked get_serialized_size read_fields

  module _ (laws : IsWire w) where
    read_fields-serialize :
        (h : SecureGsGeoLocationHeader) (rest : List ℕ)
        → IsInRange h
        → read_fields (serialize h ++ rest) ≡ some (h, rest)
    unfolding read_fields serialize
    read_fields-serialize h rest r =
        simp (append_assoc, bind_bytes w laws, r.cipher_range, r.tag_range) (ground arith)

    length-serialize :
        (h : SecureGsGeoLocationHeader) → IsInRange h → length (serialize h) ≡ get_serialized_size
    unfolding serialize
    length-serialize h r = omega (
      arith,
      length-append {0},
      length-write_bytes w laws h.cipher,
      length-write_bytes w laws h.tag,
    )

    -- `Serialize` writes as many bytes as `GetSerializedSize` says, and `Deserialize` of them,
    -- whatever follows, returns the header, if the fields are in the ranges of their types.
    pub deserialize-serialize_secure_gs_geolocation :
        (h : SecureGsGeoLocationHeader) (rest : List ℕ)
        → IsInRange h
        → (length (serialize h) ≡ get_serialized_size)
          × (deserialize (serialize h ++ rest) ≡ some (h, rest))
    unfolding deserialize
    deserialize-serialize_secure_gs_geolocation h rest r = (
      length-serialize h r,
      checked_ok get_serialized_size read_fields (serialize h) rest h (length-serialize h r)
          (read_fields-serialize h rest r),
    )
