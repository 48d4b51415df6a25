-- ===== src/Packet/AuthenticationReply.antt =====
-- `AuthenticationReplyHeader` of aerorp-packet.h and aerorp-packet.cc, with CERT_SIZE 727 and
-- RSA_KEY_SIZE 256.
use saero_rp.Prelude.{
  ℕ, ◌+◌, ◌*◌, ◌^◌, ◌<◌, ◌≡◌, some, List, ◌++◌, arith, length, length-append, append_assoc,
}
use saero_rp.Wire.{
  Wire, IsWire, Reader, ◌>>=◌, pure, checked, checked_ok, write_bytes, read_bytes, IsBytes,
  length-write_bytes, bind_u8, bind_u32, bind_u64, bind_bytes,
}

pub record AuthenticationReplyHeader : Type 0 where
  pub cert : List ℕ
  pub time_stamp : ℕ
  pub random_no : ℕ
  pub old_random_no : ℕ
  pub identification : ℕ
  pub shared_key : List ℕ
  pub sign : List ℕ

-- The fields have the values of their C++ types.
pub record IsInRange (h : AuthenticationReplyHeader) : Type 0 where
  pub cert_range : IsBytes 727 h.cert
  pub time_stamp_range : h.time_stamp < 2 ^ 64
  pub random_no_range : h.random_no < 2 ^ 32
  pub old_random_no_range : h.old_random_no < 2 ^ 32
  pub identification_range : h.identification < 2 ^ 8
  pub shared_key_range : IsBytes 256 h.shared_key
  pub sign_range : IsBytes 256 h.sign

module _ (w : Wire) where
  abbrev pub get_serialized_size : ℕ
  get_serialized_size = 727 + 8 + 2 * 4 + 1 + 256 + 256

  unfoldable pub serialize : AuthenticationReplyHeader → List ℕ
  serialize h =
      write_bytes w h.cert
      ++ (w.write_u64 h.time_stamp
          ++ (w.write_u32 h.random_no
              ++ (w.write_u32 h.old_random_no
                  ++ (w.write_u8 h.identification
                      ++ (write_bytes w h.shared_key ++ write_bytes w h.sign)))))

  unfoldable pub read_fields : Reader AuthenticationReplyHeader
  read_fields = do
    cert' ← read_bytes w 727
    time_stamp' ← w.read_u64
    random_no' ← w.read_u32
    old_random_no' ← w.read_u32
    identification' ← w.read_u8
    shared_key' ← read_bytes w 256
    sign' ← read_bytes w 256
    pure (record {
      cert = cert';
      time_stamp = time_stamp';
      random_no = random_no';
      old_random_no = old_random_no';
      identification = identification';
      shared_key = shared_key';
      sign = sign';
    })

  unfoldable pub deserialize : Reader AuthenticationReplyHeader
  unfolding read_fields
  deserialize = checked get_serialized_size read_fields

  module _ (laws : IsWire w) where
    read_fields-serialize :
        (h : AuthenticationReplyHeader) (rest : List ℕ)
        → IsInRange h
        → read_fields (serialize h ++ rest) ≡ some (h, rest)
    unfolding read_fields serialize
    read_fields-serialize h rest r =
        simp
          (
            append_assoc,
            bind_u64 w laws,
            bind_u32 w laws,
            bind_u8 w laws,
            bind_bytes w laws,
            r.cert_range,
            r.shared_key_range,
            r.sign_range,
          )
          (ground arith)

    length-serialize :
        (h : AuthenticationReplyHeader) → IsInRange h → length (serialize h) ≡ get_serialized_size
    unfolding serialize
    length-serialize h r = omega (
      arith,
      length-append {0},
      laws.length_u64,
      laws.length_u32,
      laws.length_u8,
      length-write_bytes w laws h.cert,
      length-write_bytes w laws h.shared_key,
      length-write_bytes w laws h.sign,
    )

    -- `Serialize` writes as many bytes as `GetSerializedSize` says, and `Deserialize` of them,
    -- whatever follows, returns the header, if the fields are in the ranges of their types.
    pub deserialize-serialize_authentication_reply :
        (h : AuthenticationReplyHeader) (rest : List ℕ)
        → IsInRange h
        → (length (serialize h) ≡ get_serialized_size)
          × (deserialize (serialize h ++ rest) ≡ some (h, rest))
    unfolding deserialize
    deserialize-serialize_authentication_reply h rest r = (
      length-serialize h r,
      checked_ok get_serialized_size read_fields (serialize h) rest h (length-serialize h r)
          (read_fields-serialize h rest r),
    )
