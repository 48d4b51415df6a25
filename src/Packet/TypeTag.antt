-- ===== src/Packet/TypeTag.antt =====
-- `MessageType` and `TypeHeader` of aerorp-packet.h and aerorp-packet.cc.
use saero_rp.Prelude.{
  ℕ, ◌^◌, ◌%◌, ◌<◌, ◌≤◌, ◌≡◌, refl, Bool, true, false, ◌&&◌, Option, none, some, List, ◌++◌, arith,
  ◌==◌, if◌then◌else◌,
}
use saero_rp.Wire.{Wire, IsWire, Reader, ◌>>=◌, pure, checked, checked_lem}

pub data MessageType : Type 0 where
  hello gs_geolocation gs_topology authentication_request : MessageType
  authentication_reply secure_hello secure_gs_geolocation : MessageType

-- The enumerators' values.
abbrev pub code : MessageType → ℕ
code hello = 1
code gs_geolocation = 2
code gs_topology = 3
code authentication_request = 4
code authentication_reply = 5
code secure_hello = 6
code secure_gs_geolocation = 7

-- The cases of the switch in `TypeHeader::Deserialize`.
unfoldable pub of_code : ℕ → Option MessageType
of_code n =
    if n == 1
    then some hello
    else if n == 2
    then some gs_geolocation
    else if n == 3
    then some gs_topology
    else if n == 4
    then some authentication_request
    else if n == 5
    then some authentication_reply
    else if n == 6
    then some secure_hello
    else if n == 7
    then some secure_gs_geolocation
    else none

pub record TypeHeader : Type 0 where
  pub type : MessageType
  pub valid : Bool

unfoldable pub new_type_header : MessageType → TypeHeader
new_type_header t = record { type = t; valid = true }

abbrev pub get_serialized_size : ℕ
get_serialized_size = 1

-- `operator==`
unfoldable pub equals : TypeHeader → TypeHeader → Bool
equals a b =
    (code a.type == code b.type) && (if a.valid then b.valid else (if b.valid then false else true))

module _ (w : Wire) where
  unfoldable pub serialize : TypeHeader → List ℕ
  serialize h = w.write_u8 (code h.type)

  -- What a byte makes of the header that reads it: it keeps its type if the byte is no type.
  unfoldable pub switch : TypeHeader → ℕ → TypeHeader
  unfolding of_code
  switch old type = elim (of_code type) [
    | none ↦ record old { valid = false }
    | some t ↦ record { type = t; valid = true }
  ]

  unfoldable pub deserialize : TypeHeader → Reader TypeHeader
  deserialize old = checked get_serialized_size (do type ← w.read_u8; pure (switch old type))

  module _ (laws : IsWire w) where
    read_byte :
        (old : TypeHeader) (b : ℕ) (rest : List ℕ)
        → deserialize old (w.write_u8 b ++ rest) ≡ some (switch old (b % 2 ^ 8), rest)
    unfolding deserialize
    read_byte old b rest =
        let read : Reader TypeHeader = ◌>>=◌ w.read_u8 (λ type. pure (switch old type)) in
        ground (
          arith,
          checked_lem 1 read (w.write_u8 b) rest (switch old (b % 2 ^ 8))
              (ground (arith, laws.read_write_u8 b rest)),
          laws.length_u8 b,
        )

    switch-code :
        (old : TypeHeader) (t : MessageType) → switch old (code t % 2 ^ 8) ≡ new_type_header t
    unfolding switch new_type_header
    switch-code old hello = refl
    switch-code old _ = refl

    -- A type header read back from its byte, by a header of any state and whatever follows the
    -- byte, is valid and has the type that was written.
    pub deserialize-serialize_type :
        (old h : TypeHeader) (rest : List ℕ)
        → deserialize old (serialize h ++ rest) ≡ some (new_type_header h.type, rest)
    unfolding serialize
    deserialize-serialize_type old h rest =
        ground (arith, read_byte old (code h.type) rest, switch-code old h.type)

    switch_unknown :
        (old : TypeHeader) (b : ℕ)
        → ¬ ((1 ≤ b) × (b ≤ 7))
        → switch old b ≡ record old { valid = false }
    unfolding switch
    switch_unknown old b h = ground arith

    -- A byte that is not one of 1 to 7 makes the header that reads it invalid and leaves its type.
    pub deserialize_unknown :
        (old : TypeHeader) (b : ℕ) (rest : List ℕ)
        → b < 2 ^ 8
        → ¬ ((1 ≤ b) × (b ≤ 7))
        → deserialize old (w.write_u8 b ++ rest) ≡ some (record old { valid = false }, rest)
    deserialize_unknown old b rest small h =
        ground (arith, read_byte old b rest, switch_unknown old b h)
