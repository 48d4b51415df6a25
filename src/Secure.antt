-- ===== src/Secure.antt =====
-- How `RouteOutput` of aerorp-routing-protocol.cc encrypts a packet on its way out: a hello packet,
-- a ground station packet or a data packet, told apart by their sizes.
pub mod Undo
use saero_rp.Prelude.{
  ℕ, ◌≡◌, Bool, true, false, Option, none, some, List, [], ◌∷◌, ◌++◌, ◌==◌, if◌then◌else◌, length,
  take,
}
use saero_rp.Wire.{Wire}
use saero_rp.Gcm.{Evp, encryption}
use saero_rp.Packet.TypeTag
use saero_rp.Packet.TypeTag.{
  MessageType, secure_hello, secure_gs_geolocation, new_type_header, hello, gs_geolocation,
}
use saero_rp.Packet.Hello
use saero_rp.Packet.GsGeoLocation
use saero_rp.Packet.SecureHello
use saero_rp.Packet.SecureGsGeoLocation

-- The bytes of an address by `Ipv4Address::Serialize`, and those of variables in memory.
pub record Platform : Type 0 where
  pub address_bytes : ℕ → List ℕ
  pub u32_bytes : ℕ → List ℕ
  pub u64_bytes : ℕ → List ℕ

-- A packet: its number and its bytes.
pub record Message : Type 0 where
  pub uid : ℕ
  pub bytes : List ℕ

module _ (p : Platform) where
  -- The first eight bytes are the packet's number, the others their own indices.
  abbrev pub iv_of : ℕ → List ℕ
  iv_of uid = p.u64_bytes uid ++ (8 ∷ 9 ∷ 10 ∷ 11 ∷ 12 ∷ 13 ∷ 14 ∷ 15 ∷ [])

  -- The data that is authenticated: source and destination.
  abbrev pub aad_of : ℕ → ℕ → List ℕ
  aad_of src dst = p.address_bytes src ++ p.address_bytes dst

module _ (w : Wire) (e : Evp) where
  -- The branch for a packet of the size of a hello packet. `none` is a read past the end.
  unfoldable pub secure_hello_packet : List ℕ → List ℕ → List ℕ → List ℕ → Option (List ℕ)
  secure_hello_packet key iv aad bytes =
      elim (TypeTag.deserialize w (new_type_header hello) bytes) [
        | none ↦ none
        | some (h, text) ↦
            let (cipher, tag) = encryption e (take 25 text) aad key iv in
            elim (Hello.deserialize w text) [
              | none ↦ none
              | some (hdr, rest) ↦ some (
                  TypeTag.serialize w (new_type_header secure_hello)
                  ++ (SecureHello.serialize w (record { cipher = cipher; tag = tag }) ++ rest))
            ]
      ]

  unfoldable pub secure_gs_packet : List ℕ → List ℕ → List ℕ → List ℕ → Option (List ℕ)
  secure_gs_packet key iv aad bytes =
      elim (TypeTag.deserialize w (new_type_header gs_geolocation) bytes) [
        | none ↦ none
        | some (h, text) ↦
            let (cipher, tag) = encryption e (take 44 text) aad key iv in
            elim (GsGeoLocation.deserialize w text) [
              | none ↦ none
              | some (hdr, rest) ↦ some (
                  TypeTag.serialize w (new_type_header secure_gs_geolocation)
                  ++ (SecureGsGeoLocation.serialize w (record { cipher = cipher; tag = tag })
                      ++ rest))
            ]
      ]

  -- The three tests of the size, one after another: the bytes, and whether they are a new packet.
  unfoldable pub secure_bytes : List ℕ → List ℕ → List ℕ → List ℕ → Option (List ℕ × Bool)
  secure_bytes key iv aad bytes =
      elim (if length bytes == 26 then secure_hello_packet key iv aad bytes else some bytes) [
        | none ↦ none
        | some b1 ↦ elim (if length b1 == 45 then secure_gs_packet key iv aad b1 else some b1) [
          | none ↦ none
          | some b2 ↦
              let (cipher, tag) = encryption e b2 aad key iv in
              some (if length b2 == 1000 then (cipher ++ tag, true) else (b2, false))
        ]
      ]

  -- The part of `RouteOutput` for a node in secure mode, from the local address `src`. A new packet
  -- is assigned to the data packet, which then has the number `assigned`; the second value is whether
  -- this is so.
  unfoldable pub secure : Platform → List ℕ → ℕ → ℕ → ℕ → Message → Option (Message × Bool)
  unfolding secure_bytes
  secure p key src dst assigned m =
      elim (secure_bytes key (iv_of p m.uid) (aad_of p src dst) m.bytes) [
        | none ↦ none
        | some (bytes, is_new) ↦
            some (record { uid = if is_new then assigned else m.uid; bytes = bytes }, is_new)
      ]
