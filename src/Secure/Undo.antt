-- ===== src/Secure/Undo.antt =====
-- What `RouteOutput` makes of the hello and ground station packets that the node sends.
use saero_rp.Prelude.{
  ℕ, ◌<◌, ◌^◌, ◌≡◌, some, List, [], ◌++◌, length, take, take-append, length-append, append-nil,
  append-All, All, arith, ◌∙◌, false,
}
use saero_rp.Wire.{Wire, IsWire}
use saero_rp.Gcm.{Evp, IsEvp, encryption}
use saero_rp.Packet.TypeTag
use saero_rp.Packet.TypeTag.{
  secure_hello, secure_gs_geolocation, new_type_header, hello, gs_geolocation,
  deserialize-serialize_type,
}
use saero_rp.Packet.Hello
use saero_rp.Packet.Hello.{HelloHeader, deserialize-serialize_hello}
use saero_rp.Packet.SecureHello
use saero_rp.Packet.SecureHello.{SecureHelloHeader, deserialize-serialize_secure_hello}
use saero_rp.Packet.GsGeoLocation
use saero_rp.Packet.GsGeoLocation.{GsGeoLocationHeader, deserialize-serialize_gs_geolocation}
use saero_rp.Packet.SecureGsGeoLocation
use saero_rp.Packet.SecureGsGeoLocation.{
  SecureGsGeoLocationHeader, deserialize-serialize_secure_gs_geolocation,
}
use saero_rp.Secure.{secure_hello_packet, secure_gs_packet, secure_bytes}

module _ (w : Wire) (laws : IsWire w) where
  pub length-type : (t : TypeTag.MessageType) → length (TypeTag.serialize w (new_type_header t)) ≡ 1
  unfolding TypeTag.serialize
  length-type t = laws.length_u8 _

  -- The packet of a hello header.
  abbrev pub hello_bytes : HelloHeader → List ℕ
  hello_bytes h = TypeTag.serialize w (new_type_header hello) ++ Hello.serialize w h

  abbrev pub gs_bytes : GsGeoLocationHeader → List ℕ
  gs_bytes h = TypeTag.serialize w (new_type_header gs_geolocation) ++ GsGeoLocation.serialize w h

  -- Both headers are written as bytes.
  pub hello-All : (h : HelloHeader) → All (λ b. b < 2 ^ 8) (Hello.serialize w h)
  unfolding Hello.serialize
  hello-All h = search (append-All {0, 0}, laws.bytes_u8, laws.bytes_u32) depth 20

  pub gs-All : (h : GsGeoLocationHeader) → All (λ b. b < 2 ^ 8) (GsGeoLocation.serialize w h)
  unfolding GsGeoLocation.serialize
  gs-All h = search (append-All {0, 0}, laws.bytes_u32, laws.bytes_u64, laws.bytes_address) depth 20

  module _ (e : Evp) (trusted : IsEvp e) (key iv aad : List ℕ) where
    -- The header of the encrypted bytes.
    abbrev pub sealed_hello : HelloHeader → SecureHelloHeader
    sealed_hello h =
        let (cipher, tag) = encryption e (Hello.serialize w h) aad key iv in
        record { cipher = cipher; tag = tag }

    abbrev pub sealed_gs : GsGeoLocationHeader → SecureGsGeoLocationHeader
    sealed_gs h =
        let (cipher, tag) = encryption e (GsGeoLocation.serialize w h) aad key iv in
        record { cipher = cipher; tag = tag }

    pub sealed_hello-IsInRange :
        (h : HelloHeader) → Hello.IsInRange h → SecureHello.IsInRange (sealed_hello h)
    unfolding encryption
    sealed_hello-IsInRange h r =
        let size = (deserialize-serialize_hello w laws h [] r).0 in
        record {
          cipher_range =
              let c = trusted.cipher_bytes key iv aad (Hello.serialize w h) (hello-All h) in
              (c.0 ∙ size, c.1);
          tag_range = trusted.tag_bytes key iv aad (Hello.serialize w h);
        }

    secure_hello_packet-hello :
        (h : HelloHeader)
        → Hello.IsInRange h
        → secure_hello_packet w e key iv aad (hello_bytes h)
          ≡ some (
              TypeTag.serialize w (new_type_header secure_hello)
              ++ SecureHello.serialize w (sealed_hello h))
    unfolding secure_hello_packet
    secure_hello_packet-hello h r =
        let (size, back) = deserialize-serialize_hello w laws h [] r in
        let type =
          deserialize-serialize_type w laws (new_type_header hello) (new_type_header hello)
            (Hello.serialize w h) in
        let text : take 25 (Hello.serialize w h) ≡ Hello.serialize w h =
          rw (append-nil (Hello.serialize w h)) at (take-append 25 (Hello.serialize w h) [] size) in
        ground (
          arith,
          type,
          text,
          back,
          append-nil (Hello.serialize w h),
          append-nil (SecureHello.serialize w (sealed_hello h)),
        )

    pub sealed_gs-IsInRange :
        (h : GsGeoLocationHeader)
        → GsGeoLocation.IsInRange h
        → SecureGsGeoLocation.IsInRange (sealed_gs h)
    unfolding encryption
    sealed_gs-IsInRange h r =
        let size : length (GsGeoLocation.serialize w h) ≡ 44 =
          omega
            (arith, (deserialize-serialize_gs_geolocation w laws h [] r).0, laws.size_address) in
        record {
          cipher_range =
              let c = trusted.cipher_bytes key iv aad (GsGeoLocation.serialize w h) (gs-All h) in
              (c.0 ∙ size, c.1);
          tag_range = trusted.tag_bytes key iv aad (GsGeoLocation.serialize w h);
        }

    secure_gs_packet-gs :
        (h : GsGeoLocationHeader)
        → GsGeoLocation.IsInRange h
        → secure_gs_packet w e key iv aad (gs_bytes h)
          ≡ some (
              TypeTag.serialize w (new_type_header secure_gs_geolocation)
              ++ SecureGsGeoLocation.serialize w (sealed_gs h))
    unfolding secure_gs_packet
    secure_gs_packet-gs h r =
        let size : length (GsGeoLocation.serialize w h) ≡ 44 =
          omega
            (arith, (deserialize-serialize_gs_geolocation w laws h [] r).0, laws.size_address) in
        let back = (deserialize-serialize_gs_geolocation w laws h [] r).1 in
        let type =
          deserialize-serialize_type w laws (new_type_header gs_geolocation)
            (new_type_header gs_geolocation) (GsGeoLocation.serialize w h) in
        let text : take 44 (GsGeoLocation.serialize w h) ≡ GsGeoLocation.serialize w h =
          rw (append-nil (GsGeoLocation.serialize w h)) at
            (take-append 44 (GsGeoLocation.serialize w h) [] size) in
        ground (
          arith,
          type,
          text,
          back,
          append-nil (GsGeoLocation.serialize w h),
          append-nil (SecureGsGeoLocation.serialize w (sealed_gs h)),
        )

    length-sealed_hello :
        (h : HelloHeader)
        → Hello.IsInRange h
        → length (
            TypeTag.serialize w (new_type_header secure_hello)
            ++ SecureHello.serialize w (sealed_hello h))
          ≡ 42
    length-sealed_hello h r =
        let size =
          (deserialize-serialize_secure_hello w laws (sealed_hello h) []
            (sealed_hello-IsInRange h r)).0 in
        omega (arith, size, length-type secure_hello, length-append {0})

    length-sealed_gs :
        (h : GsGeoLocationHeader)
        → GsGeoLocation.IsInRange h
        → length (
            TypeTag.serialize w (new_type_header secure_gs_geolocation)
            ++ SecureGsGeoLocation.serialize w (sealed_gs h))
          ≡ 61
    length-sealed_gs h r =
        let size =
          (deserialize-serialize_secure_gs_geolocation w laws (sealed_gs h) []
            (sealed_gs-IsInRange h r)).0 in
        omega (arith, size, length-type secure_gs_geolocation, length-append {0})

    -- The three tests make the encrypted packet of a hello packet, and leave it.
    pub secure_bytes-hello :
        (h : HelloHeader)
        → Hello.IsInRange h
        → secure_bytes w e key iv aad (hello_bytes h)
          ≡ some (
            TypeTag.serialize w (new_type_header secure_hello)
                ++ SecureHello.serialize w (sealed_hello h),
            false,
          )
    unfolding secure_bytes
    secure_bytes-hello h r =
        let size = (deserialize-serialize_hello w laws h [] r).0 in
        let whole : length (hello_bytes h) ≡ 26 =
          omega (arith, size, length-type hello, length-append {0}) in
        ground (arith, whole, secure_hello_packet-hello h r, length-sealed_hello h r)

    pub secure_bytes-gs :
        (h : GsGeoLocationHeader)
        → GsGeoLocation.IsInRange h
        → secure_bytes w e key iv aad (gs_bytes h)
          ≡ some (
            TypeTag.serialize w (new_type_header secure_gs_geolocation)
                ++ SecureGsGeoLocation.serialize w (sealed_gs h),
            false,
          )
    unfolding secure_bytes
    secure_bytes-gs h r =
        let size : length (GsGeoLocation.serialize w h) ≡ 44 =
          omega
            (arith, (deserialize-serialize_gs_geolocation w laws h [] r).0, laws.size_address) in
        let whole : length (gs_bytes h) ≡ 45 =
          omega (arith, size, laws.size_address, length-type gs_geolocation, length-append {0}) in
        ground (arith, whole, secure_gs_packet-gs h r, length-sealed_gs h r)
