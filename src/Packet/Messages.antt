-- ===== src/Packet/Messages.antt =====
-- Whole control packets: a header of aerorp-packet.cc behind the type header that tells it.
use saero_rp.Prelude.{ℕ, ◌≡◌, some, List, ◌++◌, length, append_assoc}
use saero_rp.Wire.{Wire, IsWire}
use saero_rp.Packet.TypeTag.{
  MessageType, TypeHeader, new_type_header, hello, gs_geolocation, authentication_request,
  authentication_reply, secure_hello, secure_gs_geolocation, deserialize-serialize_type,
}
use saero_rp.Packet.TypeTag
use saero_rp.Packet.Hello
use saero_rp.Packet.Hello.{HelloHeader, deserialize-serialize_hello}
use saero_rp.Packet.GsGeoLocation
use saero_rp.Packet.GsGeoLocation.{GsGeoLocationHeader, deserialize-serialize_gs_geolocation}
use saero_rp.Packet.AuthenticationRequest
use saero_rp.Packet.AuthenticationRequest.{
  AuthenticationRequestHeader, deserialize-serialize_authentication_request,
}
use saero_rp.Packet.AuthenticationReply
use saero_rp.Packet.AuthenticationReply.{
  AuthenticationReplyHeader, deserialize-serialize_authentication_reply,
}
use saero_rp.Packet.SecureHello
use saero_rp.Packet.SecureHello.{SecureHelloHeader, deserialize-serialize_secure_hello}
use saero_rp.Packet.SecureGsGeoLocation
use saero_rp.Packet.SecureGsGeoLocation.{
  SecureGsGeoLocationHeader, deserialize-serialize_secure_gs_geolocation,
}

-- The header of a control packet that nodes exchange.
pub data Content : Type 0 where
  a_hello : HelloHeader → Content
  a_gs : GsGeoLocationHeader → Content
  a_request : AuthenticationRequestHeader → Content
  a_reply : AuthenticationReplyHeader → Content
  a_secure_hello : SecureHelloHeader → Content
  a_secure_gs : SecureGsGeoLocationHeader → Content

abbrev pub type_of : Content → MessageType
type_of (a_hello h) = hello
type_of (a_gs h) = gs_geolocation
type_of (a_request h) = authentication_request
type_of (a_reply h) = authentication_reply
type_of (a_secure_hello h) = secure_hello
type_of (a_secure_gs h) = secure_gs_geolocation

abbrev pub IsInRange : Content → Type 0
IsInRange (a_hello h) = Hello.IsInRange h
IsInRange (a_gs h) = GsGeoLocation.IsInRange h
IsInRange (a_request h) = AuthenticationRequest.IsInRange h
IsInRange (a_reply h) = AuthenticationReply.IsInRange h
IsInRange (a_secure_hello h) = SecureHello.IsInRange h
IsInRange (a_secure_gs h) = SecureGsGeoLocation.IsInRange h

module _ (w : Wire) where
  abbrev pub body : Content → List ℕ
  body (a_hello h) = Hello.serialize w h
  body (a_gs h) = GsGeoLocation.serialize w h
  body (a_request h) = AuthenticationRequest.serialize w h
  body (a_reply h) = AuthenticationReply.serialize w h
  body (a_secure_hello h) = SecureHello.serialize w h
  body (a_secure_gs h) = SecureGsGeoLocation.serialize w h

  abbrev pub size_of : Content → ℕ
  size_of (a_hello h) = Hello.get_serialized_size
  size_of (a_gs h) = GsGeoLocation.get_serialized_size w
  size_of (a_request h) = AuthenticationRequest.get_serialized_size w
  size_of (a_reply h) = AuthenticationReply.get_serialized_size w
  size_of (a_secure_hello h) = SecureHello.get_serialized_size w
  size_of (a_secure_gs h) = SecureGsGeoLocation.get_serialized_size w

  -- The header's class reads it from the bytes and leaves the rest.
  abbrev pub ReadsBack : Content → List ℕ → List ℕ → Type 0
  ReadsBack (a_hello h) bytes rest = Hello.deserialize w bytes ≡ some (h, rest)
  ReadsBack (a_gs h) bytes rest = GsGeoLocation.deserialize w bytes ≡ some (h, rest)
  ReadsBack (a_request h) bytes rest = AuthenticationRequest.deserialize w bytes ≡ some (h, rest)
  ReadsBack (a_reply h) bytes rest = AuthenticationReply.deserialize w bytes ≡ some (h, rest)
  ReadsBack (a_secure_hello h) bytes rest = SecureHello.deserialize w bytes ≡ some (h, rest)
  ReadsBack (a_secure_gs h) bytes rest = SecureGsGeoLocation.deserialize w bytes ≡ some (h, rest)

  module _ (laws : IsWire w) where
    body-ReadsBack :
        (c : Content) (rest : List ℕ)
        → IsInRange c
        → (length (body c) ≡ size_of c) × ReadsBack c (body c ++ rest) rest
    body-ReadsBack (a_hello h) rest r = deserialize-serialize_hello w laws h rest r
    body-ReadsBack (a_gs h) rest r = deserialize-serialize_gs_geolocation w laws h rest r
    body-ReadsBack (a_request h) rest r =
        deserialize-serialize_authentication_request w laws h rest r
    body-ReadsBack (a_reply h) rest r = deserialize-serialize_authentication_reply w laws h rest r
    body-ReadsBack (a_secure_hello h) rest r = deserialize-serialize_secure_hello w laws h rest r
    body-ReadsBack (a_secure_gs h) rest r =
        deserialize-serialize_secure_gs_geolocation w laws h rest r

    -- A packet of a type header and the header of that type, whose fields are in the ranges of
    -- their types, followed by any bytes: the type header reads back, whatever it was before, with
    -- the type's number; behind it the header of the type reads back and leaves the bytes that
    -- follow; and `Serialize` writes as many bytes as `GetSerializedSize` says. This is so for the
    -- hello, ground station, request, reply, secure hello and secure ground station headers.
    pub deserialize-serialize_message :
        (c : Content) (t : TypeHeader) (rest : List ℕ)
        → IsInRange c
        → (TypeTag.deserialize w t
              ((TypeTag.serialize w (new_type_header (type_of c)) ++ body c) ++ rest)
            ≡ some (new_type_header (type_of c), body c ++ rest))
          × ReadsBack c (body c ++ rest) rest
          × (length (body c) ≡ size_of c)
    unfolding new_type_header
    deserialize-serialize_message c t rest r =
        let back = body-ReadsBack c rest r in
        let type =
          deserialize-serialize_type w laws t (new_type_header (type_of c)) (body c ++ rest) in
        (
          rw (append_assoc (TypeTag.serialize w (new_type_header (type_of c))) (body c) rest) type,
          back.1,
          back.0,
        )
