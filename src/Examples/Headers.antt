-- ===== src/Examples/Headers.antt =====
-- Headers written to a buffer and read from it, with a byte behind them.
use saero_rp.Prelude.{
  ℕ, zero, suc, ◌^◌, ◌<◌, ◌≡◌, refl, false, none, some, List, [], ◌∷◌, ◌++◌, arith, length, All,
}
use saero_rp.Wire.{IsBytes}
use saero_rp.Wire.LittleEndian.{little_endian, little_endian-IsWire}
use saero_rp.Packet.TypeTag.{
  TypeHeader, MessageType, authentication_request, gs_topology, new_type_header,
  deserialize-serialize_type, deserialize_unknown,
}
use saero_rp.Packet.TypeTag
use saero_rp.Packet.AuthenticationRequest
use saero_rp.Packet.AuthenticationRequest.{
  AuthenticationRequestHeader, deserialize-serialize_authentication_request,
}
use saero_rp.Packet.Messages.{a_request, deserialize-serialize_message}
use saero_rp.Packet.GsTopology
use saero_rp.Packet.GsTopology.{GsTopologyHeader, deserialize-serialize_gs_topology}

-- Bytes to fill an array.
unfoldable pub filler : ℕ → List ℕ
filler zero = []
filler (suc n) = 7 ∷ filler n

length-filler : (n : ℕ) → length (filler n) ≡ n
unfolding filler
length-filler zero = refl
length-filler (suc n) = omega (arith, length-filler n)

filler-All : (n : ℕ) → All (λ b. b < 2 ^ 8) (filler n)
unfolding filler
filler-All zero = tt
filler-All (suc n) = (omega arith, filler-All n)

pub filler-IsBytes : (n : ℕ) → IsBytes n (filler n)
filler-IsBytes n = (length-filler n, filler-All n)

abbrev topology : TypeHeader
topology = record { type = gs_topology; valid = false }

abbrev authentication_request_header : AuthenticationRequestHeader
authentication_request_header = record {
  cert = filler 727;
  time_stamp = 1000;
  random_no = 77;
  identification = 1;
  sign = filler 256;
}

-- A request in a packet.
deserialize-serialize_message_example :
    (TypeTag.deserialize little_endian topology (
        (TypeTag.serialize little_endian (new_type_header authentication_request)
          ++ AuthenticationRequest.serialize little_endian authentication_request_header)
        ++ 9 ∷ [])
      ≡ some (
        new_type_header authentication_request,
        AuthenticationRequest.serialize little_endian authentication_request_header ++ 9 ∷ [],
      ))
    × (AuthenticationRequest.deserialize little_endian
          (AuthenticationRequest.serialize little_endian authentication_request_header ++ 9 ∷ [])
        ≡ some (authentication_request_header, 9 ∷ []))
    × (length (AuthenticationRequest.serialize little_endian authentication_request_header)
        ≡ AuthenticationRequest.get_serialized_size little_endian)
deserialize-serialize_message_example =
    deserialize-serialize_message little_endian little_endian-IsWire
      (a_request authentication_request_header) topology (9 ∷ [])
      (record {
        cert_range = filler-IsBytes 727;
        time_stamp_range = omega arith;
        random_no_range = omega arith;
        identification_range = omega arith;
        sign_range = filler-IsBytes 256;
      })

abbrev gs_topology_header : GsTopologyHeader
gs_topology_header = record {
  node1 = 7;
  node2 = 9;
  link_cost = 3;
  link_start_time = 1000;
  link_end_time = 2000;
}

deserialize-serialize_gs_topology_example :
    (length (GsTopology.serialize little_endian gs_topology_header) ≡ 28)
    × (GsTopology.read_fields little_endian
          (GsTopology.serialize little_endian gs_topology_header ++ 9 ∷ [])
        ≡ some (gs_topology_header, 9 ∷ []))
    × (GsTopology.deserialize little_endian
          (GsTopology.serialize little_endian gs_topology_header ++ 9 ∷ [])
        ≡ none)
deserialize-serialize_gs_topology_example =
    deserialize-serialize_gs_topology little_endian little_endian-IsWire gs_topology_header (9 ∷ [])
      (record {
        node1_range = omega arith;
        node2_range = omega arith;
        link_cost_range = omega arith;
        link_start_time_range = omega arith;
        link_end_time_range = omega arith;
      })
