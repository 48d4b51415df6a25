-- ===== src/Reception/Gate.antt =====
-- What `RecvAERORP` of aerorp-routing-protocol.cc ignores.
use saero_rp.Prelude.{
  ℕ, ◌≤◌, ◌<◌, ◌^◌, ◌≡◌, ◌≢◌, refl, true, ◌&&◌, some, List, [], ◌++◌, arith, if◌then◌else◌,
}
use saero_rp.Wire.{IsWire}
use saero_rp.Secure.{Message}
use saero_rp.Node.{Env, Node, unauth}
use saero_rp.Packet.TypeTag
use saero_rp.Packet.TypeTag.{
  MessageType, hello, secure_hello, gs_geolocation, gs_topology, authentication_request,
  authentication_reply, secure_gs_geolocation, new_type_header, deserialize-serialize_type,
  deserialize_unknown,
}
use saero_rp.Reception.{recv, recv_type, is_gated, is_unauth}

gate-closed :
    (t : MessageType)
    → t ≢ gs_topology
    → t ≢ authentication_request
    → t ≢ authentication_reply
    → is_gated t ≡ true
gate-closed hello h1 h2 h3 = refl
gate-closed gs_geolocation h1 h2 h3 = refl
gate-closed gs_topology h1 h2 h3 = absurd (h1 refl)
gate-closed authentication_request h1 h2 h3 = absurd (h2 refl)
gate-closed authentication_reply h1 h2 h3 = absurd (h3 refl)
gate-closed secure_hello h1 h2 h3 = refl
gate-closed secure_gs_geolocation h1 h2 h3 = refl

module _ (env : Env) (laws : IsWire env.wire) where
  open env use {wire}

  -- A message of the type `t` with some bytes behind its type header.
  abbrev pub typed : MessageType → ℕ → List ℕ → Message
  typed t uid bytes = record {
    uid = uid;
    bytes = TypeTag.serialize wire (new_type_header t) ++ bytes;
  }

  -- `RecvAERORP` of a message with a type header goes on with its type, unless the gate holds it.
  pub recv-typed :
      (n : Node env) (sender uid now : ℕ) (t : MessageType) (bytes : List ℕ)
      → recv env n sender (typed t uid bytes) now ≡ (
          if is_unauth n.authentication_status && (n.security_state && is_gated t)
          then some (n, [])
          else recv_type env n t sender uid bytes now)
  unfolding recv new_type_header
  recv-typed n sender uid now t bytes = ground (
    arith,
    deserialize-serialize_type wire laws (new_type_header hello) (new_type_header t) bytes,
  )

  -- A node in secure mode that is not authenticated ignores every message that is no request, reply
  -- or topology message, whatever its bytes; and every node ignores a message whose type byte is
  -- not one of 1 to 7.
  pub recv_ignored :
      (n : Node env) (sender uid now b : ℕ) (t : MessageType) (bytes : List ℕ)
      → n.security_state ≡ true
      → n.authentication_status ≡ unauth
      → t ≢ gs_topology
      → t ≢ authentication_request
      → t ≢ authentication_reply
      → b < 2 ^ 8
      → ¬ ((1 ≤ b) × (b ≤ 7))
      → (recv env n sender (typed t uid bytes) now ≡ some (n, []))
        × ((n' : Node env)
            → recv env n' sender (record { uid = uid; bytes = wire.write_u8 b ++ bytes }) now
              ≡ some (n', []))
  unfolding recv
  recv_ignored n sender uid now b t bytes secure fresh h1 h2 h3 small unknown = (
    ground (arith, recv-typed n sender uid now t bytes, fresh, gate-closed t h1 h2 h3),
    λ n'.
        ground (arith, deserialize_unknown wire laws (new_type_header hello) b bytes small unknown),
  )
