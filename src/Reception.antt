-- ===== src/Reception.antt =====
-- `RecvAERORP` of aerorp-routing-protocol.cc: what a node does with a control packet.
pub mod Gate
pub mod Delivery
pub mod Runs
pub mod Admission
use saero_rp.Prelude.{
  ℕ, Bool, true, false, ◌&&◌, Option, none, some, List, [], ◌∷◌, ◌++◌, ◌==◌, if◌then◌else◌, take,
  drop,
}
use saero_rp.Prelude.Int.{ℤ, pos, negsuc}
use saero_rp.Double.{Vector}
use saero_rp.Neighbor
use saero_rp.Positions
use saero_rp.Routing.{Router}
use saero_rp.Routing.Velocity.{decode, position_of}
use saero_rp.Secure.{Message, iv_of}
use saero_rp.Gcm.{dencryption}
use saero_rp.Node.{Env, Node, Status, unauth, auth}
use saero_rp.Authentication.{Reply, recv_request, recv_reply}
use saero_rp.Packet.TypeTag.{
  MessageType, hello, gs_geolocation, gs_topology, authentication_request, authentication_reply,
  secure_hello, secure_gs_geolocation, TypeHeader, new_type_header,
}
use saero_rp.Packet.TypeTag
use saero_rp.Packet.Hello.{HelloHeader}
use saero_rp.Packet.Hello
use saero_rp.Packet.GsGeoLocation.{GsGeoLocationHeader}
use saero_rp.Packet.GsGeoLocation
use saero_rp.Packet.AuthenticationRequest
use saero_rp.Packet.AuthenticationReply
use saero_rp.Packet.SecureHello
use saero_rp.Packet.SecureGsGeoLocation

-- The types that a node in secure mode takes only after its authentication.
abbrev pub is_gated : MessageType → Bool
is_gated hello = true
is_gated gs_geolocation = true
is_gated gs_topology = false
is_gated authentication_request = false
is_gated authentication_reply = false
is_gated secure_hello = true
is_gated secure_gs_geolocation = true

abbrev pub is_unauth : Status → Bool
is_unauth unauth = true
is_unauth auth = false

-- `check == 1`
abbrev pub is_one : ℤ → Bool
is_one (pos n) = n == 1
is_one (negsuc n) = false

module _ (env : Env) where
  open env use {host, wire, evp, platform}
  open host use {double, end_neighbor, end_position}

  -- `UpdateRouteToNeighbor`
  unfoldable pub update_route_to_neighbor :
      Node env → ℕ → Vector double.F → Vector double.F → ℕ → Node env
  update_route_to_neighbor n sender position velocity now = record n {
    router = record n.router {
      neighbors = Neighbor.add_entry end_neighbor n.router.neighbors sender position velocity now;
    };
  }

  -- `UpdateRouteToNodes`, which does not use the velocity.
  unfoldable pub update_route_to_nodes : Node env → ℕ → Vector double.F → ℕ → Node env
  update_route_to_nodes n node position now = record n {
    router = record n.router {
      nodes_position = Positions.add_entry end_position n.router.nodes_position node position now;
    };
  }

  -- What a hello header does, in clear or decrypted.
  unfoldable pub recv_hello : Node env → ℕ → HelloHeader → ℕ → Node env
  unfolding update_route_to_neighbor
  recv_hello n sender h now =
      update_route_to_neighbor n sender (position_of double h) (decode double env.unset h) now

  unfoldable pub recv_gs : Node env → GsGeoLocationHeader → ℕ → Node env
  unfolding update_route_to_nodes
  recv_gs n h now =
      let position : Vector double.F = record {
        x = double.of_u32 h.xcoordinate;
        y = double.of_u32 h.ycoordinate;
        z = double.of_u32 h.zcoordinate;
      } in
      update_route_to_nodes n h.node position now

  -- The branch for an encrypted hello packet with the number `uid`, behind its type header. `none` is
  -- a read past the end, or a failed assertion.
  unfoldable pub recv_secure_hello : Node env → ℕ → ℕ → List ℕ → ℕ → Option (Node env)
  unfolding recv_hello
  recv_secure_hello n sender uid bytes now = elim (SecureHello.deserialize wire bytes) [
    | none ↦ none
    | some (sealed, rest) ↦
        let (check, text) =
          dencryption evp (take 25 bytes) n.aad_to_be_checked (take 16 (drop 25 bytes)) n.shared_key
            (iv_of platform uid) in
        if is_one check
        then elim (Hello.deserialize wire text) [
          | none ↦ none
          | some (h, rest') ↦ some (recv_hello n sender h now)
        ]
        else some n
  ]

  unfoldable pub recv_secure_gs : Node env → ℕ → List ℕ → ℕ → Option (Node env)
  unfolding recv_gs
  recv_secure_gs n uid bytes now = elim (SecureGsGeoLocation.deserialize wire bytes) [
    | none ↦ none
    | some (sealed, rest) ↦
        let (check, text) =
          dencryption evp (take 44 bytes) n.aad_to_be_checked (take 16 (drop 44 bytes)) n.shared_key
            (iv_of platform uid) in
        if is_one check
        then elim (GsGeoLocation.deserialize wire text) [
          | none ↦ none
          | some (h, rest') ↦ some (recv_gs n h now)
        ]
        else some n
  ]

  -- The branches by type, behind the type header: the node, and the replies that it sends.
  unfoldable pub recv_type :
      Node env → MessageType → ℕ → ℕ → List ℕ → ℕ → Option (Node env × List Reply)
  recv_type n hello sender uid bytes now = elim (Hello.deserialize wire bytes) [
    | none ↦ none
    | some (h, rest) ↦ some (recv_hello n sender h now, [])
  ]
  recv_type n gs_geolocation sender uid bytes now = elim (GsGeoLocation.deserialize wire bytes) [
    | none ↦ none
    | some (h, rest) ↦ some (recv_gs n h now, [])
  ]
  recv_type n gs_topology sender uid bytes now = some (n, [])
  recv_type n authentication_request sender uid bytes now =
      elim (AuthenticationRequest.deserialize wire bytes) [
        | none ↦ none
        | some (h, rest) ↦ some (n, recv_request env n sender h now)
      ]
  recv_type n authentication_reply sender uid bytes now =
      elim (AuthenticationReply.deserialize wire bytes) [
        | none ↦ none
        | some (h, rest) ↦ some (recv_reply env n h now, [])
      ]
  recv_type n secure_hello sender uid bytes now = elim (recv_secure_hello n sender uid bytes now) [
    | none ↦ none
    | some n' ↦ some (n', [])
  ]
  recv_type n secure_gs_geolocation sender uid bytes now = elim (recv_secure_gs n uid bytes now) [
    | none ↦ none
    | some n' ↦ some (n', [])
  ]

  -- `RecvAERORP` of a message from the address `sender`.
  unfoldable pub recv : Node env → ℕ → Message → ℕ → Option (Node env × List Reply)
  recv n sender m now = elim (TypeTag.deserialize wire (new_type_header hello) m.bytes) [
    | none ↦ none
    | some (t, bytes) ↦
        let handled = recv_type n t.type sender m.uid bytes now in
        if t.valid
        then (if is_unauth n.authentication_status && (n.security_state && is_gated t.type)
            then some (n, [])
            else handled)
        else some (n, [])
  ]
