-- ===== src/Reception/Admission.antt =====
-- The authentication of a node at the ground station, from message to message: what
-- `SendAuthenticationRequestPacket` sends and `RecvAERORP` of both nodes, of
-- aerorp-routing-protocol.cc.
use saero_rp.Prelude.{
  ℕ, ◌*◌, ◌%◌, ◌^◌, ◌<◌, ◌≤◌, ◌≡◌, refl, some, List, [], ◌∷◌, arith, map, All, length, append-nil,
}
use saero_rp.Wire.{IsWire, IsBytes}
use saero_rp.Secure.{Message}
use saero_rp.Node.{Env, Node, auth}
use saero_rp.Packet.TypeTag.{authentication_request, authentication_reply}
use saero_rp.Packet.AuthenticationRequest.{
  AuthenticationRequestHeader, deserialize-serialize_authentication_request,
}
use saero_rp.Packet.AuthenticationRequest
use saero_rp.Packet.AuthenticationReply.{
  AuthenticationReplyHeader, deserialize-serialize_authentication_reply,
}
use saero_rp.Packet.AuthenticationReply
use saero_rp.Authentication.{
  recv_request, recv_reply, Reply, send_authentication_request_packet, milliseconds,
}
use saero_rp.Authentication.Handshake.{
  IsCertified, map-All, request_header, reply_header, recv_request-request_header,
  recv_reply-reply_header,
}
use saero_rp.Reception.{recv, recv_type}
use saero_rp.Reception.Gate.{typed, recv-typed}

-- The milliseconds of a time of the first five seconds.
milliseconds-small : (t : ℕ) → t ≤ 5 * 10 ^ 9 → milliseconds t < 2 ^ 64
milliseconds-small t h = omega arith

length-map : {A B : Type 0} (f : A → B) (xs : List A) → length (map f xs) ≡ length xs
length-map f [] = refl
length-map f (x ∷ xs) = omega (arith, length-map f xs)

module _ (env : Env) (laws : IsWire env.wire) where
  open env use {wire}

  -- The messages of a request and of a reply.
  abbrev pub request_message : ℕ → AuthenticationRequestHeader → Message
  request_message uid h =
      typed env laws authentication_request uid (AuthenticationRequest.serialize wire h)

  abbrev pub reply_message : ℕ → AuthenticationReplyHeader → Message
  reply_message uid h =
      typed env laws authentication_reply uid (AuthenticationReply.serialize wire h)

  recv-request_message :
      (n : Node env) (sender uid now : ℕ) (h : AuthenticationRequestHeader)
      → AuthenticationRequest.IsInRange h
      → recv env n sender (request_message uid h) now ≡ some (n, recv_request env n sender h now)
  unfolding recv_type
  recv-request_message n sender uid now h r =
      let text = AuthenticationRequest.serialize wire h in
      ground (
        arith,
        recv-typed env laws n sender uid now authentication_request text,
        (deserialize-serialize_authentication_request wire laws h [] r).1,
        append-nil text,
      )

  recv-reply_message :
      (n : Node env) (sender uid now : ℕ) (h : AuthenticationReplyHeader)
      → AuthenticationReply.IsInRange h
      → recv env n sender (reply_message uid h) now ≡ some (recv_reply env n h now, [])
  unfolding recv_type
  recv-reply_message n sender uid now h r =
      let text = AuthenticationReply.serialize wire h in
      ground (
        arith,
        recv-typed env laws n sender uid now authentication_reply text,
        (deserialize-serialize_authentication_reply wire laws h [] r).1,
        append-nil text,
      )

  -- A reply of a certified ground station authenticates the node that it is for.
  pub recv-reply_header :
      (a g : Node env) (station uid t1 t2 : ℕ)
      → IsCertified env a
      → IsCertified env g
      → length a.shared_key ≡ 32
      → IsBytes 32 g.shared_key
      → a.node_id < 2 ^ 8
      → t1 ≤ t2
      → t2 ≤ 5 * 10 ^ 9
      → recv env a station (reply_message uid (reply_header env g a t1)) t2
        ≡ some (record a { shared_key = g.shared_key; authentication_status = auth }, [])
  recv-reply_header a g station uid' t1 t2 ca cg size key id le12 early =
      let reply = reply_header env g a t1 in
      let reply_range : AuthenticationReply.IsInRange reply = record {
        cert_range = cg.certificate_range;
        time_stamp_range = milliseconds-small t1 (omega arith);
        random_no_range = cg.random_range;
        old_random_no_range = ca.random_range;
        identification_range = omega arith;
        shared_key_range = ca.encrypted_range g.shared_key key;
        sign_range = cg.sign_range _;
      } in
      ground (
        arith,
        recv-reply_message a station uid' t2 reply reply_range,
        recv_reply-reply_header env a g t1 t2 ca cg size key early,
      )

  -- A node with a certificate of the authority that sends a request to a certified ground station
  -- (its identification is 0) in the first five seconds of a simulation gets from it, for each
  -- request, one reply for each of the station's sockets; each reply, received in these five
  -- seconds, authenticates the node and gives it the station's key. The node's identification is
  -- that which the station computes from the sender's address, and both keys have 32 bytes.
  pub handshake :
      (a g : Node env) (sender station uid uid' t0 t1 t2 : ℕ)
      → IsCertified env a
      → IsCertified env g
      → g.node_id ≡ 0
      → (sender % 3232235777) % 2 ^ 8 ≡ a.node_id
      → length a.shared_key ≡ 32
      → IsBytes 32 g.shared_key
      → t0 ≤ t1
      → t1 ≤ t2
      → t2 ≤ 5 * 10 ^ 9
      → let requests = send_authentication_request_packet env a station t0 in
        (length requests ≡ length a.auth_sockets)
        × All
            (λ request.
              (request.destination ≡ station)
              × ((replies : List Reply) × (recv env g sender (request_message uid request.header) t1
                    ≡ some (g, replies))
                  × (length replies ≡ length g.auth_sockets)
                  × All
                      (λ reply.
                        (reply.destination ≡ sender)
                        × (recv env a station (reply_message uid' reply.header) t2
                            ≡ some (
                              record a { shared_key = g.shared_key; authentication_status = auth },
                              [],
                            )))
                      replies))
            requests
  unfolding send_authentication_request_packet
  handshake a g sender station uid uid' t0 t1 t2 ca cg gs id size key le01 le12 early =
      let request = request_header env a t0 in
      let reply = reply_header env g a t1 in
      let request_range : AuthenticationRequest.IsInRange request = record {
        cert_range = ca.certificate_range;
        time_stamp_range = milliseconds-small t0 (omega arith);
        random_no_range = ca.random_range;
        identification_range = omega arith;
        sign_range = ca.sign_range _;
      } in
      let answered : recv env g sender (request_message uid request) t1
          ≡ some (g, map (λ s. record { destination = sender; header = reply }) g.auth_sockets) =
        ground (
          arith,
          recv-request_message g sender uid t1 request request_range,
          recv_request-request_header env a g sender t0 t1 ca gs id (omega arith),
        ) in
      let accepted =
        recv-reply_header a g station uid' t1 t2 ca cg size key (omega arith) le12 early in
      (
        length-map _ a.auth_sockets,
        map-All _ _ a.auth_sockets (λ socket. (
          refl,
          (
            map (λ s. record { destination = sender; header = reply }) g.auth_sockets,
            answered,
            length-map _ g.auth_sockets,
            map-All _ _ g.auth_sockets (λ socket'. (refl, accepted)),
          ),
        )),
      )
