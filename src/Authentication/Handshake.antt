-- ===== src/Authentication/Handshake.antt =====
-- The authentication of a node at the ground station: from `SendAuthenticationRequestPacket` of
-- aerorp-routing-protocol.cc to the reply at `RecvAERORP`.
use saero_rp.Prelude.{ℕ, ◌*◌, ◌%◌, ◌^◌, ◌<◌, ◌≤◌, ◌≡◌, true, List, [], ◌∷◌, arith, map, All, length}
use saero_rp.Wire.{IsBytes}
use saero_rp.Node.{Env, Node, auth}
use saero_rp.Packet.AuthenticationRequest.{AuthenticationRequestHeader}
use saero_rp.Packet.AuthenticationReply.{AuthenticationReplyHeader}
use saero_rp.Authentication.{
  verify_time_stamp, verify_identification, verify_random_no, check_packet_validity, recv_request,
  recv_reply, set_an_data, set_gs_data, send_authentication_reply_packet, milliseconds,
}

-- What holds of a node with a certificate of the authority: OpenSSL accepts the certificate and
-- verifies with its public key what the node's keys sign, and the node's keys decrypt what this
-- public key encrypts, a text and a buffer of SHARED_KEY_SIZE, 32, bytes. The values have the sizes
-- of their arrays.
pub record IsCertified (env : Env) (n : Node env) : Type 0 where
  pub certified : env.crypto.verify_cert (env.crypto.decode_cert n.certificate) ≡ true
  pub signed :
      (text : List ℕ)
      → env.crypto.verify_sign
          (env.crypto.public_key (env.crypto.decode_cert n.certificate))
          text
          (env.crypto.sign_data n.key_pair text)
        ≡ true
  pub decrypted :
      (text buffer : List ℕ)
      → IsBytes 32 text
      → length buffer ≡ 32
      → env.crypto.private_decrypt n.key_pair
          (env.crypto.public_encrypt
            (env.crypto.public_key (env.crypto.decode_cert n.certificate))
            text)
          buffer
        ≡ text
  pub encrypted_range :
      (text : List ℕ)
      → IsBytes 32 text
      → IsBytes 256 (
          env.crypto.public_encrypt
            (env.crypto.public_key (env.crypto.decode_cert n.certificate))
            text)
  pub certificate_range : IsBytes 727 n.certificate
  pub sign_range : (text : List ℕ) → IsBytes 256 (env.crypto.sign_data n.key_pair text)
  pub random_range : n.my_random_no < 2 ^ 32

-- What holds of an element's image holds of all images.
pub map-All :
    {A B : Type 0} (P : B → Type 0) (f : A → B) (xs : List A)
    → ((x : A) → P (f x))
    → All P (map f xs)
map-All P f [] h = tt
map-All P f (x ∷ xs) h = (h x, map-All P f xs h)

module _ (env : Env) where
  -- The headers that the two nodes build.
  abbrev pub request_header : Node env → ℕ → AuthenticationRequestHeader
  request_header a t = record {
    cert = a.certificate;
    time_stamp = milliseconds t;
    random_no = a.my_random_no;
    identification = 0;
    sign =
        env.crypto.sign_data a.key_pair
          (set_an_data env.platform (milliseconds t) a.my_random_no 0);
  }

  abbrev pub reply_header : Node env → Node env → ℕ → AuthenticationReplyHeader
  reply_header g a t =
      let encrypted =
        env.crypto.public_encrypt (env.crypto.public_key (env.crypto.decode_cert a.certificate))
          g.shared_key in
      record {
        cert = g.certificate;
        time_stamp = milliseconds t;
        random_no = g.my_random_no;
        old_random_no = a.my_random_no;
        identification = a.node_id;
        shared_key = encrypted;
        sign = env.crypto.sign_data g.key_pair (
            set_gs_data env.platform (milliseconds t) g.my_random_no a.my_random_no a.node_id
              encrypted);
      }

  pub recv_request-request_header :
      (a g : Node env) (sender t0 t1 : ℕ)
      → IsCertified env a
      → g.node_id ≡ 0
      → (sender % 3232235777) % 2 ^ 8 ≡ a.node_id
      → t1 ≤ 5 * 10 ^ 9
      → recv_request env g sender (request_header a t0) t1
        ≡ map (λ s. record { destination = sender; header = reply_header g a t1 }) g.auth_sockets
  unfolding recv_request check_packet_validity verify_time_stamp verify_identification
      send_authentication_reply_packet
  recv_request-request_header a g sender t0 t1 ca gs id early =
      ground (
        arith,
        ca.certified,
        ca.signed (set_an_data env.platform (milliseconds t0) a.my_random_no 0),
      )

  pub recv_reply-reply_header :
      (a g : Node env) (t1 t2 : ℕ)
      → IsCertified env a
      → IsCertified env g
      → length a.shared_key ≡ 32
      → IsBytes 32 g.shared_key
      → t2 ≤ 5 * 10 ^ 9
      → recv_reply env a (reply_header g a t1) t2
        ≡ record a { shared_key = g.shared_key; authentication_status = auth }
  unfolding recv_reply check_packet_validity verify_time_stamp verify_identification
      verify_random_no
  recv_reply-reply_header a g t1 t2 ca cg size key early =
      let hdr = reply_header g a t1 in
      ground (
        arith,
        cg.certified,
        cg.signed (
            set_gs_data env.platform (milliseconds t1) g.my_random_no a.my_random_no a.node_id
              hdr.shared_key),
        ca.decrypted g.shared_key a.shared_key key size,
      )
