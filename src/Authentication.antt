-- ===== src/Authentication.antt =====
-- The authentication of a node at the ground station: the packets and checks of
-- aerorp-routing-protocol.cc. A time is a number of nanoseconds.
pub mod Timing
pub mod Handshake
use saero_rp.Prelude.{
  ℕ, suc, zero, ◌+◌, ◌*◌, ◌/◌, ◌%◌, ◌^◌, Bool, true, false, ◌&&◌, List, [], ◌∷◌, ◌++◌, ◌==◌, leb,
  if◌then◌else◌, map,
}
use saero_rp.Secure.{Platform}
use saero_rp.Node.{Env, Node, Crypto, Status, unauth, auth}
use saero_rp.Packet.AuthenticationRequest.{AuthenticationRequestHeader}
use saero_rp.Packet.AuthenticationReply.{AuthenticationReplyHeader}

-- `SetANData`: eight bytes of the time, four of the random number, and the identification.
unfoldable pub set_an_data : Platform → ℕ → ℕ → ℕ → List ℕ
set_an_data p timer randno identifier = p.u64_bytes timer ++ (p.u32_bytes randno ++ identifier ∷ [])

-- `SetGSData`
unfoldable pub set_gs_data : Platform → ℕ → ℕ → ℕ → ℕ → List ℕ → List ℕ
set_gs_data p timer gsrandno anrandno identifier encrypted =
    p.u64_bytes timer
    ++ (p.u32_bytes gsrandno ++ (p.u32_bytes anrandno ++ (identifier ∷ encrypted)))

-- `Time::GetMilliSeconds`
abbrev pub milliseconds : ℕ → ℕ
milliseconds t = t / 10 ^ 6

-- `VerifyTimeStamp`: a time stamp is good for five seconds.
unfoldable pub verify_time_stamp : ℕ → ℕ → Bool
verify_time_stamp timestamp now = leb now (timestamp + 5 * 10 ^ 9)

-- The bytes 0, 1, 2, ... from one on.
abbrev pub count_up : ℕ → ℕ → List ℕ
count_up zero i = []
count_up (suc n) i = (i % 2 ^ 8) ∷ count_up n (i + 1)

-- `CertificateAuthority::GenerateSharedKey` fills the key with its indices.
unfoldable pub generate_shared_key : ℕ → List ℕ
generate_shared_key size = count_up size 0

-- A packet that is sent: its destination, and its header.
pub record Request : Type 0 where
  pub destination : ℕ
  pub header : AuthenticationRequestHeader

pub record Reply : Type 0 where
  pub destination : ℕ
  pub header : AuthenticationReplyHeader

module _ (env : Env) where
  open env use {crypto, platform}

  -- `VerifyIdentification`
  unfoldable pub verify_identification : Node env → ℕ → Bool
  verify_identification n identification = identification == n.node_id

  -- `VerifyRandomNo`
  unfoldable pub verify_random_no : Node env → ℕ → Bool
  verify_random_no n randno = randno == n.my_random_no

  -- `CheckPacketValidity`, of a certificate, a time stamp, an identification, data and a signature.
  unfoldable pub check_packet_validity : Node env → crypto.Cert → ℕ → ℕ → List ℕ → List ℕ → ℕ → Bool
  unfolding verify_identification verify_time_stamp
  check_packet_validity n cert timestamp identification data' sign now =
      crypto.verify_cert cert
      && (verify_time_stamp timestamp now
          && (crypto.verify_sign (crypto.public_key cert) data' sign
              && verify_identification n identification))

  -- `SendAuthenticationRequestPacket`, to the ground station's address: one packet for each socket.
  unfoldable pub send_authentication_request_packet : Node env → ℕ → ℕ → List Request
  unfolding set_an_data
  send_authentication_request_packet n ground_station now =
      let time = milliseconds now in
      let data' = set_an_data platform time n.my_random_no 0 in
      map
        (λ socket. record {
          destination = ground_station;
          header = record {
            cert = n.certificate;
            time_stamp = time;
            random_no = n.my_random_no;
            identification = 0;
            sign = crypto.sign_data n.key_pair data';
          };
        })
        n.auth_sockets

  -- `SendAuthenticationReplyPacket`
  unfoldable pub send_authentication_reply_packet :
      Node env → ℕ → ℕ → ℕ → crypto.PublicKey → ℕ → List Reply
  unfolding set_gs_data
  send_authentication_reply_packet n source identification anrandno key now =
      let time = milliseconds now in
      let encrypted = crypto.public_encrypt key n.shared_key in
      let data' = set_gs_data platform time n.my_random_no anrandno identification encrypted in
      map
        (λ socket. record {
          destination = source;
          header = record {
            cert = n.certificate;
            time_stamp = time;
            random_no = n.my_random_no;
            old_random_no = anrandno;
            identification = identification;
            shared_key = encrypted;
            sign = crypto.sign_data n.key_pair data';
          };
        })
        n.auth_sockets

  -- The time stamp that `RecvAERORP` checks: the result of `FromInteger` is discarded, so that it is
  -- that of the default constructor.
  abbrev pub sender_timestamp : ℕ
  sender_timestamp = 0

  -- The branch of `RecvAERORP` for a request, from the address `sender`.
  unfoldable pub recv_request : Node env → ℕ → AuthenticationRequestHeader → ℕ → List Reply
  unfolding check_packet_validity send_authentication_reply_packet set_an_data
  recv_request n sender h now =
      let cert = crypto.decode_cert h.cert in
      let data' = set_an_data platform h.time_stamp h.random_no h.identification in
      if check_packet_validity n cert sender_timestamp h.identification data' h.sign now
      then send_authentication_reply_packet n sender ((sender % 3232235777) % 2 ^ 8) h.random_no
          (crypto.public_key cert) now
      else []

  -- The branch of `RecvAERORP` for a reply.
  unfoldable pub recv_reply : Node env → AuthenticationReplyHeader → ℕ → Node env
  unfolding check_packet_validity verify_random_no set_gs_data
  recv_reply n h now =
      let cert = crypto.decode_cert h.cert in
      let data' =
        set_gs_data platform h.time_stamp h.random_no h.old_random_no h.identification
          h.shared_key in
      if check_packet_validity n cert sender_timestamp h.identification data' h.sign now
        && verify_random_no n h.old_random_no
      then record n {
        shared_key = crypto.private_decrypt n.key_pair h.shared_key n.shared_key;
        authentication_status = auth;
      }
      else record n { authentication_status = unauth }
