-- ===== src/Authentication/Timing.antt =====
-- What the time stamp check of aerorp-routing-protocol.cc lets through.
use saero_rp.Prelude.{ℕ, ◌*◌, ◌^◌, ◌<◌, ◌≡◌, [], arith}
use saero_rp.Node.{Env, Node, unauth}
use saero_rp.Packet.AuthenticationRequest.{AuthenticationRequestHeader}
use saero_rp.Packet.AuthenticationReply.{AuthenticationReplyHeader}
use saero_rp.Authentication.{verify_time_stamp, check_packet_validity, recv_request, recv_reply}

-- More than five seconds after the start of the simulation, no request gets a reply, and every reply
-- leaves its receiver not authenticated, even an authenticated one, whatever they hold.
pub recv_late :
    (env : Env) (n : Node env) (sender now : ℕ) (request : AuthenticationRequestHeader)
    (reply : AuthenticationReplyHeader)
    → 5 * 10 ^ 9 < now
    → (recv_request env n sender request now ≡ [])
      × (recv_reply env n reply now ≡ record n { authentication_status = unauth })
unfolding recv_request recv_reply check_packet_validity verify_time_stamp
recv_late env n sender now request reply late = (ground arith, ground arith)
