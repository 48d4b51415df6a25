-- ===== src/Examples/Reception.antt =====
-- Messages at the nodes of Examples/Nodes.
use saero_rp.Prelude.{◌≡◌, refl, false, some, List, [], ◌∷◌, ◌++◌, arith, length, All}
use saero_rp.Wire.LittleEndian.{little_endian, little_endian-IsWire, little_endian-raw}
use saero_rp.Secure.{Message, secure}
use saero_rp.Secure.Undo.{hello_bytes}
use saero_rp.Node.{Node, unauth, auth}
use saero_rp.Packet.TypeTag.{hello}
use saero_rp.Packet.AuthenticationRequest.{AuthenticationRequestHeader}
use saero_rp.Packet.AuthenticationReply.{AuthenticationReplyHeader}
use saero_rp.Routing.Velocity.{hello_header}
use saero_rp.Authentication.{Reply, recv_request, recv_reply, send_authentication_request_packet}
use saero_rp.Authentication.Timing.{recv_late}
use saero_rp.Authentication.Handshake.{reply_header}
use saero_rp.Reception.{recv}
use saero_rp.Reception.Gate.{typed, recv_ignored}
use saero_rp.Reception.Delivery.{Knows, secure_hello_arrives}
use saero_rp.Reception.Admission.{request_message, reply_message, handshake, recv-reply_header}
use saero_rp.Reception.Runs.{
  Arrival, Run, start, next, receives, IsAdmitted, IsSameNode, run-IsAdmitted,
}
use saero_rp.Examples.Numbers.{point}
use saero_rp.Examples.Headers.{filler, filler-IsBytes}
use saero_rp.Examples.Nodes.{env, evp, evp-IsEvp, node, station, small, node-IsCertified}

-- A hello packet from the address 4 to the broadcast address 255.
secure_hello_arrives_example :
    (m : Message) × (n' : Node env) × (secure env.wire evp env.platform
        (node auth).shared_key
        4
        255
        0
        (record {
          uid = 10;
          bytes =
              hello_bytes little_endian little_endian-IsWire
                (hello_header env.host.double (point 1 2 3) (point 1 0 0));
        })
      ≡ some (m, false))
    × (recv env
          (node auth)
          4
          (record {
            uid = 10;
            bytes =
                hello_bytes little_endian little_endian-IsWire
                  (hello_header env.host.double (point 1 2 3) (point 1 0 0));
          })
          3
        ≡ some (n', []))
    × (recv env (node auth) 4 m 3 ≡ some (n', []))
    × Knows env n' 4 (point 1 2 3) (point 1 0 0) 3
secure_hello_arrives_example =
    secure_hello_arrives env little_endian-IsWire evp-IsEvp little_endian-raw small (node auth) 4 10
      4 255 0 3 (point 1 2 3) (point 1 0 0) refl refl (omega arith) (λ e. omega arith)
      (refl, refl, refl)

recv_ignored_example :
    (recv env (node unauth) 9 (typed env little_endian-IsWire hello 10 (1 ∷ 2 ∷ [])) 3
      ≡ some (node unauth, []))
    × ((n' : Node env)
        → recv env n' 9 (record { uid = 10; bytes = little_endian.write_u8 8 ++ 1 ∷ 2 ∷ [] }) 3
          ≡ some (n', []))
recv_ignored_example =
    recv_ignored env little_endian-IsWire (node unauth) 9 10 3 8 hello (1 ∷ 2 ∷ []) refl refl
      (λ e. ground arith) (λ e. ground arith) (λ e. ground arith) (omega arith) (λ h. omega arith)

abbrev request : AuthenticationRequestHeader
request = record {
  cert = filler 727;
  time_stamp = 6000;
  random_no = 77;
  identification = 0;
  sign = filler 256;
}

abbrev reply : AuthenticationReplyHeader
reply = record {
  cert = filler 727;
  time_stamp = 6000;
  random_no = 78;
  old_random_no = 77;
  identification = 5;
  shared_key = filler 256;
  sign = filler 256;
}

recv_late_example :
    (recv_request env (node auth) 6 request 6000000000 ≡ [])
    × (recv_reply env (node auth) reply 6000000000 ≡ node unauth)
recv_late_example = recv_late env (node auth) 6 6000000000 request reply (omega arith)

handshake_example :
    let requests = send_authentication_request_packet env (node unauth) 3232235777 1000 in
    (length requests ≡ 1)
    × All
        (λ request'.
          (request'.destination ≡ 3232235777)
          × ((replies : List Reply) × (recv env station 5
                  (request_message env little_endian-IsWire 10 request'.header)
                  2000
                ≡ some (station, replies))
              × (length replies ≡ 1)
              × All
                  (λ reply'.
                    (reply'.destination ≡ 5)
                    × (recv env
                          (node unauth)
                          3232235777
                          (reply_message env little_endian-IsWire 11 reply'.header)
                          3000
                        ≡ some (node auth, [])))
                  replies))
        requests
handshake_example =
    handshake env little_endian-IsWire (node unauth) station 5 3232235777 10 11 1000 2000 3000
      (node-IsCertified (node unauth) refl (omega arith))
      (node-IsCertified station refl (omega arith)) refl (omega arith) (filler-IsBytes 32).0
      (filler-IsBytes 32) (omega arith) (omega arith) (omega arith)

-- A hello message that is ignored, and then the reply of the ground station.
abbrev pub reply_of_station : Message
reply_of_station =
    reply_message env little_endian-IsWire 11 (reply_header env station (node unauth) 2000)

ignored :
    recv env (node unauth) 9 (typed env little_endian-IsWire hello 10 (1 ∷ 2 ∷ [])) 3
    ≡ some (node unauth, [])
ignored =
    (recv_ignored env little_endian-IsWire (node unauth) 9 10 3 8 hello (1 ∷ 2 ∷ []) refl refl
      (λ e. ground arith) (λ e. ground arith) (λ e. ground arith) (omega arith)
      (λ h. omega arith)).0

accepted : recv env (node unauth) 3232235777 reply_of_station 3000 ≡ some (node auth, [])
accepted =
    recv-reply_header env little_endian-IsWire (node unauth) station 3232235777 11 2000 3000
      (node-IsCertified (node unauth) refl (omega arith))
      (node-IsCertified station refl (omega arith)) (filler-IsBytes 32).0 (filler-IsBytes 32)
      (omega arith) (omega arith) (omega arith)

abbrev log : List Arrival
log =
    record { sender = 3232235777; now = 3000; message = reply_of_station }
    ∷ record { sender = 9; now = 3; message = typed env little_endian-IsWire hello 10 (1 ∷ 2 ∷ []) }
    ∷ []

abbrev run : Run env (node unauth) log (node auth)
run = next (next start (receives [] ignored)) (receives [] accepted)

run-IsAdmitted_example :
    IsSameNode env (node unauth) (node auth) × IsAdmitted env (node unauth) log (node auth)
run-IsAdmitted_example = run-IsAdmitted env (node unauth) (node auth) log refl run
