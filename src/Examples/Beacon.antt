-- ===== src/Examples/Beacon.antt =====
-- Packets of a ground station with one socket, a start of a node, and a frame of seven slots for
-- three nodes.
use saero_rp.Prelude.{
  ltb, ◌≤◌, ℕ, ◌+◌, ◌<◌, ◌≡◌, ◌⊎◌, refl, true, false, none, some, List, [], ◌∷◌, ◌++◌, arith,
  if◌then◌else◌,
}
use saero_rp.Prelude.Int.{ℤ}
use saero_rp.StdList.{member}
use saero_rp.StdMap.{find, IsOrdered}
use saero_rp.Wire.LittleEndian.{little_endian-IsWire}
use saero_rp.Node.{Node, Status, unauth, auth}
use saero_rp.Packet.AuthenticationReply.{AuthenticationReplyHeader}
use saero_rp.Reception.Runs.{Arrival, Run, Carries, IsGenuine}
use saero_rp.Reception.Runs
use saero_rp.Beacon.{
  GroundStation, Timers, Delays, Credentials, start, authentication_intialize, hello_timer_expire,
  send_ground_station_packets,
}
use saero_rp.Beacon.Ground.{recv_all, converted, ground_positions-find}
use saero_rp.Beacon.Expiry.{hello_timer-IsGenuine}
use saero_rp.TdmaController.{TdmaController}
use saero_rp.TdmaController.Frame.{IsFilled}
use saero_rp.TdmaHelper.{SlotArray, allocate, set_default_slots, install, set_controller}
use saero_rp.TdmaHelper.Defaults.{owner}
use saero_rp.TdmaHelper.Assigned.{numbered, install-IsFilled}
use saero_rp.Examples.Numbers.{point}
use saero_rp.Examples.Headers.{filler, filler-IsBytes}
use saero_rp.Examples.Nodes.{env, node, station, small, node-IsCertified}
use saero_rp.Authentication.Handshake.{reply_header}
use saero_rp.Reception.{recv}
use saero_rp.Reception.Admission.{reply_message, recv-reply_header}

abbrev god : GroundStation ℤ
god = record {
  get_position = λ a. point a 1 2;
  get_velocity = λ a. point 0 0 0;
  get_faulted_position = λ a. point 9 9 9;
  get_faulted_velocity = λ a. point 0 0 0;
}

ground_positions-find_example :
    (n' : Node env) × (recv_all env
        (node auth)
        6
        10
        3
        (send_ground_station_packets env station true god (8 ∷ 20 ∷ []))
      ≡ some n')
    × IsOrdered n'.router.nodes_position.table
    × ((a : ℕ)
        → find a n'.router.nodes_position.table ≡ (
            if member a (8 ∷ 20 ∷ [])
            then some (converted env (point 9 9 9), 3)
            else find a (node auth).router.nodes_position.table))
ground_positions-find_example =
    ground_positions-find env little_endian-IsWire small station (node auth)
      (record { local = 4; mask = 4294967040; broadcast = 255; device = 1 }) true god (8 ∷ 20 ∷ [])
      6 10 3 refl (omega arith, (omega arith, tt)) refl tt

abbrev idle : Timers
idle = record { hello_interval = none; gs = none; authentication = none }

abbrev delays : Delays
delays = record { first = 700; first_auth = 300; hello = 2100; gs = 5000 }

abbrev credentials : Credentials env
credentials = record { random_no = 77; certificate = filler 727; key_pair = [] }

-- The node after `Start`, and after the reply of the ground station.
abbrev started : Status → Node env
started status = record (node status) {
  router = record (node status).router { queued_addresses = [] };
}

abbrev arrival : Arrival
arrival = record {
  sender = 3232235777;
  now = 3000;
  message =
      reply_message env little_endian-IsWire 11 (reply_header env station (started unauth) 2000);
}

accepted : recv env (started unauth) 3232235777 arrival.message 3000 ≡ some (started auth, [])
accepted =
    recv-reply_header env little_endian-IsWire (started unauth) station 3232235777 11 2000 3000
      (node-IsCertified (started unauth) refl (omega arith))
      (node-IsCertified station refl (omega arith)) (filler-IsBytes 32).0 (filler-IsBytes 32)
      (omega arith) (omega arith) (omega arith)

run : Run env (start env (node auth) idle false credentials delays).0 (arrival ∷ []) (started auth)
unfolding start authentication_intialize
run = Runs.next Runs.start (Runs.receives [] accepted)

hello_timer-IsGenuine_example :
    let (n1, t1) = start env (node auth) idle false credentials delays in
    let n2 = started auth in
    let (t', sent) = hello_timer_expire env n2 t1 (point 1 2 3) (point 1 0 0) delays in
    (t1.hello_interval ≡ some 700)
    × (t1.authentication ≡ some 300)
    × (t'.hello_interval ≡ some 2100)
    × ((sent ≡ [])
        ⊎ ((after before : List Arrival) × (a : Arrival) × (h : AuthenticationReplyHeader)
            × (buffer : List ℕ) × (arrival ∷ [] ≡ after ++ a ∷ before)
            × Carries env a.message h
            × IsGenuine env n1 h a.now
            × (h.old_random_no ≡ 77)
            × (n2.shared_key ≡ env.crypto.private_decrypt [] h.shared_key buffer)))
hello_timer-IsGenuine_example =
    hello_timer-IsGenuine env (node auth) (started auth) (arrival ∷ []) idle
      (start env (node auth) idle false credentials delays).1 credentials delays delays
      (point 1 2 3) (point 1 0 0) refl run

abbrev controller : TdmaController
controller = record {
  slot_time = 1000;
  gaurd_time = 10;
  inter_frame_time = 5;
  total_slots_allowed = 0;
  active_epoch = false;
  slot_ptrs = [];
}

install-IsFilled_example :
    (a : SlotArray) × (c' : TdmaController) × (set_default_slots (allocate 3 7) ≡ some a)
    × (install a (set_controller a controller) (numbered (λ i. i + 50) 3 0) ≡ some c')
    × IsFilled c'
    × (c'.total_slots_allowed ≡ 7)
    × ((k : ℕ)
        → (find k c'.slot_ptrs ≡ (if ltb k 7 then some (owner 3 7 k + 50) else none))
          × ((owner 3 7 k < 3) ⊎ (7 ≤ k)))
install-IsFilled_example =
    install-IsFilled controller 3 7 (λ i. i + 50) (omega arith) (omega arith) (λ i h e. omega arith)
