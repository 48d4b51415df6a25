-- ===== src/Simulation.antt =====
-- The simulated scenario: the nodes and link layer devices that aero-test-final.cc creates, and the
-- numbers that it counts and writes. A node's number is its place in the order of creation, and
-- `macs` gives the MAC that is made for a node.
pub mod Network
pub mod Delivery
pub mod Throughput
use saero_rp.Prelude.{
  ℕ, zero, suc, ◌+◌, ◌-◌, ◌*◌, ◌^◌, ◌%◌, Bool, true, false, Option, none, some, List, [], ◌∷◌, ltb,
  if◌then◌else◌,
}
use saero_rp.TdmaController.{
  TdmaController, set_slot_time, set_gaurd_time, set_inter_frame_time_interval,
}
use saero_rp.TdmaHelper.{SlotArray, allocate, set_default_slots, install, set_controller}

-- So many nodes from a number on, each with its MAC.
unfoldable pub node_macs : (ℕ → ℕ) → ℕ → ℕ → List (ℕ × ℕ)
node_macs macs zero first = []
node_macs macs (suc count) first = (first, macs first) ∷ node_macs macs count (first + 1)

-- The controller with the attributes that `CreateDevices` sets, in nanoseconds; it has no channel
-- yet.
unfoldable pub new_controller : TdmaController
unfolding set_slot_time set_gaurd_time set_inter_frame_time_interval
new_controller =
    let blank : TdmaController = record {
      slot_time = 0;
      gaurd_time = 0;
      inter_frame_time = 0;
      total_slots_allowed = 0;
      active_epoch = false;
      slot_ptrs = [];
    } in
    let slots = set_slot_time blank (1100 * 1000) in
    let guards = set_gaurd_time slots none (100 * 1000) in
    set_inter_frame_time_interval guards (10 * 1000)

-- `CreateNodes`: the ground stations are the first nodes. `none` is a failed assertion; the result
-- is the first number and the number of the ground stations and of the others.
unfoldable pub create_nodes : ℕ → ℕ → Option ((ℕ × ℕ) × (ℕ × ℕ))
create_nodes wifis sinks = if ltb sinks wifis then some ((0, sinks), (sinks, wifis)) else none

-- One of the two networks of `CreateDevices`: a helper with as many slots as nodes, whose
-- controller takes the devices of the aircraft and then those of the ground stations.
unfoldable pub create_devices : (ℕ → ℕ) → ℕ × ℕ → ℕ × ℕ → Option TdmaController
unfolding node_macs allocate set_default_slots install set_controller
create_devices macs (g, stations) (a, aircraft) =
    let nodes = aircraft + stations in
    elim (set_default_slots (allocate nodes nodes)) [
      | none ↦ none
      | some slots ↦
          elim (install slots (set_controller slots new_controller) (node_macs macs aircraft a)) [
            | none ↦ none
            | some c ↦ install slots c (node_macs macs stations g)
          ]
    ]

-- The counters of a run: `bytesTotal` and `packetsReceived` are `uint32_t`, `t_delay` is a time in
-- nanoseconds, and `n` counts the packets with a time stamp.
pub record Statistics : Type 0 where
  pub bytes_total : ℕ
  pub packets_received : ℕ
  pub packets_transmitted : ℕ
  pub delay : ℕ
  pub stamped : ℕ

unfoldable pub new_statistics : Statistics
new_statistics = record {
  bytes_total = 0;
  packets_received = 0;
  packets_transmitted = 0;
  delay = 0;
  stamped = 0;
}

-- `OnoffTxTrace`
unfoldable pub on_off_tx_trace : Statistics → Statistics
on_off_tx_trace s = record s { packets_transmitted = (s.packets_transmitted + 1) % 2 ^ 32 }

-- A packet of a socket: its size, and the time of its stamp, if it has one.
pub record Arrival : Type 0 where
  pub size : ℕ
  pub stamp : Option ℕ

-- A round of the loop of `ReceivePacket`. A stamp is not later than now.
unfoldable pub take_packet : Statistics → Arrival → ℕ → Statistics
take_packet s p now =
    let timed : Statistics = elim p.stamp [
      | none ↦ s
      | some tx ↦ record s { delay = s.delay + (now - tx); stamped = (s.stamped + 1) % 2 ^ 64 }
    ] in
    record timed {
      bytes_total = (timed.bytes_total + p.size) % 2 ^ 32;
      packets_received = (timed.packets_received + 1) % 2 ^ 32;
    }

-- `ReceivePacket`, with the packets that the socket has.
unfoldable pub receive_packet : Statistics → List Arrival → ℕ → Statistics
unfolding take_packet
receive_packet s [] now = s
receive_packet s (p ∷ ps) now = receive_packet (take_packet s p now) ps now

-- A line of `CheckThroughput`: `bytesTotal * 8.0`, the bits of the last interval, of which `kbs` is
-- the thousandth, the two counts of packets, and the sum and the number whose quotient is the mean
-- delay.
pub record Line : Type 0 where
  pub time : ℕ
  pub bits : ℕ
  pub received : ℕ
  pub transmitted : ℕ
  pub delay_sum : ℕ
  pub delay_count : ℕ

unfoldable pub check_throughput : Statistics → ℕ → Statistics × Line
check_throughput s now = (
  record s { bytes_total = 0 },
  record {
    time = now;
    bits = s.bytes_total * 8;
    received = s.packets_received;
    transmitted = s.packets_transmitted;
    delay_sum = s.delay;
    delay_count = s.stamped;
  },
)
