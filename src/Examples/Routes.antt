-- ===== src/Examples/Routes.antt =====
-- A node at the origin with the neighbour 7 and a packet that waits for the address 8.
use saero_rp.Prelude.{ℕ, ◌≡◌, ◌⊎◌, Bool, true, not, ◌&&◌, some, List, [], ◌∷◌, arith, ◌==◌, map}
use saero_rp.Prelude.Int.{ℤ, pos}
use saero_rp.StdList.{member}
use saero_rp.Neighbor.{is_neighbour}
use saero_rp.Positions.{NodesPositionTable, get_position}
use saero_rp.PacketQueue.{Packet, Ipv4Header, QueueEntry}
use saero_rp.Routing.{
  Host, Router, Moment, Sent, deferred_route_output, send_packet_from_queue, check_queue,
  forwarding, next_hop,
}
use saero_rp.Routing.Sending.{Attempt, send-Attempt}
use saero_rp.Routing.Deferral.{IsTracked, deferred_route_output-IsTracked}
use saero_rp.Routing.Tracking.{
  check_queue-IsTracked, forwarding-IsTracked, forwarding_ignores_positions, with_positions,
}
use saero_rp.Examples.Numbers.{ints, point, distance}

abbrev pub host : Host
host = record {
  double = ints;
  distance = distance;
  end_neighbor = λ m. (1, (record { position = point 0 0 0; velocity = point 0 0 0 }, 0));
  end_position = λ m. (1, (point 0 0 0, 0));
}

abbrev pub packet : ℕ → Packet
packet uid = record { uid = uid; size = 100; deferred = true }

abbrev pub header : ℕ → Ipv4Header
header dst = record { source = 3; destination = dst }

abbrev pub router : Router ℤ
router = record {
  neighbors = record {
    entry_life_time = 4;
    range = pos 10;
    table = (7, (record { position = point 20 0 0; velocity = point 1 0 0 }, 1)) ∷ [];
  };
  nodes_position = record { entry_life_time = 5; table = (8, (point 90 0 0, 1)) ∷ [] };
  queue = record {
    queue = record { packet = packet 1; header = header 8; ucb = 1; ecb = 2; expire = 30 } ∷ [];
    max_len = 2;
    queue_timeout = 30;
  };
  queued_addresses = 8 ∷ [];
  check_queue_timer = some 500;
}

abbrev pub moment : Moment ℤ
moment = record { now = 2; position = point 0 0 0; velocity = point 1 0 0; address = 4 }

pub tracked : IsTracked router
tracked = record {
  room = omega arith;
  bound = omega arith;
  tracked = λ d absent. ground arith;
  running = λ d queued. λ e. ground arith;
}

send-Attempt_example :
    (done : Bool) × (r' : Router ℤ) × (sent : List Sent) × (dropped : List QueueEntry)
    × (send_packet_from_queue host router 8 moment ≡ some (done, r', sent, dropped))
    × (done
        ≡ not (
            not (is_neighbour host.end_neighbor router.neighbors 8)
            && ((next_hop host router.neighbors 8
                  (get_position ints host.end_position router.nodes_position 8)
                  moment).0
                == 0)))
    × Attempt host router 8 moment done r' sent dropped
send-Attempt_example = send-Attempt host router 8 moment

deferred_route_output-IsTracked_example :
    (r' : Router ℤ) × (dropped : List QueueEntry) × (deferred_route_output router
        (packet 2)
        (header 9)
        1
        2
        3
      ≡ some (r', dropped))
    × IsTracked r'
    × (member 9 r'.queued_addresses ≡ true)
deferred_route_output-IsTracked_example =
    deferred_route_output-IsTracked router (packet 2) (header 9) 1 2 3 tracked

check_queue-IsTracked_example :
    (r' : Router ℤ) × (sent : List Sent) × (dropped : List QueueEntry) × (check_queue host router
        moment
      ≡ some (r', sent, dropped))
    × IsTracked r'
check_queue-IsTracked_example = check_queue-IsTracked host router moment tracked

forwarding-IsTracked_example :
    (r' : Router ℤ) × (sent : List Sent) × (dropped : List QueueEntry) × (forwarding host router
        (packet 2)
        (header 9)
        1
        2
        moment
      ≡ some (r', sent, dropped))
    × IsTracked r'
    × (((sent ≡ []) × (member 9 r'.queued_addresses ≡ true))
        ⊎ (map (λ s. s.packet) sent ≡ packet 2 ∷ []))
forwarding-IsTracked_example =
    forwarding-IsTracked host router (packet 2) (header 9) 1 2 moment tracked

abbrev nowhere : NodesPositionTable ℤ
nowhere = record { entry_life_time = 5; table = [] }

forwarding_ignores_positions_example :
    forwarding host (record router { nodes_position = nowhere }) (packet 2) (header 8) 1 2 moment
    ≡ with_positions host nowhere (forwarding host router (packet 2) (header 8) 1 2 moment)
forwarding_ignores_positions_example =
    forwarding_ignores_positions host router nowhere (packet 2) (header 8) 1 2 moment
