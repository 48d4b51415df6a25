-- ===== src/Routing.antt =====
-- The routing protocol's tables, queue and timer: aerorp-routing-protocol.h and
-- aerorp-routing-protocol.cc. The calls of other objects come back as values: the packets sent are a
-- list of calls of forward callbacks, the packets dropped a list of queue entries.
pub mod Velocity
pub mod Sending
pub mod Deferral
pub mod Tracking
use saero_rp.Prelude.{
  ℕ, zero, suc, ◌+◌, Bool, true, false, not, ◌&&◌, Option, none, some, List, [], ◌∷◌, ◌++◌, ◌==◌,
  if◌then◌else◌, length,
}
use saero_rp.Double.{Double, Vector}
use saero_rp.StdList.{unique, remove_each}
use saero_rp.Neighbor
use saero_rp.Neighbor.{NeighborTable, NeighborTableEntry, is_neighbour, best_neighbor}
use saero_rp.Positions
use saero_rp.Positions.{NodesPositionTable, get_position}
use saero_rp.PacketQueue.{
  Packet, Ipv4Header, QueueEntry, RequestQueue, new_entry, enqueue, dequeue, get_size,
}

-- The arithmetic of doubles, ns-3's `CalculateDistance`, and what the end iterators of the two maps
-- read as.
pub record Host : Type 1 where
  pub double : Double
  pub distance : Vector double.F → Vector double.F → double.F
  pub end_neighbor : Neighbor.Table double.F → ℕ × (NeighborTableEntry double.F × ℕ)
  pub end_position : Positions.Table double.F → ℕ × (Vector double.F × ℕ)

pub record Router (F : Type 0) : Type 0 where
  pub neighbors : NeighborTable F
  pub nodes_position : NodesPositionTable F
  pub queue : RequestQueue
  pub queued_addresses : List ℕ
  -- The delay, in milliseconds, with which `CheckQueueTimer` was scheduled, if it runs.
  pub check_queue_timer : Option ℕ

-- The time, the node's own position and velocity, and the local address of interface 1.
pub record Moment (F : Type 0) : Type 0 where
  pub now : ℕ
  pub position : Vector F
  pub velocity : Vector F
  pub address : ℕ

pub record Route : Type 0 where
  pub destination : ℕ
  pub source : ℕ
  pub gateway : ℕ

-- A call of a forward callback, with the fields that the route has at the call: the source passes
-- one route object to all calls of a loop, and changes its source in between.
pub record Sent : Type 0 where
  pub ucb : ℕ
  pub route : Route
  pub packet : Packet
  pub header : Ipv4Header

-- The address 102.102.102.102, which stands for an unset source.
abbrev pub unset_source : ℕ
unset_source = 1717986918

-- `none` is a failure of the queue.
unfoldable pub deferred_route_output :
    {F : Type 0} → Router F → Packet → Ipv4Header → ℕ → ℕ → ℕ → Option (Router F × List QueueEntry)
deferred_route_output r p header ucb ecb now =
    let (size, q, dropped) = get_size r.queue now in
    let timer = if size == 0 then some 500 else r.check_queue_timer in
    elim (enqueue q (new_entry p header ucb ecb now now) now) [
      | none ↦ none
      | some (result, q', dropped') ↦ some (
        record r {
          queue = q';
          queued_addresses = unique (header.destination ∷ r.queued_addresses);
          check_queue_timer = timer;
        },
        dropped ++ dropped',
      )
    ]

-- The route's source in `SendPacketFromQueue`.
abbrev pub source_of : ℕ → Ipv4Header → ℕ
source_of address header = if header.source == unset_source then address else header.source

-- The `while` loop of `SendPacketFromQueue`, with fuel: the queue behind it, what was sent, and what
-- was dropped.
unfoldable pub send_all :
    ℕ → RequestQueue → ℕ → ℕ → ℕ → ℕ → Option (RequestQueue × List Sent × List QueueEntry)
send_all zero q dst gateway address now = none
send_all (suc fuel) q dst gateway address now =
    let (r, q', dropped) = dequeue q dst now in
    elim r [
      | none ↦ some (q', [], dropped)
      | some e ↦ elim (send_all fuel q' dst gateway address now) [
        | none ↦ none
        | some (q'', sent, dropped') ↦
            let route : Route = record {
              destination = dst;
              source = source_of address e.header;
              gateway = gateway;
            } in
            let call : Sent = record {
              ucb = e.ucb;
              route = route;
              packet = e.packet;
              header = e.header;
            } in
            some (q'', call ∷ sent, dropped ++ dropped')
      ]
    ]

-- The timer that `CheckQueue` sets: a minute if addresses are left.
abbrev pub timer_for : List ℕ → Option ℕ
timer_for [] = none
timer_for (a ∷ as') = some 60000

-- The fuel for a queue: one round more than it has entries.
abbrev pub fuel_for : RequestQueue → ℕ
fuel_for q = suc (length q.queue)

module _ (h : Host) where
  open h use {double, distance, end_neighbor, end_position}

  -- The next hop to a destination whose position is `dst_pos`, 0.0.0.0 if there is none, and the
  -- neighbour table, which a search purges.
  unfoldable pub next_hop :
      NeighborTable double.F → ℕ → Vector double.F → Moment double.F → ℕ × NeighborTable double.F
  next_hop t dst dst_pos m =
      if is_neighbour end_neighbor t dst
      then (dst, t)
      else best_neighbor double end_neighbor distance t dst_pos m.position m.velocity m.now

  -- `none` is a loop that does not end.
  unfoldable pub send_packet_from_queue :
      Router double.F
      → ℕ
      → Moment double.F
      → Option (Bool × Router double.F × List Sent × List QueueEntry)
  send_packet_from_queue r dst m =
      let dst_pos = get_position double end_position r.nodes_position dst in
      let (hop, neighbors) = next_hop r.neighbors dst dst_pos m in
      let send = send_all (fuel_for r.queue) r.queue dst hop m.address m.now in
      if not (is_neighbour end_neighbor r.neighbors dst) && (hop == 0)
      then some (false, record r { neighbors = neighbors }, [], [])
      else elim send [
        | none ↦ none
        | some (q, sent, dropped) ↦
            some (true, record r { neighbors = neighbors; queue = q }, sent, dropped)
      ]

  -- The first loop of `CheckQueue`, over the addresses: the addresses to remove, last one first.
  unfoldable pub send_queued :
      Router double.F
      → List ℕ
      → Moment double.F
      → List ℕ
      → Option (Router double.F × List ℕ × List Sent × List QueueEntry)
  send_queued r [] m to_remove = some (r, to_remove, [], [])
  send_queued r (dst ∷ ds) m to_remove = elim (send_packet_from_queue r dst m) [
    | none ↦ none
    | some (done, r', sent, dropped) ↦
        elim (send_queued r' ds m (if done then dst ∷ to_remove else to_remove)) [
          | none ↦ none
          | some (r'', to_remove', sent', dropped') ↦
              some (r'', to_remove', sent ++ sent', dropped ++ dropped')
        ]
  ]

  unfoldable pub check_queue :
      Router double.F → Moment double.F → Option (Router double.F × List Sent × List QueueEntry)
  check_queue r m = elim (send_queued r r.queued_addresses m []) [
    | none ↦ none
    | some (r', to_remove, sent, dropped) ↦
        let left = remove_each to_remove r.queued_addresses in
        some
          (record r' { queued_addresses = left; check_queue_timer = timer_for left }, sent, dropped)
  ]

  -- The search of `Forwarding`: it passes the default position, the origin, whatever the position of
  -- the destination is. A result of `none` is a failure of the queue.
  unfoldable pub forwarding :
      Router double.F
      → Packet
      → Ipv4Header
      → ℕ
      → ℕ
      → Moment double.F
      → Option (Router double.F × List Sent × List QueueEntry)
  forwarding r p header ucb ecb m =
      let zero_vector : Vector double.F = record {
        x = double.literal 0 0;
        y = double.literal 0 0;
        z = double.literal 0 0;
      } in
      let t = Neighbor.purge end_neighbor r.neighbors m.now in
      let dst = header.destination in
      let (hop, neighbors) = next_hop t dst zero_vector m in
      let r' : Router double.F = record r { neighbors = neighbors } in
      let route : Route = record { destination = dst; source = header.source; gateway = hop } in
      if not (is_neighbour end_neighbor t dst) && (hop == 0)
      then elim (deferred_route_output r' p header ucb ecb m.now) [
        | none ↦ none
        | some (r'', dropped) ↦ some (r'', [], dropped)
      ]
      else some (r', record { ucb = ucb; route = route; packet = p; header = header } ∷ [], [])
