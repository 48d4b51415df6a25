-- ===== src/Routing/Tracking.antt =====
-- `CheckQueue` and `Forwarding` of aerorp-routing-protocol.cc keep the list of queued addresses.
use saero_rp.Prelude.{
  ℕ, ◌≤◌, ◌≡◌, ◌≢◌, ◌∙◌, ap, refl, Bool, true, not, ◌&&◌, Option, none, some, List, [], ◌∷◌, ◌++◌,
  ◌==◌, if◌then◌else◌, length, arith, ◌⊎◌, inl, inr, Bool-cases, Option-cases, map,
  length-keep_if-le,
}
use saero_rp.Neighbor.{is_neighbour}
use saero_rp.Neighbor
use saero_rp.Double.{Vector}
use saero_rp.Positions.{NodesPositionTable}
use saero_rp.StdList.{member, remove_each, member-remove_each}
use saero_rp.PacketQueue.{Packet, Ipv4Header, QueueEntry, is_expired, enqueue, new_entry, get_size}
use saero_rp.PacketQueue.Order.{for_dst, for_dst-purge}
use saero_rp.Routing.{
  Host, Router, Moment, Sent, deferred_route_output, send_queued, check_queue, forwarding, next_hop,
  timer_for,
}
use saero_rp.Routing.Sending.{Attempt, send-Attempt}
use saero_rp.Routing.Deferral.{IsTracked, deferred_route_output-IsTracked}

module _ (h : Host) where
  open h use {double}

  -- What the first loop of `CheckQueue` keeps, and what it adds to the addresses to remove.
  record Serves (r : Router double.F) (seen : List ℕ) (r' : Router double.F) (seen' : List ℕ)
      : Type 0 where
    addresses : r'.queued_addresses ≡ r.queued_addresses
    max_len : r'.queue.max_len ≡ r.queue.max_len
    shorter : length r'.queue.queue ≤ length r.queue.queue
    kept : (d : ℕ) → for_dst d r.queue.queue ≡ [] → for_dst d r'.queue.queue ≡ []
    served :
        (d : ℕ) → member d seen' ≡ true → (member d seen ≡ true) ⊎ (for_dst d r'.queue.queue ≡ [])

  Attempt-Serves :
      (r : Router double.F) (dst : ℕ) (m : Moment double.F) (seen : List ℕ) (done : Bool)
      (r' : Router double.F) (sent : List Sent) (dropped : List QueueEntry)
      → Attempt h r dst m done r' sent dropped
      → Serves r seen r' (if done then dst ∷ seen else seen)
  Attempt-Serves r dst m seen done r' sent dropped a = elim a.outcome [
    | inl (lost, same, no_sends, no_drops) ↦ record {
      addresses = a.addresses;
      max_len = ap (λ q. q.max_len) same;
      shorter = ground (arith, ap (λ q. length q.queue) same);
      kept = λ d empty. ground (arith, ap (λ q. for_dst d q.queue) same, empty);
      served = λ d queued. inl (ground (arith, lost));
    }
    | inr (goes, all) ↦ record {
      addresses = a.addresses;
      max_len = all.max_len;
      shorter =
          omega
            (arith, all.shorter, length-keep_if-le (λ e. not (is_expired m.now e)) r.queue.queue);
      kept = λ d empty. elim (Bool-cases (d == dst)) [
        | inl same ↦ ground (arith, all.left d, same)
        | inr other ↦ ground (arith, all.left d, other, for_dst-purge d m.now r.queue.queue empty)
      ];
      served = λ d queued. elim (Bool-cases (d == dst)) [
        | inl same ↦ inr (ground (arith, all.left d, same))
        | inr other ↦ inl (ground (arith, goes, other))
      ];
    }
  ]

  send_queued-Serves :
      (ds : List ℕ) (r : Router double.F) (m : Moment double.F) (seen : List ℕ)
      → (r' : Router double.F) × (seen' : List ℕ) × (sent : List Sent) × (dropped : List QueueEntry)
        × (send_queued h r ds m seen ≡ some (r', seen', sent, dropped))
        × Serves r seen r' seen'
  unfolding send_queued
  send_queued-Serves [] r m seen = (
    r,
    seen,
    [],
    [],
    refl,
    record {
      addresses = refl;
      max_len = refl;
      shorter = omega arith;
      kept = λ d empty. empty;
      served = λ d queued. inl queued;
    },
  )
  send_queued-Serves (dst ∷ ds) r m seen =
      let (done, r1, sent, dropped, tried, decided, a) = send-Attempt h r dst m in
      let first = Attempt-Serves r dst m seen done r1 sent dropped a in
      let (r', seen', sent', dropped', rest, then') =
        send_queued-Serves ds r1 m (if done then dst ∷ seen else seen) in
      (
        r',
        seen',
        sent ++ sent',
        dropped ++ dropped',
        ground (arith, tried, rest),
        record {
          addresses = then'.addresses ∙ first.addresses;
          max_len = then'.max_len ∙ first.max_len;
          shorter = omega (arith, then'.shorter, first.shorter);
          kept = λ d empty. then'.kept d (first.kept d empty);
          served = λ d queued. elim (then'.served d queued) [
            | inl earlier ↦ elim (first.served d earlier) [
              | inl before ↦ inl before
              | inr empty ↦ inr (then'.kept d empty)
            ]
            | inr empty ↦ inr empty
          ];
        },
      )

  left_running : (left : List ℕ) (d : ℕ) → member d left ≡ true → timer_for left ≢ none
  left_running [] d queued = absurd (ground arith)
  left_running (a ∷ as') d queued = λ e. ground arith

  -- Tracked means that every destination that a packet waits for is a queued address, that the queue
  -- holds at most its maximum, which is not 0, and that the timer runs while an address is queued.
  -- `CheckQueue` of a tracked state ends, and leaves a tracked state.
  pub check_queue-IsTracked :
      (r : Router double.F) (m : Moment double.F)
      → IsTracked r
      → (r' : Router double.F) × (sent : List Sent) × (dropped : List QueueEntry) × (check_queue h r
            m
          ≡ some (r', sent, dropped))
        × IsTracked r'
  unfolding check_queue
  check_queue-IsTracked r m t =
      let (r', seen, sent, dropped, done, s) = send_queued-Serves r.queued_addresses r m [] in
      let left = remove_each seen r.queued_addresses in
      (
        record r' { queued_addresses = left; check_queue_timer = timer_for left },
        sent,
        dropped,
        ground (arith, done),
        record {
          room = ground (arith, s.max_len, t.room);
          bound = ground (arith, s.max_len, s.shorter, t.bound);
          tracked = λ d absent. elim (Bool-cases (member d seen)) [
            | inl removed ↦ elim (s.served d removed) [
              | inl never ↦ absurd (ground (arith, never))
              | inr empty ↦ empty
            ]
            | inr kept ↦ s.kept d (
                t.tracked d
                  (ground (arith, member-remove_each d seen r.queued_addresses, kept, absent)))
          ];
          running = λ d queued. left_running left d queued;
        },
      )

  -- `Forwarding` of a packet in a tracked state returns, and its state is tracked. Either it sends
  -- nothing and the packet's destination is a queued address, or it sends just the packet.
  pub forwarding-IsTracked :
      (r : Router double.F) (p : Packet) (header : Ipv4Header) (ucb ecb : ℕ) (m : Moment double.F)
      → IsTracked r
      → (r' : Router double.F) × (sent : List Sent) × (dropped : List QueueEntry) × (forwarding h r
            p header ucb ecb m
          ≡ some (r', sent, dropped))
        × IsTracked r'
        × (((sent ≡ []) × (member header.destination r'.queued_addresses ≡ true))
            ⊎ (map (λ s. s.packet) sent ≡ p ∷ []))
  unfolding forwarding
  forwarding-IsTracked r p header ucb ecb m t =
      let origin : Vector double.F = record {
        x = double.literal 0 0;
        y = double.literal 0 0;
        z = double.literal 0 0;
      } in
      let fresh = Neighbor.purge h.end_neighbor r.neighbors m.now in
      let (hop, neighbors) = next_hop h fresh header.destination origin m in
      let searched : Router double.F = record r { neighbors = neighbors } in
      let lost = not (is_neighbour h.end_neighbor fresh header.destination) && (hop == 0) in
      let still : IsTracked searched = record {
        room = t.room;
        bound = t.bound;
        tracked = t.tracked;
        running = t.running;
      } in
      elim (Bool-cases lost) [
        | inl stays ↦
            let (r', dropped, done, kept, queued) =
              deferred_route_output-IsTracked searched p header ucb ecb m.now still in
            (r', [], dropped, ground (arith, stays, done), kept, inl (refl, queued))
        | inr goes ↦ (
          searched,
          record {
            ucb = ucb;
            route = record {
              destination = header.destination;
              source = header.source;
              gateway = hop;
            };
            packet = p;
            header = header;
          }
              ∷ [],
          [],
          ground (arith, goes),
          still,
          inr refl,
        )
      ]

  -- A result with another table of positions.
  abbrev pub with_positions :
      NodesPositionTable double.F
      → Option (Router double.F × List Sent × List QueueEntry)
      → Option (Router double.F × List Sent × List QueueEntry)
  with_positions positions none = none
  with_positions positions (some (r, sent, dropped)) =
      some (record r { nodes_position = positions }, sent, dropped)

  -- `Forwarding` does not read the table of positions: with another table it sends, drops and
  -- leaves the same, but for the table.
  pub forwarding_ignores_positions :
      (r : Router double.F) (positions : NodesPositionTable double.F) (p : Packet)
      (header : Ipv4Header) (ucb ecb : ℕ) (m : Moment double.F)
      → forwarding h (record r { nodes_position = positions }) p header ucb ecb m
        ≡ with_positions positions (forwarding h r p header ucb ecb m)
  unfolding forwarding deferred_route_output
  forwarding_ignores_positions r positions p header ucb ecb m =
      let origin : Vector double.F = record {
        x = double.literal 0 0;
        y = double.literal 0 0;
        z = double.literal 0 0;
      } in
      let fresh = Neighbor.purge h.end_neighbor r.neighbors m.now in
      let (hop, neighbors) = next_hop h fresh header.destination origin m in
      let lost = not (is_neighbour h.end_neighbor fresh header.destination) && (hop == 0) in
      let entry = new_entry p header ucb ecb m.now m.now in
      elim (Bool-cases lost) [
        | inl stays ↦ elim (Option-cases (enqueue (get_size r.queue m.now).1 entry m.now)) [
          | inl fault ↦ ground (arith, stays, fault)
          | inr (done, returned) ↦ ground (arith, stays, returned)
        ]
        | inr goes ↦ ground (arith, goes)
      ]
