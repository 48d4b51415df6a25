-- ===== src/Routing/Sending.antt =====
-- `SendPacketFromQueue` of aerorp-routing-protocol.cc: its loop ends, and sends what waits for the
-- destination.
use saero_rp.Prelude.{
  ℕ, zero, suc, ◌<◌, ◌≤◌, ◌≡◌, ◌∙◌, refl, Bool, true, false, not, ◌&&◌, some, List, [], ◌∷◌, ◌++◌,
  ◌==◌, if◌then◌else◌, length, keep_if, map, arith, ◌⊎◌, inl, inr, Bool-cases, length-keep_if-le,
  append-nil,
}
use saero_rp.PacketQueue.{QueueEntry, RequestQueue, is_expired, purge, dequeue}
use saero_rp.PacketQueue.Expiry.{IsLive, keep_if_of_IsLive}
use saero_rp.PacketQueue.Order.{dequeue-max_len, for_dst, dequeue_lem, dequeue-IsLive}
use saero_rp.Neighbor.{is_neighbour}
use saero_rp.Positions.{get_position}
use saero_rp.Routing.{
  Host, Router, Moment, Sent, unset_source, send_all, send_packet_from_queue, next_hop, fuel_for,
}

-- The live entries of a queue, which a purge leaves.
abbrev pub live : RequestQueue → ℕ → List QueueEntry
live q now = keep_if (λ e. not (is_expired now e)) q.queue

abbrev pub dead : RequestQueue → ℕ → List QueueEntry
dead q now = keep_if (is_expired now) q.queue

-- The call that sends an entry on a route to `dst` by `gateway`.
abbrev pub sent_entry : ℕ → ℕ → ℕ → QueueEntry → Sent
sent_entry dst gateway address e = record {
  ucb = e.ucb;
  route = record {
    destination = dst;
    source = if e.header.source == unset_source then address else e.header.source;
    gateway = gateway;
  };
  packet = e.packet;
  header = e.header;
}

-- What the loop leaves: all live entries for `dst` are sent, in their order, the others stay.
pub record SentAll (q : RequestQueue) (dst gateway address now : ℕ)
    (r : RequestQueue × List Sent × List QueueEntry) : Type 0 where
  pub sent : r.1 ≡ map (sent_entry dst gateway address) (for_dst dst (live q now))
  pub left : (d : ℕ) → for_dst d r.0.queue ≡ (if d == dst then [] else for_dst d (live q now))
  pub dropped : r.2 ≡ dead q now
  pub still_live : IsLive now r.0.queue
  pub shorter : length r.0.queue ≤ length (live q now)
  pub max_len : r.0.max_len ≡ q.max_len

-- The loop of `SendPacketFromQueue` ends if its fuel is more than the number of live entries.
send_all-SentAll :
    (fuel : ℕ) (q : RequestQueue) (dst gateway address now : ℕ)
    → length (live q now) < fuel
    → (r : RequestQueue × List Sent × List QueueEntry) × (send_all fuel q dst gateway address now
        ≡ some r)
      × SentAll q dst gateway address now r
unfolding send_all purge
send_all-SentAll zero q dst gateway address now h = absurd (omega arith)
send_all-SentAll (suc fuel) q dst gateway address now h =
    let (same, outcome) = dequeue_lem q dst now in
    let q' = (dequeue q dst now).1 in
    let alive = dequeue-IsLive q dst now in
    elim outcome [
      | inl (no_entry, empty, left) ↦ (
        (q', [], (dequeue q dst now).2),
        ground (arith, no_entry),
        record {
          sent = ground (arith, empty);
          left = λ d. ground (arith, empty, left);
          dropped = ground (arith, same);
          still_live = alive;
          shorter = ground (arith, left);
          max_len = dequeue-max_len q dst now;
        },
      )
      | inr (e, found, head, size, others) ↦
          let again = keep_if_of_IsLive now q'.queue alive in
          let (r, sends, all) =
            send_all-SentAll fuel q' dst gateway address now (ground (arith, size, again.0)) in
          (
            (r.0, sent_entry dst gateway address e ∷ r.1, (dequeue q dst now).2 ++ r.2),
            ground (arith, found, sends),
            record {
              sent = ground (arith, head, all.sent, again.0);
              left = λ d. ground (arith, all.left d, others d, again.0);
              dropped = ground (arith, same, all.dropped, again.1, append-nil (dead q now));
              still_live = all.still_live;
              shorter = ground (arith, all.shorter, size, again.0);
              max_len = all.max_len ∙ dequeue-max_len q dst now;
            },
          )
    ]

-- What `SendPacketFromQueue` leaves: if it fails, the queue as it was and no call, else the queue
-- and the calls of the loop.
pub record Attempt (h : Host) (r : Router h.double.F) (dst : ℕ) (m : Moment h.double.F)
    (done : Bool) (r' : Router h.double.F) (sent : List Sent) (dropped : List QueueEntry)
    : Type 0 where
  pub outcome :
      ((done ≡ false) × (r'.queue ≡ r.queue) × (sent ≡ []) × (dropped ≡ []))
      ⊎ ((done ≡ true)
          × SentAll r.queue dst
              (next_hop h r.neighbors dst
                (get_position h.double h.end_position r.nodes_position dst)
                m).0
              m.address
              m.now
              (r'.queue, sent, dropped))
  pub addresses : r'.queued_addresses ≡ r.queued_addresses
  pub timer : r'.check_queue_timer ≡ r.check_queue_timer

module _ (h : Host) where
  open h use {double, end_neighbor, end_position}

  -- `SendPacketFromQueue` ends. It fails exactly if the destination is no neighbour and the search
  -- for a next hop to its position finds none; then the queue is as before and nothing is sent or
  -- dropped. Otherwise it sends all live entries for the destination, in their order, on a
  -- route by the next hop that the search found, with the header's source or, if it is unset, the
  -- node's address. The expired entries are dropped, and the live entries for other destinations
  -- stay, in their order. The list of addresses and the timer do not change.
  pub send-Attempt :
      (r : Router double.F) (dst : ℕ) (m : Moment double.F)
      → (done : Bool) × (r' : Router double.F) × (sent : List Sent) × (dropped : List QueueEntry)
        × (send_packet_from_queue h r dst m ≡ some (done, r', sent, dropped))
        × (done
            ≡ not (
                not (is_neighbour end_neighbor r.neighbors dst)
                && ((next_hop h r.neighbors dst
                      (get_position double end_position r.nodes_position dst)
                      m).0
                    == 0)))
        × Attempt h r dst m done r' sent dropped
  unfolding send_packet_from_queue
  send-Attempt r dst m =
      let dst_pos = get_position double end_position r.nodes_position dst in
      let (hop, neighbors) = next_hop h r.neighbors dst dst_pos m in
      let lost = not (is_neighbour end_neighbor r.neighbors dst) && (hop == 0) in
      let short = length-keep_if-le (λ e. not (is_expired m.now e)) r.queue.queue in
      let (s, sends, all) =
        send_all-SentAll (fuel_for r.queue) r.queue dst hop m.address m.now
          (omega (arith, short)) in
      elim (Bool-cases lost) [
        | inl stays ↦ (
          false,
          record r { neighbors = neighbors },
          [],
          [],
          ground (arith, stays),
          ground (arith, stays),
          record { outcome = inl (refl, refl, refl, refl); addresses = refl; timer = refl },
        )
        | inr goes ↦ (
          true,
          record r { neighbors = neighbors; queue = s.0 },
          s.1,
          s.2,
          ground (arith, goes, sends),
          ground (arith, goes),
          record { outcome = inr (refl, all); addresses = refl; timer = refl },
        )
      ]
