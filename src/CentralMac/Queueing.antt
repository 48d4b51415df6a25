-- ===== src/CentralMac/Queueing.antt =====
-- How tdma-central-mac.cc fills its queue, and what it sends when its only packet goes out of date.
use saero_rp.Prelude.{
  ℕ, ◌+◌, ◌-◌, ◌*◌, ◌^◌, ◌<◌, ◌≤◌, ◌≡◌, Bool, none, some, [], ◌∷◌, ◌++◌, ◌==◌, if◌then◌else◌,
  length, arith,
}
use saero_rp.PacketQueue.{Packet}
use saero_rp.MacQueue.{
  data_type, Item, WifiMacHeader, TdmaMacQueue, is_fresh, sweep, cleanup, dequeue,
}
use saero_rp.MacQueue.Laws.{IsCounted, enqueue_lem, live}
use saero_rp.CentralMac.{Down, enqueue_from, get_queue_state, start_transmission, send_packet_down}
use saero_rp.CentralMac.Session.{start_fresh, cleanup_fresh}

-- `Enqueue` of a packet notifies a drop of it exactly when the live items are as many as the
-- maximum. Otherwise the packet is behind the live items, with the destination, the node and the
-- source as its three addresses. The counter stays right, and afterwards the state of the queue
-- is 0 exactly when it is full.
pub enqueue_from_lem :
    (own : ℕ) (q : TdmaMacQueue) (pointer : ℕ) (packet : Packet) (to from now : ℕ)
    → IsCounted q
    → q.count < 2 ^ 32
    → length q.queue ≤ q.max_size
    → q.max_size < 2 ^ 32
    → let (q', dropped, notified) = enqueue_from own q pointer packet to from now in
      let hdr : WifiMacHeader = record {
        type = data_type;
        addr1 = to;
        addr2 = own;
        addr3 = from;
      } in
      let item : Item = record { pointer = pointer; packet = packet; hdr = hdr; tstamp = now } in
      IsCounted q'
      × (notified ≡ (length (live q now) == q.max_size))
      × (q'.queue ≡ (if notified then live q now else live q now ++ item ∷ []))
      × (get_queue_state q' ≡ (if q'.max_size == length q'.queue then 0 else 1))
unfolding enqueue_from get_queue_state
enqueue_from_lem own q pointer packet to from now c h bound fits =
    let hdr : WifiMacHeader = record { type = data_type; addr1 = to; addr2 = own; addr3 = from } in
    let (counted, bound', taken, order) = enqueue_lem q pointer packet hdr now c h bound fits in
    (counted, ground (arith, taken), ground (arith, taken, order), ground (arith, counted.counted))

cleanup_expired :
    (q : TdmaMacQueue) (i : Item) (now : ℕ)
    → q.queue ≡ i ∷ []
    → i.tstamp + q.max_delay ≤ now
    → (cleanup q now).0.queue ≡ []
unfolding cleanup sweep is_fresh
cleanup_expired q i now e h = ground arith

dequeue-none :
    (q : TdmaMacQueue) (now : ℕ) → (cleanup q now).0.queue ≡ [] → (dequeue q now).0 ≡ none
unfolding dequeue
dequeue-none q now h = ground (arith, h)

module _ (tx : Packet → ℕ) where
  -- If the only packet of the queue is smaller than 1500 bytes, is up to date now and fits in the
  -- slot, but goes out of date before its transmission time has gone by, `StartTransmission`
  -- schedules `SendPacketDown` for that time. `Dequeue` then returns a null packet, and
  -- `SendPacketDown` fails.
  pub send_packet_down_null :
      (queue_start : Bool) (q : TdmaMacQueue) (i : Item) (us now : ℕ)
      → IsCounted q
      → q.queue ≡ i ∷ []
      → i.packet.size < 1500
      → now < i.tstamp + q.max_delay
      → tx i.packet < us * 1000
      → i.tstamp + q.max_delay ≤ now + tx i.packet
      → let down : Down = record { delay = tx i.packet; remaining = us * 1000 - tx i.packet } in
        (start_transmission tx q us now ≡ some (q, [], some down))
        × ((dequeue q (now + down.delay)).0 ≡ none)
        × (send_packet_down tx queue_start q down.remaining (now + down.delay) ≡ none)
  unfolding send_packet_down
  send_packet_down_null queue_start q i us now c e small fresh fits late =
      let clean = cleanup_fresh q now now (omega arith) (rw e (fresh, tt)) c in
      let then_ = now + tx i.packet in
      let null = dequeue-none q then_ (cleanup_expired q i then_ e late) in
      (
        ground (arith, start_fresh tx q (i ∷ []) us now e clean (small, tt), fits),
        null,
        ground (arith, null),
      )
