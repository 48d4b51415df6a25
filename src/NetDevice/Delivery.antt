-- ===== src/NetDevice/Delivery.antt =====
-- The way of a packet from `Send` of one device to the callbacks of another: tdma-mac-net-device.cc,
-- tdma-central-mac.cc, tdma-mac-queue.cc, tdma-mac-low.cc and simple-wireless-channel.cc together.
use saero_rp.Prelude.{
  ℕ, ◌+◌, ◌*◌, ◌^◌, ◌<◌, ◌≡◌, refl, ap, ◌∙◌, Bool, true, false, ◌||◌, none, some, List, [], ◌∷◌,
  ◌++◌, if◌then◌else◌, arith, Bool-cases, inl, inr,
}
use saero_rp.Double.{Double, Vector}
use saero_rp.PacketQueue.{Packet}
use saero_rp.MacQueue
use saero_rp.MacQueue.{
  MacType, data_type, mgt_type, other_type, Item, WifiMacHeader, TdmaMacQueue, cleanup,
}
use saero_rp.MacQueue.Laws.{IsCounted}
use saero_rp.MacLow
use saero_rp.MacLow.{Headers, frame, is_data, is_mgt}
use saero_rp.CentralMac.{enqueue_own, enqueue_from, queue_packet, transmit}
use saero_rp.CentralMac.Session.{fitting, transmit-Sends}
use saero_rp.CentralMac.Links
use saero_rp.CentralMac.Links.{TdmaCentralMac}
use saero_rp.WirelessChannel
use saero_rp.WirelessChannel.{TdmaMacLow, SimpleWirelessChannel, Reception}
use saero_rp.WirelessChannel.Reach
use saero_rp.WirelessChannel.Reach.{Has, Reaches, reception}
use saero_rp.NetDevice.{
  TdmaNetDevice, Up, notify_rx, forward_up, notify_promisc_rx, promisc_rx, is_otherhost,
  packet_type, pass_up, hear, send,
}

-- The fields of a header that go into a frame have the width of an address.
pub record IsMac48 (hdr : WifiMacHeader) : Type 0 where
  pub addr1 : hdr.addr1 < 2 ^ 48
  pub addr2 : hdr.addr2 < 2 ^ 48
  pub addr3 : hdr.addr3 < 2 ^ 48

-- What ns-3 documents of headers and trailers: removing gives back what was added, and the front and
-- the back of a packet do not depend on each other.
pub record IsHeaders (hs : Headers) : Type 0 where
  pub llc : (n : ℕ) (p : Packet) → n < 2 ^ 16 → hs.remove_llc (hs.add_llc n p) ≡ (n, p)
  pub mac : (h : WifiMacHeader) (p : Packet) → IsMac48 h → hs.remove_mac (hs.add_mac h p) ≡ (h, p)
  pub trailer : (p : Packet) → hs.remove_trailer (hs.add_trailer p) ≡ p
  pub ends :
      (h : WifiMacHeader) (p : Packet)
      → hs.add_trailer (hs.add_mac h p) ≡ hs.add_mac h (hs.add_trailer p)

-- A device with the address `own` that is set up to receive.
pub record IsListening (d : TdmaNetDevice) (own : ℕ) : Type 0 where
  pub mac : TdmaCentralMac
  pub has : d.mac ≡ some mac
  pub address : Links.get_address mac ≡ own
  pub rx : mac.low.rx ≡ true
  pub up : mac.up ≡ true
  pub receiver : d.receiver ≡ true

-- A device with its MAC, which has the channel of that number, the callback of `TxQueueStart` and an
-- empty queue.
pub record CanSend (s : TdmaNetDevice) (mac : TdmaCentralMac) (number : ℕ) : Type 0 where
  pub has : s.mac ≡ some mac
  pub channel : mac.low.channel ≡ some number
  pub queue_start : mac.queue_start ≡ true
  pub counted : IsCounted mac.queue
  pub empty : mac.queue.queue ≡ []
  pub room : 0 < mac.queue.max_size
  pub address : Links.get_address mac < 2 ^ 48

module _ (hs : Headers) (laws : IsHeaders hs) (is_broadcast is_group : ℕ → Bool) where
  -- The low MAC takes a frame of data or management apart into the packet and the header that
  -- it was made of.
  receive-frame :
      (p : Packet) (h : WifiMacHeader)
      → IsMac48 h
      → MacLow.receive hs (frame hs p h) ≡ (if is_data h || is_mgt h then some (p, h) else none)
  unfolding MacLow.receive frame
  receive-frame p h w =
      let split : hs.remove_mac (hs.add_trailer (hs.add_mac h p)) ≡ (h, hs.add_trailer p) =
        ap hs.remove_mac (laws.ends h p) ∙ laws.mac h (hs.add_trailer p) w in
      ground (arith, split, laws.trailer p)

  -- What a device that is set up to receive passes up: nothing of a packet for another host, unless
  -- it also has a callback for all packets.
  abbrev pub heard : Bool → ℕ → Packet → ℕ → ℕ → ℕ → List Up
  heard promiscuous own p n from to =
      let type = packet_type hs is_broadcast is_group own to in
      (if is_otherhost hs is_broadcast is_group type
        then []
        else notify_rx p ∷ forward_up p n from ∷ [])
      ++ (if promiscuous then notify_promisc_rx p ∷ promisc_rx p n from to type ∷ [] else [])

  pass_up-heard :
      (d : TdmaNetDevice) (own : ℕ) (p : Packet) (n from to : ℕ)
      → IsListening d own
      → n < 2 ^ 16
      → pass_up hs is_broadcast is_group d (hs.add_llc n p) from to
        ≡ some (heard d.promiscuous own p n from to)
  unfolding pass_up
  pass_up-heard d own p n from to l w =
      elim (Bool-cases
        (is_otherhost hs is_broadcast is_group (packet_type hs is_broadcast is_group own to))) [
          | inl other ↦ ground (arith, other, laws.llc n p w, l.has, l.address, l.receiver)
          | inr mine ↦ ground (arith, mine, laws.llc n p w, l.has, l.address, l.receiver)
        ]

  hear-frame :
      (d : TdmaNetDevice) (own : ℕ) (p : Packet) (n : ℕ) (h : WifiMacHeader)
      → IsListening d own
      → n < 2 ^ 16
      → IsMac48 h
      → is_data h ≡ true
      → hear hs is_broadcast is_group d (frame hs (hs.add_llc n p) h)
        ≡ some (heard d.promiscuous own p n h.addr3 h.addr1)
  unfolding hear Links.receive
  hear-frame d own p n h l wn wh of_data = ground (
    arith,
    receive-frame (hs.add_llc n p) h wh,
    of_data,
    l.has,
    l.rx,
    l.up,
    pass_up-heard d own p n h.addr3 h.addr1 l wn,
  )

  -- The item that `Send` queues.
  abbrev item_of : TdmaCentralMac → ℕ → Packet → ℕ → ℕ → ℕ → Item
  item_of mac pointer packet dest protocol now = record {
    pointer = pointer;
    packet = hs.add_llc protocol packet;
    hdr = record {
      type = data_type;
      addr1 = dest;
      addr2 = Links.get_address mac;
      addr3 = Links.get_address mac;
    };
    tstamp = now;
  }

  send-empty :
      (s : TdmaNetDevice) (mac : TdmaCentralMac) (pointer : ℕ) (packet : Packet)
      (dest protocol now : ℕ)
      → s.mac ≡ some mac
      → IsCounted mac.queue
      → mac.queue.queue ≡ []
      → 0 < mac.queue.max_size
      → let item = item_of mac pointer packet dest protocol now in
        let q = record mac.queue { queue = item ∷ []; size = 1 } in
        let mac' = record mac { queue = q } in
        send hs is_broadcast is_group s pointer packet dest protocol now
        ≡ some (record s { mac = some mac' }, [], false)
  unfolding send enqueue_own enqueue_from queue_packet MacQueue.enqueue MacQueue.cleanup
  send-empty s mac pointer packet dest protocol now has counted empty room =
      let size : mac.queue.size ≡ 0 = ground (arith, counted.counted, empty) in
      ground (arith, has, empty, size, room)

  -- A session with a single item in the queue, which fits in the slot and stays up to date.
  session-single :
      (tx : Packet → ℕ) (q : TdmaMacQueue) (item : Item) (us now : ℕ)
      → q.queue ≡ item ∷ []
      → q.size ≡ 1
      → now + us * 1000 < item.tstamp + q.max_delay
      → item.packet.size < 1500
      → tx item.packet < us * 1000
      → (r : List Item × TdmaMacQueue × ℕ) × (transmit tx true 2 q us now ≡ some r)
        × (r.0 ≡ item ∷ [])
        × (r.1.queue ≡ [])
        × (r.2 ≡ now + tx item.packet)
  unfolding fitting
  session-single tx q item us now one size stays small short =
      let counted : IsCounted q = record {
        counted = ground (arith, size, one);
        fits = ground (arith, one);
      } in
      let (r, runs, sends) =
        transmit-Sends tx 2 q us now counted (ground (arith, one, stays)) (rw one (small, tt))
          (ground (arith, one)) in
      let sent : r.0 ≡ item ∷ [] = ground (arith, sends.sent, one, short) in
      (r, runs, sent, ground (arith, sends.left, one, sent), ground (arith, sends.time, sent))

  -- The channel that the devices are on, with the parameters of its `Send`.
  module _ (d : Double) (distance : Vector d.F → Vector d.F → d.F) (to_u64 : d.F → ℕ)
      (position : ℕ → Vector d.F) where
    -- `Send` drops nothing, a session sends the item and no other in its transmission time, the low
    -- MAC hands its frame to the channel, the receiver has a reception of the frame, and its device
    -- passes the packet up.
    abbrev pub Delivers :
        (Packet → ℕ)
        → TdmaNetDevice
        → TdmaCentralMac
        → ℕ
        → Packet
        → ℕ
        → ℕ
        → ℕ
        → ℕ
        → ℕ
        → ℕ
        → SimpleWirelessChannel d.F
        → TdmaMacLow
        → TdmaMacLow
        → TdmaNetDevice
        → ℕ
        → Type 0
    Delivers tx s mac pointer packet dest protocol sent now us number c sender receiver b own =
        (s' : TdmaNetDevice) × (mac' : TdmaCentralMac) × (send hs is_broadcast is_group s pointer
            packet dest protocol sent
          ≡ some (s', [], false))
        × (s'.mac ≡ some mac')
        × (r : List Item × TdmaMacQueue × ℕ) × (transmit tx mac'.queue_start 2 mac'.queue us now
            ≡ some r)
        × (item : Item) × (r.0 ≡ item ∷ [])
        × (r.1.queue ≡ [])
        × (r.2 ≡ now + tx item.packet)
        × (air : Packet) × ((MacLow.start_transmission hs mac'.low item.packet item.hdr).1
            ≡ some (number, air))
        × Has (reception d distance to_u64 position air sender receiver)
            (WirelessChannel.send d distance to_u64 position c air sender)
        × (hear hs is_broadcast is_group b air
            ≡ some (heard b.promiscuous own packet protocol (Links.get_address mac) dest))

    -- A device whose MAC has the channel, the callback of `TxQueueStart` and an empty queue sends a
    -- packet, which with its LLC header is smaller than 1500 bytes. A session follows, whose slot
    -- is longer than the transmission of the packet with its LLC header, and which ends before the
    -- item goes out of date. Then `Send` drops nothing, the session sends this one item in its
    -- transmission time, and the low MAC hands its frame to the channel. Every other device in
    -- range, in every place of the channel's list, has a reception of the frame. If it is set up to
    -- receive, it passes the packet up as it was sent, with the protocol number and the sender's
    -- address, if it is addressed to it, to all or to a group, and for another host it passes
    -- nothing up but to a callback for all packets.
    pub send-hear :
        (tx : Packet → ℕ) (s : TdmaNetDevice) (mac : TdmaCentralMac) (pointer : ℕ) (packet : Packet)
        (dest protocol sent now us number : ℕ) (c : SimpleWirelessChannel d.F)
        (sender receiver : TdmaMacLow) (b : TdmaNetDevice) (own : ℕ)
        → CanSend s mac number
        → dest < 2 ^ 48
        → protocol < 2 ^ 16
        → now + us * 1000 < sent + mac.queue.max_delay
        → (hs.add_llc protocol packet).size < 1500
        → tx (hs.add_llc protocol packet) < us * 1000
        → Has receiver c.low_list
        → Reaches d distance to_u64 position c sender receiver
        → IsListening b own
        → Delivers tx s mac pointer packet dest protocol sent now us number c sender receiver b own
    unfolding MacLow.start_transmission WirelessChannel.send is_data
    send-hear tx s mac pointer packet dest protocol sent now us number c sender receiver b own can
          wd wp fresh small short there near ready =
        let item = item_of mac pointer packet dest protocol sent in
        let q : TdmaMacQueue = record mac.queue { queue = item ∷ []; size = 1 } in
        let mac' : TdmaCentralMac = record mac { queue = q } in
        let air = frame hs item.packet item.hdr in
        let (r, runs, one, left, time) =
          session-single tx q item us now refl refl fresh small short in
        (
          record s { mac = some mac' },
          mac',
          send-empty s mac pointer packet dest protocol sent can.has can.counted can.empty can.room,
          refl,
          r,
          ground (arith, runs, can.queue_start),
          item,
          one,
          left,
          time,
          air,
          ground (arith, can.channel),
          Reach.sent d distance to_u64 position c air sender receiver c.low_list there near,
          hear-frame b own packet protocol item.hdr ready wp
              (record { addr1 = wd; addr2 = can.address; addr3 = can.address }) refl,
        )
