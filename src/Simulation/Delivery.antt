-- ===== src/Simulation/Delivery.antt =====
-- A packet in the network of aero-test-final.cc, from `Send` of a node's device to the devices that
-- hear it in the node's session.
use saero_rp.Prelude.{ℕ, ◌+◌, ◌*◌, ◌^◌, ◌<◌, ◌≤◌, ◌≡◌, refl, Bool, some, List, ◌∷◌, ◌++◌, arith}
use saero_rp.Double.{Double, Vector}
use saero_rp.PacketQueue.{Packet}
use saero_rp.MacLow.{Headers}
use saero_rp.CentralMac.Links.{TdmaCentralMac}
use saero_rp.WirelessChannel.{TdmaMacLow, SimpleWirelessChannel}
use saero_rp.WirelessChannel.Reach.{Has, Reaches}
use saero_rp.NetDevice.{TdmaNetDevice}
use saero_rp.NetDevice.Delivery.{IsHeaders, CanSend, IsListening, Delivers, send-hear}
use saero_rp.TdmaController.{TdmaController, Session, frame}
use saero_rp.TdmaController.Frame.{total_delay}
use saero_rp.Simulation.{create_devices}
use saero_rp.Simulation.Network.{IsMacs, turn, create_devices-frame}

module _ (hs : Headers) (laws : IsHeaders hs) (is_broadcast is_group : ℕ → Bool) (d : Double)
    (distance : Vector d.F → Vector d.F → d.F) (to_u64 : d.F → ℕ) (position : ℕ → Vector d.F) where
  -- In the network of the scenario, a node whose queue is empty sends a packet that with its LLC
  -- header is smaller than 1500 bytes and takes less than 1100 microseconds, and that stays up to
  -- date until the node's session is over. Then in the frame that starts at the time `start` there
  -- is a session of the node, 1200 microseconds times its number later, which sends this packet
  -- alone and in its transmission time, and every other device on the channel that is in range and
  -- set up to receive passes it up, if it is addressed to it, to all or to a group.
  pub create_devices-hear :
      (macs : ℕ → ℕ) (wifis sinks k start : ℕ) (tx : Packet → ℕ) (s : TdmaNetDevice)
      (mac : TdmaCentralMac) (pointer : ℕ) (packet : Packet) (dest protocol sent number : ℕ)
      (c : SimpleWirelessChannel d.F) (sender receiver : TdmaMacLow) (b : TdmaNetDevice) (own : ℕ)
      → sinks < wifis
      → wifis + sinks + 1 ≤ 2 ^ 31
      → IsMacs (wifis + sinks) macs
      → k < wifis + sinks
      → CanSend s mac number
      → dest < 2 ^ 48
      → protocol < 2 ^ 16
      → start + (1200 * k + 1100) * 1000 < sent + mac.queue.max_delay
      → (hs.add_llc protocol packet).size < 1500
      → tx (hs.add_llc protocol packet) < 1100 * 1000
      → Has receiver c.low_list
      → Reaches d distance to_u64 position c sender receiver
      → IsListening b own
      → (controller : TdmaController) × (create_devices macs (0, sinks) (sinks, wifis)
          ≡ some controller)
        × (before : List Session) × (session : Session) × (after : List Session) × (frame
              (wifis + sinks)
              controller
              0
            ≡ some (before ++ session ∷ after))
        × (session.mac ≡ macs k)
        × (total_delay before ≡ 1200 * k)
        × Delivers hs laws is_broadcast is_group d distance to_u64 position tx s mac pointer packet
            dest protocol sent
            (start + total_delay before * 1000)
            session.transmission
            number
            c
            sender
            receiver
            b
            own
  create_devices-hear macs wifis sinks k start tx s mac pointer packet dest protocol sent number c
        sender receiver b own more small is inside can wd wp fresh sized short there near ready =
      let (nodes, controller, creates, runs, total, before, after, split, time) =
        create_devices-frame macs wifis sinks k more small is inside in
      (
        controller,
        creates,
        before,
        turn macs (wifis + sinks) k,
        after,
        ground (arith, runs, split),
        refl,
        time,
        send-hear hs laws is_broadcast is_group d distance to_u64 position tx s mac pointer packet
            dest protocol sent (start + total_delay before * 1000) 1100 number c sender receiver b
            own can wd wp (omega (arith, time)) sized short there near ready,
      )
