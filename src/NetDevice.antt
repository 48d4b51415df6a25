-- ===== src/NetDevice.antt =====
-- The device of a node: tdma-mac-net-device.h and tdma-mac-net-device.cc. A node, a channel, a
-- controller and a device are numbers; a null pointer is `none`.
pub mod Setting
pub mod Configuration
pub mod Delivery
use saero_rp.Prelude.{
  ℕ, ◌+◌, ◌-◌, Bool, true, false, Option, none, some, List, [], ◌∷◌, ◌++◌, ltb, ◌==◌, if◌then◌else◌,
}
use saero_rp.PacketQueue.{Packet}
use saero_rp.MacLow
use saero_rp.MacLow.{Headers}
use saero_rp.CentralMac.{enqueue_own, enqueue_from}
use saero_rp.CentralMac.Links
use saero_rp.CentralMac.Links.{TdmaCentralMac, Call}

pub record TdmaNetDevice : Type 0 where
  pub self : ℕ
  pub node : Option ℕ
  pub mac : Option TdmaCentralMac
  pub channel : Option ℕ
  pub controller : Option ℕ
  pub config_complete : Bool
  pub link_up : Bool
  pub mtu : ℕ
  -- Whether `m_forwardUp` and `m_promiscRx` are set.
  pub receiver : Bool
  pub promiscuous : Bool

-- The constructor, which leaves `m_linkUp` and `m_mtu` as they happen to be.
unfoldable pub new_device : ℕ → Bool → ℕ → TdmaNetDevice
new_device self link_up mtu = record {
  self = self;
  node = none;
  mac = none;
  channel = none;
  controller = none;
  config_complete = false;
  link_up = link_up;
  mtu = mtu;
  receiver = false;
  promiscuous = false;
}

-- `LinkUp` and `LinkDown`.
unfoldable pub set_link : TdmaNetDevice → Bool → TdmaNetDevice
set_link d up = record d { link_up = up }

-- The part of `CompleteConfig` after its test, with the pointers that it tests. `SetLinkUpCallback`
-- of the MAC calls `LinkUp`.
unfoldable pub configure :
    TdmaNetDevice → TdmaCentralMac → ℕ → ℕ → Option (TdmaNetDevice × List Call)
unfolding set_link
configure d mac channel controller =
    let mac' = Links.set_tdma_controller mac (some controller) in
    elim (Links.set_channel mac' (some channel)) [
      | none ↦ none
      | some (joined, calls) ↦
          let heard = Links.set_forward_up_callback joined in
          let calls' = Links.set_link_up_callback heard in
          let started = Links.set_tx_queue_start_callback heard in
          let stopped = Links.set_tx_queue_stop_callback started in
          some (
            record (set_link d true) { mac = some stopped; config_complete = true },
            calls ++ calls',
          )
    ]

unfoldable pub complete_config : TdmaNetDevice → Option (TdmaNetDevice × List Call)
unfolding configure
complete_config d = elim d.mac [
  | none ↦ some (d, [])
  | some mac ↦ elim d.node [
    | none ↦ some (d, [])
    | some node ↦ elim d.channel [
      | none ↦ some (d, [])
      | some channel ↦ elim d.controller [
        | none ↦ some (d, [])
        | some controller ↦
            let configured = configure d mac channel controller in
            if d.config_complete then some (d, []) else configured
      ]
    ]
  ]
]

-- `SetMac` of a MAC that is not null.
unfoldable pub set_mac : TdmaNetDevice → TdmaCentralMac → Option (TdmaNetDevice × List Call)
unfolding complete_config
set_mac d mac = complete_config (record d { mac = some (Links.set_device mac d.self) })

unfoldable pub set_tdma_controller : TdmaNetDevice → Option ℕ → Option (TdmaNetDevice × List Call)
unfolding complete_config
set_tdma_controller d controller = complete_config (record d { controller = controller })

unfoldable pub set_node : TdmaNetDevice → Option ℕ → Option (TdmaNetDevice × List Call)
unfolding complete_config
set_node d node = complete_config (record d { node = node })

unfoldable pub set_channel : TdmaNetDevice → Option ℕ → Option (TdmaNetDevice × List Call)
unfolding complete_config
set_channel d none = some (d, [])
set_channel d (some channel) = complete_config (record d { channel = some channel })

-- `SetMtu`: `MAX_MSDU_SIZE` is 2304, and `LLC_SNAP_HEADER_LENGTH` is 8.
unfoldable pub set_mtu : TdmaNetDevice → ℕ → Bool × TdmaNetDevice
set_mtu d mtu = if ltb (2304 - 8) mtu then (false, d) else (true, record d { mtu = mtu })

unfoldable pub set_address : TdmaNetDevice → ℕ → Option TdmaNetDevice
set_address d address = elim d.mac [
  | none ↦ none
  | some mac ↦ some (record d { mac = some (Links.set_address mac address) })
]

-- `NetDevice::PacketType`
pub data PacketType : Type 0 where
  packet_host : PacketType
  packet_broadcast : PacketType
  packet_multicast : PacketType
  packet_otherhost : PacketType

-- What `ForwardUp` calls, in order: the traces of the MAC, and the callbacks with the packet, its
-- protocol, where it is from, and for the second also where it goes and its type.
pub data Up : Type 0 where
  notify_rx : Packet → Up
  forward_up : Packet → ℕ → ℕ → Up
  notify_promisc_rx : Packet → Up
  promisc_rx : Packet → ℕ → ℕ → ℕ → PacketType → Up

-- `is_broadcast` and `is_group` are the tests of `Mac48Address`.
module _ (hs : Headers) (is_broadcast is_group : ℕ → Bool) where
  unfoldable pub packet_type : ℕ → ℕ → PacketType
  packet_type own to =
      if is_broadcast to
      then packet_broadcast
      else if is_group to
      then packet_multicast
      else if to == own
      then packet_host
      else packet_otherhost

  abbrev pub is_otherhost : PacketType → Bool
  is_otherhost packet_host = false
  is_otherhost packet_broadcast = false
  is_otherhost packet_multicast = false
  is_otherhost packet_otherhost = true

  -- `ForwardUp`: `none` is a call through a null MAC or callback.
  unfoldable pub pass_up : TdmaNetDevice → Packet → ℕ → ℕ → Option (List Up)
  unfolding packet_type
  pass_up d packet from to =
      let (protocol, payload) = hs.remove_llc packet in
      elim d.mac [
        | none ↦ none
        | some mac ↦
            let type = packet_type (Links.get_address mac) to in
            let others =
              if d.promiscuous
              then notify_promisc_rx payload ∷ promisc_rx payload protocol from to type ∷ []
              else [] in
            if is_otherhost type
            then some others
            else if d.receiver
            then some (notify_rx payload ∷ forward_up payload protocol from ∷ others)
            else none
      ]

  -- A frame that the channel hands to the low MAC of a device, up to the device's callbacks. `none`
  -- is a call through a null pointer.
  unfoldable pub hear : TdmaNetDevice → Packet → Option (List Up)
  unfolding pass_up
  hear d frame = elim d.mac [
    | none ↦ none
    | some mac ↦ elim (MacLow.receive hs frame) [
      | none ↦ some []
      | some (packet, hdr) ↦
          let (packet', from, to) = Links.receive packet hdr in
          let up = pass_up d packet' from to in
          if mac.low.rx then if mac.up then up else none else none
    ]
  ]

  -- `Send`, which answers true, of the packet object `pointer`: the device, and the packets for which
  -- a drop is called.
  unfoldable pub send :
      TdmaNetDevice → ℕ → Packet → ℕ → ℕ → ℕ → Option (TdmaNetDevice × List Packet × Bool)
  send d pointer packet dest protocol now = elim d.mac [
    | none ↦ none
    | some mac ↦
        let (q, dropped, notified) =
          enqueue_own (Links.get_address mac) mac.queue pointer (hs.add_llc protocol packet) dest
            now in
        some (record d { mac = some (record mac { queue = q }) }, dropped, notified)
  ]

  -- `SendFrom`
  unfoldable pub send_from :
      TdmaNetDevice → ℕ → Packet → ℕ → ℕ → ℕ → ℕ → Option (TdmaNetDevice × List Packet × Bool)
  send_from d pointer packet source dest protocol now = elim d.mac [
    | none ↦ none
    | some mac ↦
        let (q, dropped, notified) =
          enqueue_from (Links.get_address mac) mac.queue pointer (hs.add_llc protocol packet) dest
            source now in
        some (record d { mac = some (record mac { queue = q }) }, dropped, notified)
  ]
