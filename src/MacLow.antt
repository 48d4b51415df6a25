-- ===== src/MacLow.antt =====
-- The lowest layer of a device: tdma-mac-low.h and tdma-mac-low.cc. A channel and a device are
-- numbers.
use saero_rp.Prelude.{ℕ, ◌+◌, ◌||◌, Bool, true, false, Option, none, some, if◌then◌else◌}
use saero_rp.PacketQueue.{Packet}
use saero_rp.MacQueue.{data_type, mgt_type, other_type, WifiMacHeader}

-- What the sources use of the headers of a `Packet`: an LLC header, by its type, and a
-- `WifiMacHeader` at the front, a `WifiMacTrailer` at the back, and the sizes of the last two.
pub record Headers : Type 0 where
  pub add_llc : ℕ → Packet → Packet
  pub remove_llc : Packet → ℕ × Packet
  pub add_mac : WifiMacHeader → Packet → Packet
  pub remove_mac : Packet → WifiMacHeader × Packet
  pub add_trailer : Packet → Packet
  pub remove_trailer : Packet → Packet
  pub mac_size : WifiMacHeader → ℕ
  pub trailer_size : ℕ

pub record MacLow : Type 0 where
  pub self : ℕ
  pub bssid : ℕ
  pub channel : Option ℕ
  pub device : Option ℕ
  -- Whether `m_rxCallback` is set.
  pub rx : Bool
  pub current_packet : Option Packet
  pub current_hdr : WifiMacHeader

unfoldable pub set_address : MacLow → ℕ → MacLow
set_address low address = record low { self = address }

unfoldable pub set_bssid : MacLow → ℕ → MacLow
set_bssid low bssid = record low { bssid = bssid }

unfoldable pub set_device : MacLow → ℕ → MacLow
set_device low device = record low { device = some device }

unfoldable pub set_rx_callback : MacLow → MacLow
set_rx_callback low = record low { rx = true }

-- `SetChannel`: the channel whose `Add` is called with this object is the second result.
unfoldable pub set_channel : MacLow → ℕ → MacLow × ℕ
set_channel low channel = (record low { channel = some channel }, channel)

unfoldable pub is_data : WifiMacHeader → Bool
is_data hdr = elim hdr.type [ data_type ↦ true | mgt_type ↦ false | other_type ↦ false ]

unfoldable pub is_mgt : WifiMacHeader → Bool
is_mgt hdr = elim hdr.type [ data_type ↦ false | mgt_type ↦ true | other_type ↦ false ]

module _ (hs : Headers) where
  unfoldable pub get_size : Packet → WifiMacHeader → ℕ
  get_size packet hdr = packet.size + hs.mac_size hdr + hs.trailer_size

  -- The frame of a packet.
  unfoldable pub frame : Packet → WifiMacHeader → Packet
  frame packet hdr = hs.add_trailer (hs.add_mac hdr packet)

  -- `ForwardDown`: the channel whose `Send` is called, and the packet; `none` without a channel.
  unfoldable pub forward_down : MacLow → Packet → Option (ℕ × Packet)
  forward_down low packet = elim low.channel [ none ↦ none | some channel ↦ some (channel, packet) ]

  unfoldable pub start_transmission : MacLow → Packet → WifiMacHeader → MacLow × Option (ℕ × Packet)
  unfolding frame forward_down
  start_transmission low packet hdr =
      (record low { current_packet = none; current_hdr = hdr }, forward_down low (frame packet hdr))

  -- `Receive`: the arguments of the callback, `none` for a frame that is dropped.
  unfoldable pub receive : Packet → Option (Packet × WifiMacHeader)
  unfolding is_data is_mgt
  receive packet =
      let (hdr, rest) = hs.remove_mac packet in
      if is_data hdr || is_mgt hdr then some (hs.remove_trailer rest, hdr) else none
