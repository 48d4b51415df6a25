-- ===== src/Examples/Link.antt =====
-- Two devices with their MACs, and the parts of a third.
use saero_rp.Prelude.{
  ℕ, ◌+◌, ◌-◌, ◌*◌, ◌/◌, ◌%◌, ◌^◌, ◌≡◌, refl, Bool, true, false, none, some, List, [], ◌∷◌, ◌==◌,
  if◌then◌else◌, arith, inl, inr,
}
use saero_rp.PacketQueue.{Packet}
use saero_rp.MacQueue.{new_queue, data_type, Item, TdmaMacQueue}
use saero_rp.MacLow.{MacLow, start_transmission}
use saero_rp.CentralMac.{transmit}
use saero_rp.CentralMac.Links.{Call, TdmaCentralMac, get_address}
use saero_rp.WirelessChannel
use saero_rp.WirelessChannel.Reach.{Has, reception}
use saero_rp.Examples.Numbers.{ints, magnitude}
use saero_rp.Examples.Routes.{packet}
use saero_rp.Examples.Air.{far, place, low, channel}
use saero_rp.NetDevice.Setting.{the_mac, the_node, the_channel, the_controller, set_all, adds}
use saero_rp.NetDevice.Configuration.{set_all_complete}
use saero_rp.NetDevice.{new_device, packet_type, TdmaNetDevice, notify_rx, forward_up, send, hear}
use saero_rp.NetDevice.Delivery.{IsListening, CanSend, send-hear}
use saero_rp.Examples.Frames.{headers, headers-IsHeaders}

abbrev low_mac : ℕ → MacLow
low_mac address = record {
  self = address;
  bssid = address;
  channel = some 9;
  device = some address;
  rx = true;
  current_packet = none;
  current_hdr = record { type = data_type; addr1 = 0; addr2 = 0; addr3 = 0 };
}

abbrev pub central : ℕ → TdmaCentralMac
central address = record {
  low = low_mac address;
  queue = new_queue 400 (10 ^ 9);
  channel = some 9;
  controller = some 3;
  device = some address;
  up = true;
  queue_start = true;
  queue_stop = true;
  running = true;
}

abbrev pub device : ℕ → TdmaNetDevice
device address = record {
  self = address;
  node = some address;
  mac = some (central address);
  channel = some 9;
  controller = some 3;
  config_complete = true;
  link_up = true;
  mtu = 2296;
  receiver = true;
  promiscuous = false;
}

abbrev pub is_broadcast : ℕ → Bool
is_broadcast address = address == 2 ^ 48 - 1

abbrev pub is_group : ℕ → Bool
is_group address = address / 2 ^ 40 % 2 == 1

abbrev pub tx : Packet → ℕ
tx p = p.size * 10

pub device-CanSend : CanSend (device 1) (central 1) 9
unfolding new_queue get_address
device-CanSend = record {
  has = refl;
  channel = refl;
  queue_start = refl;
  counted = record { counted = refl; fits = omega arith };
  empty = refl;
  room = omega arith;
  address = omega arith;
}

pub device-IsListening : IsListening (device 2) 2
unfolding get_address
device-IsListening = record {
  mac = central 2;
  has = refl;
  address = refl;
  rx = refl;
  up = refl;
  receiver = refl;
}

-- The device 1 sends to the device 2, which is 2 away in a range of 5.
send-hear_example :
    (s : TdmaNetDevice) × (mac : TdmaCentralMac) × (send headers is_broadcast is_group
        (device 1)
        7
        (packet 1)
        2
        2048
        100
      ≡ some (s, [], false))
    × (s.mac ≡ some mac)
    × (r : List Item × TdmaMacQueue × ℕ) × (transmit tx mac.queue_start 2 mac.queue 10 200 ≡ some r)
    × (item : Item) × (r.0 ≡ item ∷ [])
    × (r.1.queue ≡ [])
    × (r.2 ≡ 200 + tx item.packet)
    × (air : Packet) × ((start_transmission headers mac.low item.packet item.hdr).1 ≡ some (9, air))
    × Has
        (reception ints far magnitude place air (low 1) (low 2))
        (WirelessChannel.send ints far magnitude place channel air (low 1))
    × (hear headers is_broadcast is_group (device 2) air
        ≡ some (notify_rx (packet 1) ∷ forward_up (packet 1) 2048 1 ∷ []))
unfolding new_queue packet_type get_address
send-hear_example =
    send-hear headers headers-IsHeaders is_broadcast is_group ints far magnitude place tx (device 1)
      (central 1) 7 (packet 1) 2 2048 100 200 10 9 channel (low 1) (low 2) (device 2) 2
      device-CanSend (omega arith) (omega arith) (omega arith) (omega arith) (omega arith)
      (inr (inl refl)) (refl, refl) device-IsListening

-- A MAC that is in no channel.
abbrev spare : TdmaCentralMac
spare = record (central 4) { channel = none; controller = none; queue_start = false }

-- A null channel, and a MAC, a node, a controller and a channel in an order of their own.
set_all_complete_example :
    (r : TdmaNetDevice × List Call) × (set_all (new_device 4 false 0) (
        the_channel none
        ∷ the_controller 3
        ∷ the_mac spare
        ∷ the_channel (some 9)
        ∷ the_node 4
        ∷ [])
      ≡ some r)
    × (r.0.config_complete ≡ true)
    × (r.0.link_up ≡ (if r.0.config_complete then true else false))
    × (adds r.1 ≡ (if r.0.config_complete then 1 else 0))
set_all_complete_example =
    set_all_complete 4 false 0
      (the_channel none ∷ the_controller 3 ∷ the_mac spare ∷ the_channel (some 9) ∷ the_node 4 ∷ [])
