-- ===== src/CentralMac/Links.antt =====
-- The object of tdma-central-mac.h and tdma-central-mac.cc between the device above it and the low
-- MAC below it. A controller, a channel and a device are numbers.
use saero_rp.Prelude.{ℕ, Bool, true, Option, none, some, List, [], ◌∷◌, ltb, if◌then◌else◌}
use saero_rp.PacketQueue.{Packet}
use saero_rp.MacQueue.{set_max_size, set_max_delay, WifiMacHeader, TdmaMacQueue}
use saero_rp.MacLow
use saero_rp.MacLow.{MacLow}

-- The callbacks are whether they are set; they are those of the device.
pub record TdmaCentralMac : Type 0 where
  pub low : MacLow
  pub queue : TdmaMacQueue
  pub channel : Option ℕ
  pub controller : Option ℕ
  pub device : Option ℕ
  pub up : Bool
  pub queue_start : Bool
  pub queue_stop : Bool
  pub running : Bool

-- The calls of other objects: `SetChannel` and `Start` of a controller, `Add` of a channel with the
-- low MAC, `SetMacPtr` of the queue, and the device's callbacks for a link and a queue.
pub data Call : Type 0 where
  controller_channel : ℕ → ℕ → Call
  controller_start : ℕ → Call
  channel_add : ℕ → Call
  queue_mac : Call
  link_up_callback : Call
  queue_state : ℕ → Call

-- `none` is a call through the null pointer `m_tdmaController`.
unfoldable pub set_channel : TdmaCentralMac → Option ℕ → Option (TdmaCentralMac × List Call)
set_channel mac none = some (mac, [])
set_channel mac (some channel) =
    let (low, added) = MacLow.set_channel mac.low channel in
    elim mac.controller [
      | none ↦ none
      | some controller ↦ some (
        record mac { channel = some channel; low = low },
        controller_channel controller channel ∷ channel_add added ∷ [],
      )
    ]

unfoldable pub set_tdma_controller : TdmaCentralMac → Option ℕ → TdmaCentralMac
set_tdma_controller mac controller = record mac { controller = controller }

unfoldable pub set_device : TdmaCentralMac → ℕ → TdmaCentralMac
set_device mac device = record mac { device = some device; low = MacLow.set_device mac.low device }

unfoldable pub set_forward_up_callback : TdmaCentralMac → TdmaCentralMac
set_forward_up_callback mac = record mac { up = true }

-- `SetLinkUpCallback` calls the callback.
unfoldable pub set_link_up_callback : TdmaCentralMac → List Call
set_link_up_callback mac = link_up_callback ∷ []

unfoldable pub set_tx_queue_start_callback : TdmaCentralMac → TdmaCentralMac
set_tx_queue_start_callback mac = record mac { queue_start = true }

unfoldable pub set_tx_queue_stop_callback : TdmaCentralMac → TdmaCentralMac
set_tx_queue_stop_callback mac = record mac { queue_stop = true }

unfoldable pub set_max_queue_size : TdmaCentralMac → ℕ → TdmaCentralMac
set_max_queue_size mac size = record mac { queue = set_max_size mac.queue size }

unfoldable pub set_max_queue_delay : TdmaCentralMac → ℕ → TdmaCentralMac
set_max_queue_delay mac delay = record mac { queue = set_max_delay mac.queue delay }

unfoldable pub get_address : TdmaCentralMac → ℕ
get_address mac = mac.low.self

unfoldable pub set_address : TdmaCentralMac → ℕ → TdmaCentralMac
set_address mac address = record mac {
  low = MacLow.set_bssid (MacLow.set_address mac.low address) address;
}

unfoldable pub get_n_queues : TdmaCentralMac → ℕ
get_n_queues mac = 1

-- `TxQueueStart`: `none` is a failed assertion or a null callback.
unfoldable pub tx_queue_start : TdmaCentralMac → ℕ → Option (List Call)
unfolding get_n_queues
tx_queue_start mac index =
    if ltb index (get_n_queues mac)
    then if mac.queue_start then some (queue_state index ∷ []) else none
    else none

unfoldable pub tx_queue_stop : TdmaCentralMac → ℕ → Option (List Call)
unfolding get_n_queues
tx_queue_stop mac index =
    if ltb index (get_n_queues mac)
    then if mac.queue_stop then some (queue_state index ∷ []) else none
    else none

-- `Receive`, which passes its arguments to `ForwardUp`: the packet, where it is from and where it
-- goes.
unfoldable pub receive : Packet → WifiMacHeader → Packet × ℕ × ℕ
receive packet hdr = (packet, hdr.addr3, hdr.addr1)

-- `DoStart`: `none` is a call through a null pointer.
unfoldable pub do_start : TdmaCentralMac → Option (TdmaCentralMac × List Call)
do_start mac = elim mac.controller [
  | none ↦ none
  | some controller ↦ some (
    record mac { running = true; low = MacLow.set_rx_callback mac.low },
    queue_mac ∷ controller_start controller ∷ [],
  )
]
