-- ===== src/WirelessChannel.antt =====
-- The channel between the devices: simple-wireless-channel.h and simple-wireless-channel.cc.
pub mod Reach
use saero_rp.Prelude.{
  ℕ, ◌^◌, ◌%◌, Bool, true, false, ◌||◌, List, [], ◌∷◌, ◌++◌, ◌==◌, if◌then◌else◌, length,
}
use saero_rp.Double.{Double, Vector}
use saero_rp.PacketQueue.{Packet}

-- A `TdmaMacLow` with its device and the node of the device.
pub record TdmaMacLow : Type 0 where
  pub device : ℕ
  pub node : ℕ

pub record SimpleWirelessChannel (F : Type 0) : Type 0 where
  pub low_list : List TdmaMacLow
  pub range : F
  pub grange : F
  -- `(unsigned int) m_gid`
  pub gid : ℕ

-- A call of `TdmaMacLow::Receive`, scheduled in the context of a node after a delay in nanoseconds.
pub record Reception : Type 0 where
  pub context : ℕ
  pub delay : ℕ
  pub receiver : TdmaMacLow
  pub packet : Packet

-- `Add`
unfoldable pub add : {F : Type 0} → SimpleWirelessChannel F → TdmaMacLow → SimpleWirelessChannel F
add c low = record c { low_list = c.low_list ++ low ∷ [] }

-- `GetNDevices`
unfoldable pub get_n_devices : {F : Type 0} → SimpleWirelessChannel F → ℕ
get_n_devices c = length c.low_list % 2 ^ 32

-- `position` is where a node's mobility model puts it; that every node on the channel has one is what
-- `Send` asserts, and is taken for granted here. `distance` is `GetDistanceFrom`, and
-- `to_u64` the conversion to `uint64_t`.
module _ (d : Double) (distance : Vector d.F → Vector d.F → d.F) (to_u64 : d.F → ℕ)
    (position : ℕ → Vector d.F) where
  -- The range of a sender: that of the ground station if it is the ground station.
  abbrev pub range_of : SimpleWirelessChannel d.F → TdmaMacLow → d.F
  range_of c sender = if sender.node == c.gid then c.grange else c.range

  -- The loop of `Send` over the list.
  unfoldable pub send_to :
      SimpleWirelessChannel d.F → Packet → TdmaMacLow → List TdmaMacLow → List Reception
  send_to c p sender [] = []
  send_to c p sender (low ∷ rest) =
      let others = send_to c p sender rest in
      let far = distance (position sender.node) (position low.node) in
      if low.device == sender.device
      then others
      else if d.lt (range_of c sender) far
      then others
      else record {
        context = low.node;
        delay = to_u64 (d.mul (d.literal 33 1) far);
        receiver = low;
        packet = p;
      }
        ∷ others

  -- `Send`
  unfoldable pub send : SimpleWirelessChannel d.F → Packet → TdmaMacLow → List Reception
  unfolding send_to
  send c p sender = send_to c p sender c.low_list
