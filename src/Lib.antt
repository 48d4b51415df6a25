-- ===== src/Lib.antt =====
-- SAeroRP: a position based routing protocol for aircraft and its TDMA link layer, for ns-3.
--
-- The routing protocol of a node keeps a table of its neighbours, a table of the positions of all
-- nodes and a queue of packets without a route. It chooses as next hop the neighbour that comes
-- soonest into the range of the destination. Nodes exchange headers of eight kinds. Below it a
-- slotted MAC holds frames in a queue and sends them when a central controller starts its session.
--
-- The files and the code they model:
-- - Packet and its children: the headers of aerorp-packet.h and aerorp-packet.cc, one file each
--   (`TypeHeader` in Packet/TypeTag, `HelloHeader` in Packet/Hello and so on). `serialize`,
--   `deserialize`, `equals` are `Serialize`, `Deserialize` and `operator==`. Wire is the byte buffer
--   of ns-3 as a parameter, with what is documented of it, and Wire/LittleEndian a buffer that meets
--   it.
-- - Neighbor: aerorp-ntable.h and aerorp-ntable.cc; Positions: aerorp-ptable.h and
--   aerorp-ptable.cc. The method `GetEntryUpdateTime` is `get_entry_update_time`, and so on. A map is
--   its list of entries in key order (StdMap), and StdList has the list operations of both tables.
--   Double is the arithmetic of doubles as a parameter: the choice of the best neighbour assumes of
--   it that `<` is irreflexive and transitive, the results on positions that are received that a
--   conversion to `uint32_t` has 32 bits. The methods compare an address with what an end iterator
--   points to; what that is is a parameter too.
-- - PacketQueue: aerorp-pqueue.h and aerorp-pqueue.cc.
-- - Routing: the queueing and forwarding of aerorp-routing-protocol.cc, which joins the two tables
--   and the queue, with the calls of forward and error callbacks as results. Routing/Velocity: how
--   `SendHello` and `RecvAERORP` code a velocity.
-- - Gcm: gcm-converter.h and gcm-converter.cc, with OpenSSL's cipher as a parameter. Secure: how
--   `RouteOutput` encrypts an outgoing packet, told apart by its size; Secure/Undo: what it makes of
--   hello and ground station packets.
-- - Node: the state of a routing protocol with its authentication, and the parameters of the
--   protocol. Authentication: the request and reply packets of aerorp-routing-protocol.cc, their
--   checks (`CheckPacketValidity` and the `Verify` methods) and the branches of `RecvAERORP` for
--   them.
-- - Reception: `RecvAERORP`, a message to the node behind it and the replies that it sends.
--   Reception/Gate: what it ignores; Reception/Delivery: hello packets; Reception/Admission: the
--   messages of an authentication; Reception/Runs: any sequence of messages.
-- - Lookup: `RouteOutput`, `RouteInput` and `LoopbackRoute`, with what they ask of `Ipv4` as a
--   parameter. Lookup/Deferred: packets without a next hop; Lookup/Unicast: those with one.
--   - Beacon: `Start`, the timers, `SendHello` and `SendGroundStationPackets`. Beacon/Expiry: hello
--   packets
--   since the start; Beacon/Ground: ground station packets at a node that receives them.
-- - WirelessChannel: simple-wireless-channel.h and simple-wireless-channel.cc. TdmaHelper:
--   tdma-helper.h and tdma-helper.cc, where the array of slots is a function of row and column with
--   its bounds; TdmaHelper/Defaults: the default slots; TdmaHelper/Assigned: their slot map;
--   TdmaHelper/FromFile: the slots of a file; TdmaHelper/Arguments: slots that are passed as
--   arguments. SlotParser: tdma-slot-assignment-parser.h and
--   tdma-slot-assignment-parser.cc, where a text is the list of its bytes.
-- - MacQueue: tdma-mac-queue.h and tdma-mac-queue.cc. TdmaController: tdma-controller.h and
--   tdma-controller.cc. CentralMac: tdma-central-mac.h and tdma-central-mac.cc, where
--   `transmit` is a session: the call of `StartTransmission` and the calls that follow from it;
--   CentralMac/Links: what it passes between the device and the low MAC.
-- - MacLow: tdma-mac-low.h and tdma-mac-low.cc, with the headers of packets as a parameter.
--   NetDevice: tdma-mac-net-device.h and tdma-mac-net-device.cc. NetDevice/Configuration: the order
--   in which a device is given its parts; NetDevice/Delivery: the way of a packet from one device
--   over the channel to another.
-- - Interfaces: the sockets of aerorp-routing-protocol.cc as interfaces go up and down
--   (Interfaces/Closing) and addresses are added and removed (Interfaces/Adding).
-- - Simulation: the nodes, devices and counters of aero-test-final.cc. Simulation/Network: the
--   sessions of its network; Simulation/Delivery: a packet in them; Simulation/Throughput: what its
--   counters and lines add up to.
-- - Prelude: tests, lists and signed integers. Examples: runs on concrete inputs.
--
-- Numbers: `uint32_t` counters and sums wrap at 2^32. A time is a number of ticks, and a difference
-- of times an integer. Functions that read the clock have it as the argument `now`.
--
-- Fuel: `send_all`, the loop of `SendPacketFromQueue`, has one round more than the queue has entries,
-- since each round takes one out. `run_length`, the endless loop of `ScheduleTdmaSession`, has one
-- round more than the greatest slot, since no slot behind that has a MAC. `frame`, the chain of
-- scheduled sessions, has the number of slots left in the frame. `follow`, the chain of scheduled
-- calls of `SendPacketDown`, has one round more than the queue has packets. That the fuel is enough
-- is part of the results.
--
-- Assertions: a failed `NS_ASSERT`, a call through a null pointer or callback and a read past the end
-- of a packet are `none`. That every node on the channel has a mobility model, which
-- `SimpleWirelessChannel::Send` asserts, is taken for granted.
--
-- Not modelled: the check in `RouteInput` that is only logged; the making of keys and certificates;
-- logging, tracing and printing; the mobility, addresses and applications of the simulation.
pub mod Prelude
pub mod StdMap
pub mod StdList
pub mod Double
pub mod Neighbor
pub mod Positions
pub mod PacketQueue
pub mod Wire
pub mod Packet
pub mod MacQueue
pub mod MacLow
pub mod TdmaController
pub mod SlotParser
pub mod TdmaHelper
pub mod Routing
pub mod Examples
pub mod CentralMac
pub mod NetDevice
pub mod Gcm
pub mod Secure
pub mod Node
pub mod Authentication
pub mod Reception
pub mod Lookup
pub mod Beacon
pub mod Interfaces
pub mod Simulation
pub mod WirelessChannel
