-- ===== src/Lookup.antt =====
-- The route lookup of aerorp-routing-protocol.cc: `RouteOutput` for the packets of the node,
-- `RouteInput` for those that arrive, and the loopback between them.
pub mod Deferred
pub mod Unicast
use saero_rp.Prelude.{
  ℕ, Bool, true, false, not, ◌&&◌, Option, none, some, List, [], ◌∷◌, ◌==◌, if◌then◌else◌, length,
}
use saero_rp.Double.{Vector}
use saero_rp.Neighbor.{best_neighbor}
use saero_rp.Positions.{get_position}
use saero_rp.PacketQueue.{Packet, Ipv4Header, QueueEntry}
use saero_rp.Routing.{
  Router, Moment, Sent, source_of, unset_source, next_hop, deferred_route_output, forwarding,
}
use saero_rp.Secure.{Message, secure, aad_of}
use saero_rp.Node.{Env, Node, Interface}

-- What the protocol asks of the node's `Ipv4`: the broadcast address and the device of interface 1
-- (its local address is that of the `Moment`), interface 2, to the ground station, the loopback
-- device, and `IsDestinationAddress`.
pub record Ip : Type 0 where
  pub broadcast : ℕ
  pub device : ℕ
  pub ground_link : Interface
  pub loopback : ℕ
  pub is_destination : ℕ → ℕ → Bool

-- A packet, and whether it has a `DeferredRouteOutputTag`.
pub record Datagram : Type 0 where
  pub message : Message
  pub deferred : Bool

-- `Ipv4Route`
pub record IpRoute : Type 0 where
  pub destination : ℕ
  pub source : ℕ
  pub gateway : ℕ
  pub device : ℕ

-- What is assigned to `sockerr`.
pub data SocketErrno : Type 0 where
  error_noterror error_noroutetohost : SocketErrno

-- The result of `RouteOutput`: the node, the packet, the route and the error, `none` if nothing is
-- assigned to it.
pub record Lookup (env : Env) : Type 0 where
  pub node : Node env
  pub datagram : Option Datagram
  pub route : Option IpRoute
  pub error : Option SocketErrno

-- The result of `RouteInput`: its value, the node, the calls of the local delivery callback and
-- of forward callbacks, and the entries dropped.
pub record Handled (env : Env) : Type 0 where
  pub accepted : Bool
  pub node : Node env
  pub delivered : List Datagram
  pub sent : List Sent
  pub dropped : List QueueEntry

-- GROUND_STATION_ADDRESS, 192.168.1.1, and 127.0.0.1.
abbrev pub ground_station_address : ℕ
ground_station_address = 3232235777

abbrev pub localhost : ℕ
localhost = 2130706433

abbrev pub to_packet : Datagram → Packet
to_packet p = record { uid = p.message.uid; size = length p.message.bytes; deferred = p.deferred }

-- `IsMyOwnAddress`
unfoldable pub is_my_own_address : List Interface → ℕ → Bool
is_my_own_address [] src = false
is_my_own_address (i ∷ is) src = if src == i.local then true else is_my_own_address is src

-- The loop of `LoopbackRoute`: the local address of the first interface on the device. The source of
-- a new route is the unset address.
unfoldable pub address_on : List Interface → ℕ → ℕ
address_on [] oif = unset_source
address_on (i ∷ is) oif = if i.device == oif then i.local else address_on is oif

-- The source without a device: that of the first socket, `none` if there is no socket.
abbrev pub loopback_source : List Interface → Option ℕ → Option ℕ
loopback_source is (some oif) = some (address_on is oif)
loopback_source [] none = none
loopback_source (i ∷ is) none = some i.local

-- `LoopbackRoute`. `none` is a failed assertion, or a read of an element that is not there.
unfoldable pub loopback_route : List Interface → ℕ → Ipv4Header → Option ℕ → Option IpRoute
loopback_route is lo header oif = elim (loopback_source is oif) [
  | none ↦ none
  | some source ↦
      if source == unset_source
      then none
      else some (record {
        destination = header.destination;
        source = source;
        gateway = localhost;
        device = lo;
      })
]

module _ (env : Env) where
  open env use {host, wire, evp, platform}
  open host use {double, distance, end_neighbor, end_position}

  module _ (ip : Ip) (n : Node env) (header : Ipv4Header) (oif : Option ℕ) where
    -- The return of a loopback route for the packet.
    unfoldable pub loop_back : Option Datagram → Node env → Option SocketErrno → Option (Lookup env)
    loop_back p n' error = elim (loopback_route n.sockets ip.loopback header oif) [
      | none ↦ none
      | some route ↦ some (record { node = n'; datagram = p; route = some route; error = error })
    ]

    abbrev pub tagged : Datagram → Datagram
    tagged p = record p { deferred = true }

    -- `oif != 0 && route->GetOutputDevice () != oif`
    abbrev pub is_other_device : Option ℕ → ℕ → Bool
    is_other_device none device = false
    is_other_device (some d) device = not (device == d)

    -- The end of `RouteOutput`, where a next hop is sought: `own_best` is the best neighbour of the
    -- first search, `hop` the next hop.
    unfoldable pub via_neighbor : Datagram → Moment double.F → Option (Lookup env)
    unfolding loop_back
    via_neighbor p m =
        let dst = header.destination in
        let dst_pos = get_position double end_position n.router.nodes_position dst in
        let (own_best, t) =
          best_neighbor double end_neighbor distance n.router.neighbors dst_pos m.position
            m.velocity m.now in
        let n1 : Node env = record n { router = record n.router { neighbors = t } } in
        let (hop, t') = next_hop host t dst dst_pos m in
        let n2 : Node env = record n { router = record n.router { neighbors = t' } } in
        if own_best == m.address
        then loop_back (some (tagged p)) n1 (some error_noterror)
        else if not (hop == 0)
        then (if is_other_device oif ip.device
            then some (record {
              node = n2;
              datagram = some p;
              route = none;
              error = some error_noroutetohost;
            })
            else some (record {
              node = n2;
              datagram = some p;
              route = some (record {
                destination = dst;
                source = source_of m.address header;
                gateway = hop;
                device = ip.device;
              });
              error = some error_noterror;
            }))
        else loop_back (some (tagged p)) n2 (some error_noterror)

    -- `RouteOutput` behind the encryption.
    unfoldable pub find_route : Option Datagram → Moment double.F → Option (Lookup env)
    unfolding loop_back
    find_route none m = loop_back none n none
    find_route (some p) m =
        let dst = header.destination in
        let ground_route : IpRoute = record {
          destination = dst;
          source = ip.ground_link.local;
          gateway = dst;
          device = ip.ground_link.device;
        } in
        let to_ground : Lookup env = record {
          node = n;
          datagram = some p;
          route = some ground_route;
          error = some error_noterror;
        } in
        let failed : Lookup env = record {
          node = n;
          datagram = some p;
          route = none;
          error = some error_noroutetohost;
        } in
        elim n.sockets [
          | [] ↦ some failed
          | i ∷ is ↦
              if dst == ip.broadcast
              then loop_back (some p) n (some error_noterror)
              else if dst == ground_station_address && n.security_state
              then some to_ground
              else if ip.ground_link.local == ground_station_address
                  && (n.security_state && not (dst == ip.ground_link.broadcast))
              then some to_ground
              else via_neighbor p m
        ]

    -- The encryption of a node in secure mode, which reads the packet. A new packet has no tag.
    unfoldable pub secure_output : ℕ → Option Datagram → Moment double.F → Option (Option Datagram)
    secure_output assigned none m = if n.security_state then none else some none
    secure_output assigned (some p) m =
        let sealed =
          secure wire evp platform n.shared_key m.address header.destination assigned p.message in
        if n.security_state
        then elim sealed [
          | none ↦ none
          | some (message, is_new) ↦
              some (some (record { message = message; deferred = not is_new && p.deferred }))
        ]
        else some (some p)

    -- `RouteOutput`
    unfoldable pub route_output : ℕ → Option Datagram → Moment double.F → Option (Lookup env)
    unfolding secure_output find_route
    route_output assigned p m = elim (secure_output assigned p m) [
      | none ↦ none
      | some p' ↦ find_route p' m
    ]

  -- `RouteInput` on the interface `iif`. The check of an encrypted data packet before its local
  -- delivery is only logged.
  unfoldable pub route_input :
      Ip → Node env → Datagram → Ipv4Header → ℕ → ℕ → ℕ → Moment double.F → Option (Handled env)
  route_input ip n0 p header iif ucb ecb m =
      let n : Node env = record n0 {
        aad_to_be_checked = aad_of platform header.source header.destination;
      } in
      let copy = to_packet (record p { deferred = false }) in
      let queued = deferred_route_output n.router copy header ucb ecb m.now in
      let forwarded = forwarding host n.router (to_packet p) header ucb ecb m in
      let ignored : Handled env = record {
        accepted = false;
        node = n;
        delivered = [];
        sent = [];
        dropped = [];
      } in
      elim n.sockets [
        | [] ↦ some ignored
        | i ∷ is ↦
            if p.deferred && is_my_own_address n.sockets header.source
            then elim queued [
              | none ↦ none
              | some (r, dropped) ↦ some (record {
                accepted = true;
                node = record n { router = r };
                delivered = [];
                sent = [];
                dropped = dropped;
              })
            ]
            else if ip.is_destination header.destination iif
            then some (record ignored { accepted = true; delivered = p ∷ [] })
            else elim forwarded [
              | none ↦ none
              | some (r, sent, dropped) ↦ some (record {
                accepted = true;
                node = record n { router = r };
                delivered = [];
                sent = sent;
                dropped = dropped;
              })
            ]
      ]
