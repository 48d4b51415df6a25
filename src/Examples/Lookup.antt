-- ===== src/Examples/Lookup.antt =====
-- Route lookups at the nodes of Examples/Nodes, out of secure mode.
use saero_rp.Prelude.{◌≡◌, ◌+◌, refl, true, false, none, some, [], ◌∷◌, ◌==◌, arith}
use saero_rp.StdList
use saero_rp.StdMap
use saero_rp.Positions
use saero_rp.Neighbor
use saero_rp.StdList.{member}
use saero_rp.Neighbor.{
  is_neighbour, best_neighbor, choose, scan, consider, purge, is_expired,
  calculate_time_to_intercept, calculate_relative_speed,
}
use saero_rp.PacketQueue.{Ipv4Header}
use saero_rp.Routing.{next_hop}
use saero_rp.Routing.Deferral.{IsTracked, Waits}
use saero_rp.Node.{Node, unauth}
use saero_rp.Lookup.{
  Ip, Datagram, IpRoute, Lookup, Handled, secure_output, find_route, via_neighbor, loop_back,
  loopback_route, route_output, route_input, error_noterror, localhost, to_packet,
}
use saero_rp.Lookup.Deferred.{unroutable-IsTracked}
use saero_rp.Lookup.Unicast.{IsNextHop, route_output-IsNextHop}
use saero_rp.Examples.Routes.{header, tracked, moment}
use saero_rp.Examples.Nodes.{env, node, words-IsOrderedDouble}

abbrev ip : Ip
ip = record {
  broadcast = 255;
  device = 1;
  ground_link = record { local = 6; mask = 4294967040; broadcast = 254; device = 2 };
  loopback = 0;
  is_destination = λ dst iif. dst == 4;
}

abbrev datagram : Datagram
datagram = record { message = record { uid = 20; bytes = 1 ∷ 2 ∷ [] }; deferred = false }

abbrev open_node : Node env
open_node = record (node unauth) { security_state = false }

abbrev alone : Node env
alone = record open_node {
  router = record open_node.router { neighbors = record open_node.router.neighbors { table = [] } };
}

abbrev looped : IpRoute
looped = record { destination = 9; source = 4; gateway = localhost; device = 0 }

abbrev found : Lookup env
found = record {
  node = alone;
  datagram = some (record datagram { deferred = true });
  route = some looped;
  error = some error_noterror;
}

loops : route_output env ip alone (header 9) none 0 (some datagram) moment ≡ some found
unfolding route_output secure_output find_route via_neighbor loop_back loopback_route next_hop
    is_neighbour best_neighbor choose scan consider purge is_expired calculate_time_to_intercept
    calculate_relative_speed StdMap.find
loops = refl

abbrev direct : IpRoute
direct = record { destination = 7; source = 3; gateway = 7; device = 1 }

abbrev near : Lookup env
near = record {
  node = open_node;
  datagram = some datagram;
  route = some direct;
  error = some error_noterror;
}

sends : route_output env ip open_node (header 7) none 0 (some datagram) moment ≡ some near
unfolding route_output secure_output find_route via_neighbor loop_back loopback_route next_hop
    is_neighbour best_neighbor choose scan consider purge is_expired calculate_time_to_intercept
    calculate_relative_speed StdList.erase_all StdList.unique StdList.collect
    Neighbor.get_entry_update_time StdMap.find Positions.get_position
sends = refl

alone-IsTracked : IsTracked alone.router
alone-IsTracked = record {
  room = tracked.room;
  bound = tracked.bound;
  tracked = tracked.tracked;
  running = tracked.running;
}

abbrev looped_header : Ipv4Header
looped_header = record { source = 4; destination = 9 }

unroutable-IsTracked_example :
    (p' : Datagram) × (handled : Handled env) × (some (record datagram { deferred = true })
      ≡ some p')
    × (route_input env ip alone p' looped_header 1 1 2 moment ≡ some handled)
    × (handled.accepted ≡ true)
    × (handled.delivered ≡ [])
    × (handled.sent ≡ [])
    × IsTracked handled.node.router
    × (member 9 handled.node.router.queued_addresses ≡ true)
    × Waits handled.node.router.queue (record {
      packet = to_packet (record p' { deferred = false });
      header = looped_header;
      ucb = 1;
      ecb = 2;
      expire = alone.router.queue.queue_timeout + moment.now;
    })
unroutable-IsTracked_example =
    unroutable-IsTracked env ip (header 9) none alone 0 datagram moment moment found looped
      looped_header 1 1 2 (λ e. omega arith) (λ e. omega arith) (λ e. omega arith) loops refl refl
      refl alone-IsTracked

route_output-IsNextHop_example :
    IsNextHop env words-IsOrderedDouble ip (header 7) none moment near direct
route_output-IsNextHop_example =
    route_output-IsNextHop env words-IsOrderedDouble ip (header 7) none open_node 0 datagram moment
      near direct tt (λ t e. omega arith) (λ e. omega arith) (λ e. omega arith) sends refl refl
