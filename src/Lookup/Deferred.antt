-- ===== src/Lookup/Deferred.antt =====
-- The way of a packet without a next hop: `RouteOutput` of aerorp-routing-protocol.cc sends it to the
-- loopback device, `RouteInput` puts it into the queue.
use saero_rp.Prelude.{
  ℕ, ◌+◌, ◌≡◌, ◌≢◌, refl, true, false, Option, none, some, List, [], ◌∷◌, ◌==◌, arith, Option-cases,
  Bool-cases, inl, inr,
}
use saero_rp.StdList.{member}
use saero_rp.PacketQueue.{Ipv4Header}
use saero_rp.Routing.{Moment, unset_source}
use saero_rp.Routing.Deferral.{
  IsTracked, Waits, deferred_route_output-IsTracked, deferred_route_output-Waits,
}
use saero_rp.Secure.{aad_of}
use saero_rp.Node.{Env, Node, Interface}
use saero_rp.Lookup.{
  Ip, Datagram, IpRoute, Lookup, Handled, is_my_own_address, address_on, loopback_route, loop_back,
  tagged, via_neighbor, find_route, secure_output, route_output, route_input, to_packet,
}

address_on-own :
    (is : List Interface) (oif : ℕ)
    → address_on is oif ≢ unset_source
    → is_my_own_address is (address_on is oif) ≡ true
unfolding address_on is_my_own_address
address_on-own [] oif h = absurd (h refl)
address_on-own (i ∷ is) oif h = elim (Bool-cases (i.device == oif)) [
  | inl here ↦ ground (arith, here)
  | inr there ↦
      let rest = address_on-own is oif (ground (arith, there)) in ground (arith, there, rest)
]

-- The source of a loopback route is an address of the node.
loopback_route-own :
    (is : List Interface) (lo : ℕ) (header : Ipv4Header) (oif : Option ℕ) (r : IpRoute)
    → loopback_route is lo header oif ≡ some r
    → (is_my_own_address is r.source ≡ true) × (r.device ≡ lo)
unfolding loopback_route is_my_own_address
loopback_route-own [] lo header none r e = absurd (ground arith)
loopback_route-own (i ∷ is) lo header none r e = (ground arith, ground arith)
loopback_route-own is lo header (some d) r e =
    let ne : address_on is d ≢ unset_source = λ q. ground arith in
    (ground (arith, address_on-own is d ne), ground arith)

module _ (env : Env) (ip : Ip) (header : Ipv4Header) (oif : Option ℕ) where
  open env use {host}
  open host use {double}

  -- What `RouteOutput` leaves as it was, and what it says of a loopback route.
  record IsLooped (n : Node env) (l : Lookup env) (r : IpRoute) : Type 0 where
    own : is_my_own_address n.sockets r.source ≡ true
    sockets : l.node.sockets ≡ n.sockets
    queue : l.node.router.queue ≡ n.router.queue
    addresses : l.node.router.queued_addresses ≡ n.router.queued_addresses
    timer : l.node.router.check_queue_timer ≡ n.router.check_queue_timer
    datagram : (p : Datagram) × (l.datagram ≡ some p) × (p.deferred ≡ true)

  via_neighbor-IsLooped :
      (n : Node env) (p : Datagram) (m : Moment double.F) (l : Lookup env) (r : IpRoute)
      → ip.device ≢ ip.loopback
      → via_neighbor env ip n header oif p m ≡ some l
      → l.route ≡ some r
      → r.device ≡ ip.loopback
      → IsLooped n l r
  unfolding via_neighbor loop_back
  via_neighbor-IsLooped n p m l r apart e to on_loop =
      elim (Option-cases (loopback_route n.sockets ip.loopback header oif)) [
        | inl failed ↦ absurd (ground arith)
        | inr (r', looped) ↦
            let own = loopback_route-own n.sockets ip.loopback header oif r' looped in
            record {
              own = ground (arith, own.0);
              sockets = ground arith;
              queue = ground arith;
              addresses = ground arith;
              timer = ground arith;
              datagram = (tagged env ip n header oif p, ground arith, refl);
            }
      ]

  route_output-IsLooped :
      (n : Node env) (assigned : ℕ) (p : Datagram) (m : Moment double.F) (l : Lookup env)
      (r : IpRoute)
      → ip.device ≢ ip.loopback
      → ip.ground_link.device ≢ ip.loopback
      → header.destination ≢ ip.broadcast
      → route_output env ip n header oif assigned (some p) m ≡ some l
      → l.route ≡ some r
      → r.device ≡ ip.loopback
      → IsLooped n l r
  unfolding route_output secure_output find_route
  route_output-IsLooped n assigned p m l r apart apart' single e to on_loop =
      elim (Option-cases (secure_output env ip n header oif assigned (some p) m)) [
        | inl failed ↦ absurd (ground arith)
        | inr (none, sealed) ↦ absurd (ground arith)
        | inr (some p', sealed) ↦
            let same : via_neighbor env ip n header oif p' m ≡ some l = ground arith in
            via_neighbor-IsLooped n p' m l r apart same to on_loop
      ]

  -- If `RouteOutput` gives a packet, not to the broadcast address, a route on the loopback device,
  -- then it tags it, and `RouteInput` of the tagged packet, with the route's source in its header,
  -- puts it into the queue at any time and on any interface: it accepts the packet, delivers and
  -- forwards nothing, and afterwards the last entry of the queue is the packet without its tag, with
  -- that header and those callbacks, which expires a queue timeout from then, or the queue has an
  -- entry with the packet's unique number and destination. The destination is on the list of
  -- addresses of queued packets, and the list and the timer of `CheckQueue` still cover the queue.
  -- The other two devices are not the loopback device.
  pub unroutable-IsTracked :
      (n : Node env) (assigned : ℕ) (p : Datagram) (m m' : Moment double.F) (l : Lookup env)
      (r : IpRoute) (header' : Ipv4Header) (iif ucb ecb : ℕ)
      → ip.device ≢ ip.loopback
      → ip.ground_link.device ≢ ip.loopback
      → header.destination ≢ ip.broadcast
      → route_output env ip n header oif assigned (some p) m ≡ some l
      → l.route ≡ some r
      → r.device ≡ ip.loopback
      → header'.source ≡ r.source
      → IsTracked n.router
      → (p' : Datagram) × (handled : Handled env) × (l.datagram ≡ some p')
        × (route_input env ip l.node p' header' iif ucb ecb m' ≡ some handled)
        × (handled.accepted ≡ true)
        × (handled.delivered ≡ [])
        × (handled.sent ≡ [])
        × IsTracked handled.node.router
        × (member header'.destination handled.node.router.queued_addresses ≡ true)
        × Waits handled.node.router.queue (record {
          packet = to_packet (record p' { deferred = false });
          header = header';
          ucb = ucb;
          ecb = ecb;
          expire = n.router.queue.queue_timeout + m'.now;
        })
  unfolding route_input is_my_own_address
  unroutable-IsTracked n assigned p m m' l r header' iif ucb ecb apart apart' single e to on_loop
        from tracked =
      let looped = route_output-IsLooped n assigned p m l r apart apart' single e to on_loop in
      let (p', same, tag) = looped.datagram in
      let tracked' : IsTracked l.node.router = record {
        room = ground (arith, looped.queue, tracked.room);
        bound = ground (arith, looped.queue, tracked.bound);
        tracked = λ d out. ground (arith, looped.queue, looped.addresses, tracked.tracked d);
        running = λ d out. ground (arith, looped.timer, looped.addresses, tracked.running d);
      } in
      let (router, dropped, queued, tracked'', listed) =
        deferred_route_output-IsTracked l.node.router (to_packet (record p' { deferred = false }))
          header' ucb ecb m'.now tracked' in
      let waits =
        deferred_route_output-Waits l.node.router router
          (to_packet (record p' { deferred = false })) header' ucb ecb m'.now dropped tracked'
          queued in
      (
        p',
        record {
          accepted = true;
          node = record l.node {
            router = router;
            aad_to_be_checked = aad_of env.platform header'.source header'.destination;
          };
          delivered = [];
          sent = [];
          dropped = dropped;
        },
        same,
        ground (arith, queued, tag, from, looped.own, looped.sockets),
        refl,
        refl,
        refl,
        tracked'',
        listed,
        ground (arith, waits, looped.queue),
      )
