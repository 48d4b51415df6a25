-- ===== src/Lookup/Unicast.antt =====
-- The next hops that `RouteOutput` of aerorp-routing-protocol.cc gives.
use saero_rp.Prelude.{
  ℕ, ◌≡◌, ◌≢◌, Option, none, some, ◌==◌, arith, Option-cases, Bool-cases, inl, inr, ◌⊎◌,
}
use saero_rp.Double.{IsOrderedDouble}
use saero_rp.StdMap.{find, IsOrdered}
use saero_rp.Neighbor.{is_neighbour, best_neighbor, purge, zero_address}
use saero_rp.Neighbor.Best.{best_neighbor-Choice}
use saero_rp.Neighbor
use saero_rp.Neighbor.Expiry.{find-purge}
use saero_rp.Neighbor.Reads.{is_neighbour_iff}
use saero_rp.Positions.{get_position}
use saero_rp.PacketQueue.{Ipv4Header}
use saero_rp.Routing.{Moment, next_hop, source_of}
use saero_rp.Node.{Env, Node}
use saero_rp.Lookup.{
  Ip, Datagram, IpRoute, Lookup, loopback_route, loop_back, via_neighbor, find_route, secure_output,
  route_output,
}
use saero_rp.Double.{Vector}
use saero_rp.Neighbor.{NeighborTable}

module _ (env : Env) (ordered : IsOrderedDouble env.host.double) where
  open env use {host}
  open host use {double, distance, end_neighbor, end_position}

  -- The best neighbour is 0.0.0.0, or in the table that the search leaves.
  best_neighbor-known :
      (t : NeighborTable double.F) (dst position velocity : Vector double.F) (now : ℕ)
      → IsOrdered t.table
      → let (r, t') = best_neighbor double end_neighbor distance t dst position velocity now in
        IsOrdered t'.table × ((r ≡ 0) ⊎ (find r t'.table ≢ none))
  best_neighbor-known t dst position velocity now o =
      let (same, choice) =
        best_neighbor-Choice double ordered end_neighbor distance t dst position velocity now o in
      (
        ground (arith, same, (find-purge end_neighbor t now 0 o).0),
        elim choice [
          | inl (zero_, rest, rest') ↦ inl zero_
          | inr (e, since, found, rest, rest', rest'') ↦ inr (λ q. ground (arith, found, q))
        ],
      )

  -- A next hop other than 0.0.0.0 is in the neighbour table that the search leaves.
  next_hop-known :
      (t : NeighborTable double.F) (dst : ℕ) (pos : Vector double.F) (m : Moment double.F)
      → IsOrdered t.table
      → dst ≢ (end_neighbor t.table).0
      → (next_hop host t dst pos m).0 ≢ 0
      → find (next_hop host t dst pos m).0 (next_hop host t dst pos m).1.table ≢ none
  unfolding next_hop
  next_hop-known t dst pos m o apart real = elim (Bool-cases (is_neighbour end_neighbor t dst)) [
    | inl near ↦
        let there = (is_neighbour_iff end_neighbor t dst apart).0 near in
        λ q. ground (arith, near, q)
    | inr far ↦ elim (best_neighbor-known t pos m.position m.velocity m.now o).1 [
      | inl lost ↦ absurd (ground (arith, far, lost))
      | inr there ↦ λ q. ground (arith, far, q)
    ]
  ]

  module _ (ip : Ip) (header : Ipv4Header) (oif : Option ℕ) where
    -- A route on the device of interface 1.
    pub record IsNextHop (m : Moment double.F) (l : Lookup env) (r : IpRoute) : Type 0 where
      known : find r.gateway l.node.router.neighbors.table ≢ none
      real : r.gateway ≢ 0
      destination : r.destination ≡ header.destination
      source : r.source ≡ source_of m.address header
      device : (oif ≡ none) ⊎ (oif ≡ some ip.device)

    via_neighbor-IsNextHop :
        (n : Node env) (p : Datagram) (m : Moment double.F) (l : Lookup env) (r : IpRoute)
        → IsOrdered n.router.neighbors.table
        → ((t : Neighbor.Table double.F) → header.destination ≢ (end_neighbor t).0)
        → ip.device ≢ ip.loopback
        → via_neighbor env ip n header oif p m ≡ some l
        → l.route ≡ some r
        → r.device ≡ ip.device
        → IsNextHop m l r
    unfolding via_neighbor loop_back loopback_route
    via_neighbor-IsNextHop n p m l r o past apart e to on_air =
        let dst = header.destination in
        let pos = get_position double end_position n.router.nodes_position dst in
        let t =
          (best_neighbor double end_neighbor distance n.router.neighbors pos m.position m.velocity
            m.now).1 in
        let order = (best_neighbor-known n.router.neighbors pos m.position m.velocity m.now o).0 in
        elim (Bool-cases ((next_hop host t dst pos m).0 == 0)) [
          | inl lost ↦ absurd (ground arith)
          | inr goes ↦
              let there = next_hop-known t dst pos m order (past t.table) (λ q. ground arith) in
              record {
                known = ground arith;
                real = ground arith;
                destination = ground arith;
                source = ground arith;
                device = elim (Option-cases oif) [
                  | inl any ↦ inl any
                  | inr (d, asked) ↦ inr (ground (arith, asked))
                ];
              }
        ]

    -- A route that `RouteOutput` gives on the device of interface 1 has as its gateway an address
    -- other than 0.0.0.0 that is in the neighbour table, after the purges of its searches; it goes to
    -- the packet's destination, from the header's source or, if that is unset, the node's own
    -- address, and the caller asked for no device or for this one. The table is in key order, the
    -- order of doubles is irreflexive and transitive, what an end iterator reads as is not the
    -- destination, and the loopback device and the device of interface 2 are others.
    pub route_output-IsNextHop :
        (n : Node env) (assigned : ℕ) (p : Datagram) (m : Moment double.F) (l : Lookup env)
        (r : IpRoute)
        → IsOrdered n.router.neighbors.table
        → ((t : Neighbor.Table double.F) → header.destination ≢ (end_neighbor t).0)
        → ip.device ≢ ip.loopback
        → ip.device ≢ ip.ground_link.device
        → route_output env ip n header oif assigned (some p) m ≡ some l
        → l.route ≡ some r
        → r.device ≡ ip.device
        → IsNextHop m l r
    unfolding route_output secure_output find_route loop_back loopback_route
    route_output-IsNextHop n assigned p m l r o past apart apart' e to on_air =
        elim (Option-cases (secure_output env ip n header oif assigned (some p) m)) [
          | inl failed ↦ absurd (ground arith)
          | inr (none, sealed) ↦ absurd (ground arith)
          | inr (some p', sealed) ↦
              let same : via_neighbor env ip n header oif p' m ≡ some l = ground arith in
              via_neighbor-IsNextHop n p' m l r o past apart same to on_air
        ]
