-- ===== src/Beacon/Ground.antt =====
-- The packets of `SendGroundStationPackets` at `RecvAERORP`, of aerorp-routing-protocol.cc.
use saero_rp.Prelude.{
  ℕ, ◌^◌, ◌<◌, ◌≡◌, refl, Bool, Option, none, some, List, [], ◌∷◌, ◌==◌, if◌then◌else◌, arith,
  Bool-cases, ==_iff, subst, inl, inr, append-nil, All,
}
use saero_rp.Double.{Vector}
use saero_rp.StdList.{member}
use saero_rp.StdMap.{find, IsOrdered}
use saero_rp.Wire.{IsWire}
use saero_rp.Positions.Laws.{find-add_entry_position}
use saero_rp.Node.{Env, Node, Interface}
use saero_rp.Packet.TypeTag.{gs_geolocation}
use saero_rp.Packet.GsGeoLocation
use saero_rp.Packet.GsGeoLocation.{GsGeoLocationHeader, deserialize-serialize_gs_geolocation}
use saero_rp.Reception.{recv, recv_type, recv_gs, update_route_to_nodes}
use saero_rp.Reception.Gate.{recv-typed}
use saero_rp.Reception.Delivery.{Listens}
use saero_rp.Beacon.{Broadcast, GroundStation, gs_header, gs_packet, send_ground_station_packets}

module _ (env : Env) where
  open env use {host}
  open host use {double, end_position}

  -- The reception of packets one after another, with the same number and at the same time.
  abbrev pub recv_all : Node env → ℕ → ℕ → ℕ → List Broadcast → Option (Node env)
  recv_all n sender uid now [] = some n
  recv_all n sender uid now (b ∷ bs) =
      elim (recv env n sender (record { uid = uid; bytes = b.bytes }) now) [
        | none ↦ none
        | some (n', replies) ↦ recv_all n' sender uid now bs
      ]

  -- A position through `uint32_t`.
  abbrev pub converted : Vector double.F → Vector double.F
  converted p = record {
    x = double.of_u32 (double.to_u32 p.x);
    y = double.of_u32 (double.to_u32 p.y);
    z = double.of_u32 (double.to_u32 p.z);
  }

module _ (env : Env) (laws : IsWire env.wire) where
  open env use {wire, host}
  open host use {double, end_position}

  recv-gs_packet :
      (n : Node env) (sender uid now node : ℕ) (p v : Vector double.F)
      → Listens env n
      → GsGeoLocation.IsInRange (gs_header env node p v)
      → recv env n sender (record { uid = uid; bytes = gs_packet env node p v }) now
        ≡ some (recv_gs env n (gs_header env node p v) now, [])
  unfolding recv_type
  recv-gs_packet n sender uid now node p v listens r =
      let h = gs_header env node p v in
      let back = (deserialize-serialize_gs_geolocation wire laws h [] r).1 in
      ground (
        arith,
        recv-typed env laws n sender uid now gs_geolocation (GsGeoLocation.serialize wire h),
        back,
        append-nil (GsGeoLocation.serialize wire h),
      )

  -- A ground station with one socket sends the positions of the nodes of a list, with addresses of
  -- 32 bits. A node that receives these packets in order, and is not in secure mode or is
  -- authenticated, then has in its position table, for each address of the list, the position that
  -- the ground station knows (the faulted one under attack), converted to `uint32_t` and back, with
  -- the current time; what it has for other addresses is unchanged, and the table stays in key
  -- order.
  pub ground_positions-find :
      ((x : double.F) → double.to_u32 x < 2 ^ 32)
      → (g n : Node env) (i : Interface) (attack : Bool) (god : GroundStation double.F)
        (nodes : List ℕ) (sender uid now : ℕ)
      → g.sockets ≡ i ∷ []
      → All (λ a. a < 2 ^ 32) nodes
      → Listens env n
      → IsOrdered n.router.nodes_position.table
      → (n' : Node env) × (recv_all env n sender uid now
            (send_ground_station_packets env g attack god nodes)
          ≡ some n')
        × IsOrdered n'.router.nodes_position.table
        × ((a : ℕ)
            → find a n'.router.nodes_position.table ≡ (
                if member a nodes
                then some (
                  converted env (if attack then god.get_faulted_position a else god.get_position a),
                  now,
                )
                else find a n.router.nodes_position.table))
  unfolding send_ground_station_packets recv_gs update_route_to_nodes
  ground_positions-find fits g n i attack god [] sender uid now one small listens o =
      (n, refl, o, λ a. refl)
  ground_positions-find fits g n i attack god (node ∷ nodes) sender uid now one small listens o =
      let position = if attack then god.get_faulted_position node else god.get_position node in
      let velocity = if attack then god.get_faulted_velocity node else god.get_velocity node in
      let range : GsGeoLocation.IsInRange (gs_header env node position velocity) = record {
        node_range = small.0;
        xcoordinate_range = fits _;
        ycoordinate_range = fits _;
        zcoordinate_range = fits _;
        xvelocity_range = fits _;
        yvelocity_range = fits _;
        zvelocity_range = fits _;
        start_time_range = omega arith;
        end_time_range = omega arith;
      } in
      let taken = recv-gs_packet n sender uid now node position velocity listens range in
      let n1 = recv_gs env n (gs_header env node position velocity) now in
      let added = find-add_entry_position end_position n.router.nodes_position node in
      let seen = converted env position in
      let (n', received, order, found) =
        ground_positions-find fits g n1 i attack god nodes sender uid now one small.1 listens
          (added 0 seen now o).0 in
      (
        n',
        ground (arith, one, taken, received),
        order,
        λ a. elim (Bool-cases (node == a)) [
          | inl same ↦
              let e : node ≡ a = (==_iff node a).0 same in
              let own : find node n'.router.nodes_position.table ≡ some (seen, now) =
                ground (arith, found node, (added node seen now o).1) in
              let its =
                subst
                  (λ b.
                    find b n'.router.nodes_position.table
                    ≡ some (
                      converted env
                          (if attack then god.get_faulted_position b else god.get_position b),
                      now,
                    ))
                  e own in
              ground (arith, same, its)
          | inr other ↦ ground (arith, other, found a, (added a seen now o).1)
        ],
      )
