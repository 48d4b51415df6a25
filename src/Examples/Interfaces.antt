-- ===== src/Examples/Interfaces.antt =====
-- A node with the loopback interface 0, the data interface 1 and the interface 2 of the
-- authentication.
use saero_rp.Prelude.{
  ℕ, ◌+◌, ◌≡◌, refl, Bool, true, ◌&&◌, some, [], ◌∷◌, ◌==◌, if◌then◌else◌, arith,
}
use saero_rp.Prelude.Int.{ℤ}
use saero_rp.StdMap.{insert, find}
use saero_rp.Neighbor
use saero_rp.Positions
use saero_rp.Node.{Interface}
use saero_rp.Interfaces.{
  Ipv4, Sockets, open_socket, close_socket, clear_ground_station, loopback, notify_interface_up,
  notify_interface_down, notify_add_address, notify_remove_address,
}
use saero_rp.Interfaces.Closing.{up-down}
use saero_rp.Interfaces.Adding.{add-remove}
use saero_rp.Examples.Routes.{host, router}

abbrev address : ℕ → Interface
address n = record {
  local = if n == 0 then loopback else 167772160 + n;
  mask = 4294967040;
  broadcast = 167772415;
  device = n;
}

abbrev same : Interface → Interface → Bool
same i j = i.local == j.local && i.mask == j.mask

abbrev l3 : Ipv4
l3 = record { n_addresses = λ n. 1; address = address; is_up = λ n. true; same = same }

abbrev l3_after : Ipv4
l3_after = record {
  n_addresses = λ n. if n == 2 then 0 else 1;
  address = address;
  is_up = λ n. true;
  same = same;
}

abbrev none_open : Sockets ℤ
none_open = record {
  socket_addresses = [];
  auth_socket_addresses = [];
  neighbors = router.neighbors;
  nodes_position = router.nodes_position;
}

-- The data interface, with the pointer 40 for its socket.
up-down_example :
    notify_interface_down host l3 (notify_interface_up l3 none_open 1 40).0 1
    ≡ some (
      record none_open {
        neighbors = Neighbor.clear host.end_neighbor router.neighbors;
        nodes_position = Positions.clear host.end_position router.nodes_position;
      },
      close_socket 40 ∷ clear_ground_station ∷ [],
    )
unfolding find
up-down_example = up-down host l3 none_open 1 40 refl refl tt refl

-- The interface of the authentication.
add-remove_example :
    let (t, opened) = notify_add_address l3 none_open 2 40 41 in
    (opened ≡ open_socket 40 (some 2) true ∷ [])
    × (t.socket_addresses ≡ insert 40 (address 2) [])
    × (t.auth_socket_addresses ≡ [])
    × (notify_remove_address host l3_after t 2 (address 2) 42 ≡ (
      record none_open { neighbors = Neighbor.clear host.end_neighbor router.neighbors },
      clear_ground_station ∷ [],
    ))
unfolding find
add-remove_example =
    add-remove host l3 none_open l3_after 2 40 41 42 (omega arith, omega arith) refl refl refl tt
      refl refl refl
