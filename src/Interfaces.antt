-- ===== src/Interfaces.antt =====
-- The sockets of the routing protocol as the interfaces of its node change:
-- aerorp-routing-protocol.cc. The map from sockets to addresses is in the order of the sockets'
-- pointers, which are numbers; a new socket's pointer is an argument.
pub mod Closing
pub mod Adding
use saero_rp.Prelude.{
  ℕ, Bool, true, false, not, Option, none, some, List, [], ◌∷◌, ◌++◌, ◌==◌, ltb, if◌then◌else◌,
}
use saero_rp.StdMap.{erase, insert}
use saero_rp.Neighbor
use saero_rp.Neighbor.{NeighborTable}
use saero_rp.Positions
use saero_rp.Positions.{NodesPositionTable}
use saero_rp.Routing.{Host}
use saero_rp.Node.{Interface}

-- What the protocol asks of `Ipv4L3Protocol`: of an interface the number of its addresses, its
-- first address, and whether it is up; and the equality of `Ipv4InterfaceAddress`.
pub record Ipv4 : Type 0 where
  pub n_addresses : ℕ → ℕ
  pub address : ℕ → Interface
  pub is_up : ℕ → Bool
  pub same : Interface → Interface → Bool

-- The members that the four methods change.
pub record Sockets (F : Type 0) : Type 0 where
  pub socket_addresses : List (ℕ × Interface)
  pub auth_socket_addresses : List (ℕ × Interface)
  pub neighbors : NeighborTable F
  pub nodes_position : NodesPositionTable F

-- What is done to other objects: a socket that is made and bound to the port, for the device or for
-- any, with leave to broadcast or without it; one that is closed; and `Clear` of the ground
-- station.
pub data Effect : Type 0 where
  open_socket : (socket : ℕ) → (device : Option ℕ) → (broadcast : Bool) → Effect
  close_socket : ℕ → Effect
  clear_ground_station : Effect

-- The address 127.0.0.1
abbrev pub loopback : ℕ
loopback = 2130706433

-- `FindSocketWithInterfaceAddress`, which looks at `m_socketAddresses` only.
unfoldable pub find_socket : Ipv4 → List (ℕ × Interface) → Interface → Option ℕ
find_socket l3 [] a = none
find_socket l3 ((socket, i) ∷ m) a =
    let rest = find_socket l3 m a in if l3.same i a then some socket else rest

unfoldable pub notify_interface_up :
    {F : Type 0} → Ipv4 → Sockets F → ℕ → ℕ → Sockets F × List Effect
notify_interface_up l3 s interface socket =
    let i = l3.address interface in
    if i.local == loopback
    then (s, [])
    else if interface == 1
    then (
      record s { socket_addresses = insert socket i s.socket_addresses },
      open_socket socket (some i.device) true ∷ [],
    )
    else if interface == 2
    then (
      record s { auth_socket_addresses = insert socket i s.auth_socket_addresses },
      open_socket socket (some i.device) false ∷ [],
    )
    else (s, [])

-- A comparison as the number that it is converted to.
abbrev pub as_number : Bool → ℕ
as_number true = 1
as_number false = 0

-- The first part of `NotifyAddAddress`, for the data sockets: whether the method returns, the state
-- and the effects. The number of addresses is asked of the interface `(interface) == 1`.
unfoldable pub add_data : {F : Type 0} → Ipv4 → Sockets F → ℕ → ℕ → Bool × Sockets F × List Effect
unfolding find_socket
add_data {F = F} l3 s interface socket =
    let i = l3.address interface in
    let opened : Bool × Sockets F × List Effect = if i.local == loopback then (true, s, []) else (
      false,
      record s { socket_addresses = insert socket i s.socket_addresses },
      open_socket socket (some i.device) true ∷ [],
    ) in
    if ltb 0 (l3.n_addresses (as_number (interface == 1)))
    then elim (find_socket l3 s.socket_addresses i) [ none ↦ opened | some k ↦ (false, s, []) ]
    else (false, s, [])

-- The second part, for the sockets of the authentication. The number of addresses is asked of
-- the interface `(interface) == 2`.
unfoldable pub add_auth : {F : Type 0} → Ipv4 → Sockets F → ℕ → ℕ → Sockets F × List Effect
unfolding find_socket
add_auth {F = F} l3 s interface socket =
    let i = l3.address interface in
    let opened : Sockets F × List Effect = if i.local == loopback then (s, []) else (
      record s { auth_socket_addresses = insert socket i s.auth_socket_addresses },
      open_socket socket (some i.device) false ∷ [],
    ) in
    if ltb 0 (l3.n_addresses (as_number (interface == 2)))
    then elim (find_socket l3 s.socket_addresses i) [ none ↦ opened | some k ↦ (s, []) ]
    else (s, [])

-- `NotifyAddAddress`, with the pointers of the sockets that its parts make.
unfoldable pub notify_add_address :
    {F : Type 0} → Ipv4 → Sockets F → ℕ → ℕ → ℕ → Sockets F × List Effect
unfolding add_data add_auth
notify_add_address l3 s interface socket auth_socket =
    let (returns, s1, e1) = add_data l3 s interface socket in
    let (s2, e2) = add_auth l3 s1 interface auth_socket in
    if not (l3.is_up interface) then (s, []) else if returns then (s1, e1) else (s2, e1 ++ e2)

module _ (host : Host) where
  -- `none` is the failed assertion that there is a socket.
  unfoldable pub notify_interface_down :
      Ipv4 → Sockets host.double.F → ℕ → Option (Sockets host.double.F × List Effect)
  unfolding find_socket
  notify_interface_down l3 s interface =
      elim (find_socket l3 s.socket_addresses (l3.address interface)) [
        | none ↦ none
        | some socket ↦
            let left = erase socket s.socket_addresses in
            elim left [
              | [] ↦ some (
                record s {
                  socket_addresses = [];
                  neighbors = Neighbor.clear host.end_neighbor s.neighbors;
                  nodes_position = Positions.clear host.end_position s.nodes_position;
                },
                close_socket socket ∷ clear_ground_station ∷ [],
              )
              | e ∷ es ↦ some (record s { socket_addresses = e ∷ es }, close_socket socket ∷ [])
            ]
      ]

  -- `NotifyRemoveAddress`. The socket of the address is not closed.
  unfoldable pub notify_remove_address :
      Ipv4 → Sockets host.double.F → ℕ → Interface → ℕ → Sockets host.double.F × List Effect
  unfolding find_socket
  notify_remove_address l3 s interface address socket =
      elim (find_socket l3 s.socket_addresses address) [
        | none ↦ (s, [])
        | some k ↦
            let left = erase k s.socket_addresses in
            let i = l3.address interface in
            if ltb 0 (l3.n_addresses interface)
            then (
              record s { socket_addresses = insert socket i left },
              open_socket socket none true ∷ [],
            )
            else elim left [
              | [] ↦ (
                record s {
                  socket_addresses = [];
                  neighbors = Neighbor.clear host.end_neighbor s.neighbors;
                },
                clear_ground_station ∷ [],
              )
              | e ∷ es ↦ (record s { socket_addresses = e ∷ es }, [])
            ]
      ]
