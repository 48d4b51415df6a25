-- ===== src/Interfaces/Closing.antt =====
-- An interface of aerorp-routing-protocol.cc that comes up and goes down again.
use saero_rp.Prelude.{
  ℕ, ◌≡◌, inl, inr, refl, ap, ◌∙◌, true, false, none, some, List, [], ◌∷◌, ◌==◌, if◌then◌else◌, All,
  arith, Bool-cases,
}
use saero_rp.StdMap.{find, erase, insert}
use saero_rp.Neighbor
use saero_rp.Positions
use saero_rp.Routing.{Host}
use saero_rp.Node.{Interface}
use saero_rp.Interfaces.{
  Ipv4, Sockets, Effect, close_socket, clear_ground_station, loopback, find_socket,
  notify_interface_up, notify_interface_down,
}

-- No socket of the map has an address equal to this one.
abbrev pub IsFree : Ipv4 → List (ℕ × Interface) → Interface → Type 0
IsFree l3 m a = All (λ (e : ℕ × Interface). l3.same e.1 a ≡ false) m

pub find_socket_free :
    (l3 : Ipv4) (m : List (ℕ × Interface)) (a : Interface)
    → IsFree l3 m a
    → find_socket l3 m a ≡ none
unfolding find_socket
find_socket_free l3 [] a h = refl
find_socket_free l3 ((k, i) ∷ m) a h = ground (arith, h.0, find_socket_free l3 m a h.1)

pub find_socket-insert :
    (l3 : Ipv4) (k : ℕ) (a : Interface) (m : List (ℕ × Interface))
    → find k m ≡ none
    → l3.same a a ≡ true
    → IsFree l3 m a
    → find_socket l3 (insert k a m) a ≡ some k
unfolding find_socket insert find
find_socket-insert l3 k a [] new s h = ground (arith, s)
find_socket-insert l3 k a ((j, i) ∷ m) new s h =
    ground (arith, new, s, h.0, find_socket-insert l3 k a m (ground (arith, new)) s h.1)

pub erase-insert :
    (k : ℕ) (a : Interface) (m : List (ℕ × Interface))
    → find k m ≡ none
    → erase k (insert k a m) ≡ m
unfolding erase insert find
erase-insert k a [] new = ground arith
erase-insert k a ((j, i) ∷ m) new = ground (arith, new, erase-insert k a m (ground (arith, new)))

module _ (host : Host) (l3 : Ipv4) (s : Sockets host.double.F) where
  -- What closing the last of the sockets, or one of several, leaves.
  abbrev pub closed : ℕ → Sockets host.double.F × List Effect
  closed socket = elim s.socket_addresses [
    | [] ↦ (
      record s {
        neighbors = Neighbor.clear host.end_neighbor s.neighbors;
        nodes_position = Positions.clear host.end_position s.nodes_position;
      },
      close_socket socket ∷ clear_ground_station ∷ [],
    )
    | e ∷ es ↦ (s, close_socket socket ∷ [])
  ]

  down-closed :
      (interface socket : ℕ) (m : List (ℕ × Interface))
      → s.socket_addresses ≡ m
      → let a = l3.address interface in
        l3.same a a ≡ true
        → IsFree l3 m a
        → find socket m ≡ none
        → notify_interface_down host l3
            (record s { socket_addresses = insert socket a m })
            interface
          ≡ some (closed socket)
  unfolding notify_interface_down
  down-closed interface socket [] e reflexive free new =
      let a = l3.address interface in
      ground (
        arith,
        e,
        find_socket-insert l3 socket a [] new reflexive free,
        erase-insert socket a [] new,
      )
  down-closed interface socket (x ∷ xs) e reflexive free new =
      let a = l3.address interface in
      ground (
        arith,
        e,
        find_socket-insert l3 socket a (x ∷ xs) new reflexive free,
        erase-insert socket a (x ∷ xs) new,
      )

  up-one :
      (interface socket : ℕ)
      → (interface == 1) ≡ true
      → let a = l3.address interface in
        (a.local == loopback) ≡ false
        → (notify_interface_up l3 s interface socket).0
          ≡ record s { socket_addresses = insert socket a s.socket_addresses }
  unfolding notify_interface_up
  up-one interface socket one other = ground (arith, one, other)

  -- An interface comes up with an address that is not the loopback's and that no data socket has,
  -- and goes down again. Interface 1 gets a data socket, which going down closes and removes, so
  -- that the sockets are as before; if there were none before, the neighbours, the positions and
  -- the ground station are cleared, and otherwise they stay as they are. For every other interface,
  -- interface 2 with its authentication socket included, going down fails its assertion.
  pub up-down :
      (interface socket : ℕ)
      → let a = l3.address interface in
        (a.local == loopback) ≡ false
        → l3.same a a ≡ true
        → IsFree l3 s.socket_addresses a
        → find socket s.socket_addresses ≡ none
        → notify_interface_down host l3 (notify_interface_up l3 s interface socket).0 interface
          ≡ (if interface == 1 then some (closed socket) else none)
  unfolding notify_interface_up notify_interface_down
  up-down interface socket other reflexive free new =
      let a = l3.address interface in
      elim (Bool-cases (interface == 1)) [
        | inl one ↦
            let down = down-closed interface socket s.socket_addresses refl reflexive free new in
            let closes : some (closed socket)
                ≡ (if interface == 1 then some (closed socket) else none) =
              rw one refl in
            ap (λ t. notify_interface_down host l3 t interface) (up-one interface socket one other)
            ∙ down
            ∙ closes
        | inr not_one ↦
            ground (arith, not_one, other, find_socket_free l3 s.socket_addresses a free)
      ]
