-- ===== src/Interfaces/Adding.antt =====
-- An address of aerorp-routing-protocol.cc that is added to an interface and removed again.
use saero_rp.Prelude.{
  ℕ, ◌<◌, ◌≡◌, refl, ap, sym, subst, All, ◌∙◌, Bool, true, false, none, some, List, [], ◌∷◌, ◌==◌,
  ltb, arith,
}
use saero_rp.StdMap.{find, insert}
use saero_rp.Neighbor
use saero_rp.Node.{Interface}
use saero_rp.Routing.{Host}
use saero_rp.Interfaces.{
  Ipv4, Sockets, Effect, open_socket, clear_ground_station, loopback, as_number, find_socket,
  add_data, add_auth, notify_add_address, notify_remove_address,
}
use saero_rp.Interfaces.Closing.{IsFree, find_socket_free, find_socket-insert, erase-insert}

-- Interfaces 0 and 1 have addresses.
abbrev pub HasAddresses : Ipv4 → Type 0
HasAddresses l3 = (0 < l3.n_addresses 0) × (0 < l3.n_addresses 1)

counted : (l3 : Ipv4) (b : Bool) → HasAddresses l3 → ltb 0 (l3.n_addresses (as_number b)) ≡ true
counted l3 true h = ground (arith, h)
counted l3 false h = ground (arith, h)

module _ (host : Host) (l3 : Ipv4) (s : Sockets host.double.F) where
  add_data-added :
      (interface socket : ℕ)
      → let a = l3.address interface in
        HasAddresses l3
        → (a.local == loopback) ≡ false
        → find_socket l3 s.socket_addresses a ≡ none
        → add_data l3 s interface socket ≡ (
          false,
          record s { socket_addresses = insert socket a s.socket_addresses },
          open_socket socket (some a.device) true ∷ [],
        )
  unfolding add_data
  add_data-added interface socket h other new =
      ground (arith, counted l3 (interface == 1) h, other, new)

  add_auth-found :
      (t : Sockets host.double.F) (interface socket k : ℕ)
      → HasAddresses l3
      → find_socket l3 t.socket_addresses (l3.address interface) ≡ some k
      → add_auth l3 t interface socket ≡ (t, [])
  unfolding add_auth
  add_auth-found t interface socket k h found = ground (arith, counted l3 (interface == 2) h, found)

  add_address-added :
      (interface socket auth_socket : ℕ)
      → let a = l3.address interface in
        HasAddresses l3
        → l3.is_up interface ≡ true
        → (a.local == loopback) ≡ false
        → l3.same a a ≡ true
        → IsFree l3 s.socket_addresses a
        → find socket s.socket_addresses ≡ none
        → notify_add_address l3 s interface socket auth_socket ≡ (
          record s { socket_addresses = insert socket a s.socket_addresses },
          open_socket socket (some a.device) true ∷ [],
        )
  unfolding notify_add_address
  add_address-added interface socket auth_socket h up other reflexive free new =
      let a = l3.address interface in
      let t : Sockets host.double.F = record s {
        socket_addresses = insert socket a s.socket_addresses;
      } in
      let first =
        add_data-added interface socket h other (find_socket_free l3 s.socket_addresses a free) in
      let there = find_socket-insert l3 socket a s.socket_addresses new reflexive free in
      ground (arith, up, first, add_auth-found t interface auth_socket socket h there)

  -- What removing the only socket, or one of several, leaves.
  abbrev pub removed : Sockets host.double.F × List Effect
  removed = elim s.socket_addresses [
    | [] ↦ (
      record s { neighbors = Neighbor.clear host.end_neighbor s.neighbors },
      clear_ground_station ∷ [],
    )
    | e ∷ es ↦ (s, [])
  ]

  remove-removed :
      (after : Ipv4) (interface socket other : ℕ) (a : Interface) (m : List (ℕ × Interface))
      → s.socket_addresses ≡ m
      → after.n_addresses interface ≡ 0
      → after.same a a ≡ true
      → IsFree after m a
      → find socket m ≡ none
      → notify_remove_address host after
          (record s { socket_addresses = insert socket a m })
          interface
          a
          other
        ≡ removed
  unfolding notify_remove_address
  remove-removed after interface socket other a [] e gone reflexive free new = ground (
    arith,
    e,
    gone,
    find_socket-insert after socket a [] new reflexive free,
    erase-insert socket a [] new,
  )
  remove-removed after interface socket other a (x ∷ xs) e gone reflexive free new = ground (
    arith,
    e,
    gone,
    find_socket-insert after socket a (x ∷ xs) new reflexive free,
    erase-insert socket a (x ∷ xs) new,
  )

  -- An address that is not the loopback's and that no data socket has is added to an interface that
  -- is up, while interfaces 0 and 1 have addresses, and is removed when the interface has no other.
  -- Whatever the interface, that of the authentication included, adding makes a data socket for it
  -- and no socket for the authentication. After removing it the sockets are as before, but the
  -- socket was not closed; the neighbours and the ground station are cleared exactly if no socket is
  -- left, and the positions are not.
  pub add-remove :
      (after : Ipv4) (interface socket auth_socket other : ℕ)
      → let a = l3.address interface in
        HasAddresses l3
        → l3.is_up interface ≡ true
        → (a.local == loopback) ≡ false
        → l3.same a a ≡ true
        → IsFree l3 s.socket_addresses a
        → find socket s.socket_addresses ≡ none
        → after.n_addresses interface ≡ 0
        → after.same ≡ l3.same
        → let (t, opened) = notify_add_address l3 s interface socket auth_socket in
          (opened ≡ open_socket socket (some a.device) true ∷ [])
          × (t.socket_addresses ≡ insert socket a s.socket_addresses)
          × (t.auth_socket_addresses ≡ s.auth_socket_addresses)
          × (notify_remove_address host after t interface a other ≡ removed)
  add-remove after interface socket auth_socket other h up not_loop reflexive free new gone same =
      let a = l3.address interface in
      let add = add_address-added interface socket auth_socket h up not_loop reflexive free new in
      let reflexive' : after.same a a ≡ true = ap (λ f. f a a) same ∙ reflexive in
      let free' : IsFree after s.socket_addresses a =
        subst (λ f. All (λ (e : ℕ × Interface). f e.1 a ≡ false) s.socket_addresses) (sym same)
          free in
      let remove =
        remove-removed after interface socket other a s.socket_addresses refl gone reflexive' free'
          new in
      (
        ap (λ r. r.1) add,
        ap (λ r. r.0.socket_addresses) add,
        ap (λ r. r.0.auth_socket_addresses) add,
        ap (λ r. notify_remove_address host after r.0 interface a other) add ∙ remove,
      )
