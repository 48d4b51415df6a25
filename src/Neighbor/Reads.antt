-- ===== src/Neighbor/Reads.antt =====
-- What the writes of aerorp-ntable.cc leave for its reads.
use saero_rp.Prelude.{
  ℕ, ◌≡◌, ◌≢◌, ◌↔◌, true, none, some, arith, ◌==◌, if◌then◌else◌, Option-cases, inl, inr,
}
use saero_rp.Double.{Double, Vector}
use saero_rp.StdMap.{
  find, erase, IsOrdered, find-insert, find-assign, insert-IsOrdered, erase-IsOrdered,
  find-insert-erase, assign, assign-IsOrdered,
}
use saero_rp.Neighbor.{
  NeighborTable, NeighborTableEntry, Table, zero_address, is_neighbour, get_entry_update_time,
  add_entry, update_entry, get_position, get_velocity,
}

module _ {F : Type 0} (end_node : Table F → ℕ × (NeighborTableEntry F × ℕ)) where
  -- `AddEntry` keeps the order of the map, stores the entry with the current time under its
  -- address whether the address was known or not, and leaves every other address as it was.
  pub find-add_entry :
      (t : NeighborTable F) (id i : ℕ) (p v : Vector F) (now : ℕ)
      → IsOrdered t.table
      → let t' = add_entry end_node t id p v now in
        IsOrdered t'.table
        × (find i t'.table ≡ (
            if id == i then some (record { position = p; velocity = v }, now) else find i t.table))
  unfolding add_entry
  find-add_entry t id i p v now o =
      let e : NeighborTableEntry F × ℕ = (record { position = p; velocity = v }, now) in
      ground (
        arith,
        find-insert-erase id i e t.table o,
        find-insert id i e t.table,
        insert-IsOrdered id e t.table o,
        insert-IsOrdered id e (erase id t.table) (erase-IsOrdered id t.table o),
      )

  -- `UpdateEntry`, at an address that differs from what the end iterator reads as, never writes
  -- through the end iterator. It stores the new position and velocity, keeps the time of an
  -- address that was known, gives a new address the current time, and changes no other address.
  pub find-update_entry :
      (t : NeighborTable F) (id i : ℕ) (p v : Vector F) (now : ℕ)
      → IsOrdered t.table
      → id ≢ (end_node t.table).0
      → (t' : NeighborTable F) × (update_entry end_node t id p v now ≡ some t')
        × IsOrdered t'.table
        × (find i t'.table ≡ (
            if id == i
            then some (
              record { position = p; velocity = v },
              elim (find id t.table) [ none ↦ now | some w ↦ w.1 ],
            )
            else find i t.table))
  unfolding update_entry
  find-update_entry t id i p v now o h = elim (Option-cases (find id t.table)) [
    | inl new ↦
        let (order, found) = find-add_entry t id i p v now o in
        (add_entry end_node t id p v now, ground arith, order, ground arith)
    | inr ((e, since), known) ↦
        let e' : NeighborTableEntry F = record { position = p; velocity = v } in
        (
          record t { table = assign id (e', since) t.table },
          ground arith,
          assign-IsOrdered id (e', since) t.table o,
          ground (arith, find-assign id i (e', since) (e, since) t.table known),
        )
  ]

  -- At an address that differs from what the end iterator reads as, `isNeighbour` answers true
  -- exactly when the map has an entry for the address.
  pub is_neighbour_iff :
      (t : NeighborTable F) (id : ℕ)
      → id ≢ (end_node t.table).0
      → (is_neighbour end_node t id ≡ true) ↔ (find id t.table ≢ none)
  unfolding is_neighbour
  is_neighbour_iff t id h = (λ e. ground arith, λ e. ground arith)

module _ (d : Double) (end_node : Table d.F → ℕ × (NeighborTableEntry d.F × ℕ)) where
  -- After `AddEntry` of an address other than 0.0.0.0, `GetPosition`, `GetVelocity` and
  -- `GetEntryUpdateTime` of that address return the position, the velocity and the time given,
  -- and `isNeighbour` answers true.
  pub get-add_entry :
      (t : NeighborTable d.F) (id : ℕ) (p v : Vector d.F) (now : ℕ)
      → IsOrdered t.table
      → id ≢ zero_address
      → let t' = add_entry end_node t id p v now in
        (get_position d end_node t' id ≡ p)
        × (get_velocity d end_node t' id ≡ v)
        × (get_entry_update_time end_node t' id ≡ now)
        × (is_neighbour end_node t' id ≡ true)
  unfolding get_position get_velocity get_entry_update_time is_neighbour
  get-add_entry t id p v now o h =
      let found = (find-add_entry end_node t id id p v now o).1 in
      (ground (arith, found), ground (arith, found), ground (arith, found), ground (arith, found))
