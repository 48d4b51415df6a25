-- ===== src/Neighbor/Expiry.antt =====
-- `Purge` of aerorp-ntable.cc removes exactly what is out of date.
use saero_rp.Prelude.{ℕ, ◌+◌, ◌≡◌, ◌≢◌, refl, none, some, [], ◌∷◌, arith, leb, ◌==◌, if◌then◌else◌}
use saero_rp.Double.{Vector}
use saero_rp.StdMap.{find, IsOrdered}
use saero_rp.StdList.{collect, find-erase_collected, unique, erase_all, erase_all-IsOrdered}
use saero_rp.Neighbor.{
  NeighborTable, NeighborTableEntry, Table, zero_address, get_entry_update_time, add_entry,
  is_expired, collect, purge,
}
use saero_rp.Neighbor.Reads.{find-add_entry}

module _ {F : Type 0} (end_node : Table F → ℕ × (NeighborTableEntry F × ℕ)) where
  purge-eq-erase_all :
      (t : NeighborTable F) (now : ℕ) (m : Table F)
      → t.table ≡ m
      → (purge end_node t now).table
        ≡ erase_all (unique (collect (is_expired end_node t now) [] m)) m
  unfolding purge collect unique erase_all
  purge-eq-erase_all t now [] e = ground arith
  purge-eq-erase_all t now (x ∷ m) e = ground arith

  -- `Purge` keeps the order of the map and removes an entry exactly when the life time after its
  -- time, which is 0 for the address 0.0.0.0, is not later than now; other entries stay unchanged.
  pub find-purge :
      (t : NeighborTable F) (now i : ℕ)
      → IsOrdered t.table
      → IsOrdered (purge end_node t now).table
        × (find i (purge end_node t now).table ≡ elim (find i t.table) [
          | none ↦ none
          | some (e, since) ↦
              if leb (t.entry_life_time + (if i == zero_address then 0 else since)) now
              then none
              else some (e, since)
        ])
  unfolding is_expired get_entry_update_time
  find-purge t now i o =
      let e = purge-eq-erase_all t now t.table refl in
      (
        rw e (
            erase_all-IsOrdered (unique (collect (is_expired end_node t now) [] t.table)) t.table
              o),
        ground (arith, e, find-erase_collected (is_expired end_node t now) i t.table o),
      )

  -- An entry that is added at one time is there after a purge at a later time exactly when less
  -- than the life time has gone by, if its address is not 0.0.0.0.
  pub find-purge-add_entry :
      (t : NeighborTable F) (id : ℕ) (p v : Vector F) (since now : ℕ)
      → IsOrdered t.table
      → id ≢ zero_address
      → find id (purge end_node (add_entry end_node t id p v since) now).table ≡ (
          if leb (t.entry_life_time + since) now
          then none
          else some (record { position = p; velocity = v }, since))
  unfolding add_entry
  find-purge-add_entry t id p v since now o h =
      let (order, found) = find-add_entry end_node t id id p v since o in
      ground (arith, found, find-purge (add_entry end_node t id p v since) now id order)
