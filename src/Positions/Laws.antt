-- ===== src/Positions/Laws.antt =====
-- What the writes and the purge of aerorp-ptable.cc leave for its reads.
use saero_rp.Prelude.{
  ℕ, ◌+◌, ◌≡◌, ◌≢◌, refl, none, some, [], ◌∷◌, arith, leb, ◌==◌, if◌then◌else◌, Option-cases, inl,
  inr,
}
use saero_rp.Double.{Double, Vector}
use saero_rp.StdMap.{
  find, erase, assign, IsOrdered, find-insert, find-insert-erase, find-assign, insert-IsOrdered,
  erase-IsOrdered, assign-IsOrdered,
}
use saero_rp.StdList.{unique, erase_all, collect, find-erase_collected, erase_all-IsOrdered}
use saero_rp.Positions.{
  NodesPositionTable, Table, zero_address, get_entry_update_time, add_entry, update_entry,
  is_expired, purge, get_position, get_invalid_position,
}

module _ {F : Type 0} (end_node : Table F → ℕ × (Vector F × ℕ)) where
  pub find-add_entry_position :
      (t : NodesPositionTable F) (id i : ℕ) (p : Vector F) (now : ℕ)
      → IsOrdered t.table
      → let t' = add_entry end_node t id p now in
        IsOrdered t'.table × (find i t'.table ≡ (if id == i then some (p, now) else find i t.table))
  unfolding add_entry
  find-add_entry_position t id i p now o =
      let e : Vector F × ℕ = (p, now) in
      ground (
        arith,
        find-insert-erase id i e t.table o,
        find-insert id i e t.table,
        insert-IsOrdered id e t.table o,
        insert-IsOrdered id e (erase id t.table) (erase-IsOrdered id t.table o),
      )

  -- `UpdateEntry`, at an address that differs from what the end iterator reads as, changes the
  -- position of a known address and keeps its time, and adds nothing for an unknown address.
  pub find-update_entry_position :
      (t : NodesPositionTable F) (id i : ℕ) (p : Vector F)
      → IsOrdered t.table
      → id ≢ (end_node t.table).0
      → (t' : NodesPositionTable F) × (update_entry end_node t id p ≡ some t')
        × IsOrdered t'.table
        × (find i t'.table ≡ elim (find i t.table) [
          | none ↦ none
          | some (q, since) ↦ if id == i then some (p, since) else some (q, since)
        ])
  unfolding update_entry
  find-update_entry_position t id i p o h = elim (Option-cases (find id t.table)) [
    | inl new ↦ (t, ground arith, o, ground arith)
    | inr ((q, since), known) ↦ (
      record t { table = assign id (p, since) t.table },
      ground arith,
      assign-IsOrdered id (p, since) t.table o,
      ground (arith, find-assign id i (p, since) (q, since) t.table known),
    )
  ]

  purge-eq-erase_all :
      (t : NodesPositionTable F) (now : ℕ) (m : Table F)
      → t.table ≡ m
      → (purge end_node t now).table
        ≡ erase_all (unique (collect (is_expired end_node t now) [] m)) m
  unfolding purge collect unique erase_all
  purge-eq-erase_all t now [] e = ground arith
  purge-eq-erase_all t now (x ∷ m) e = ground arith

  -- `Purge` keeps the order of the map and removes an entry exactly when the life time after its
  -- time, which is 0 for the address 0.0.0.0, is not later than now; other entries stay unchanged.
  pub find-purge_positions :
      (t : NodesPositionTable F) (now i : ℕ)
      → IsOrdered t.table
      → IsOrdered (purge end_node t now).table
        × (find i (purge end_node t now).table ≡ elim (find i t.table) [
          | none ↦ none
          | some (p, since) ↦
              if leb (t.entry_life_time + (if i == zero_address then 0 else since)) now
              then none
              else some (p, since)
        ])
  unfolding is_expired get_entry_update_time
  find-purge_positions t now i o =
      let e = purge-eq-erase_all t now t.table refl in
      (
        rw e (
            erase_all-IsOrdered (unique (collect (is_expired end_node t now) [] t.table)) t.table
              o),
        ground (arith, e, find-erase_collected (is_expired end_node t now) i t.table o),
      )

module _ (d : Double) (end_node : Table d.F → ℕ × (Vector d.F × ℕ)) where
  -- After `AddEntry`, `GetPosition` returns the position given for the address that was added,
  -- and what it returned before for any other address that differs from what the end iterator
  -- reads as before and after; for 0.0.0.0 it returns the invalid position.
  pub get_position-add_entry :
      (t : NodesPositionTable d.F) (id i : ℕ) (p : Vector d.F) (now : ℕ)
      → IsOrdered t.table
      → i ≢ (end_node t.table).0
      → i ≢ (end_node (add_entry end_node t id p now).table).0
      → get_position d end_node (add_entry end_node t id p now) i ≡ (
          if i == zero_address
          then get_invalid_position d
          else if id == i
          then p
          else get_position d end_node t i)
  unfolding get_position
  get_position-add_entry t id i p now o h h' =
      ground (arith, find-add_entry_position end_node t id i p now o)
