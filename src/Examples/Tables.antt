-- ===== src/Examples/Tables.antt =====
-- The neighbour table, with a neighbour 7 and a neighbour 9.
use saero_rp.Prelude.{ℕ, ◌≡◌, some, [], ◌∷◌, arith}
use saero_rp.Prelude.Int.{ℤ, pos}
use saero_rp.StdMap.{find, IsOrdered}
use saero_rp.Neighbor.{
  NeighborTable, NeighborTableEntry, zero_address, add_entry, update_entry, purge, get_position,
  get_velocity, get_entry_update_time, is_neighbour, best_neighbor, calculate_time_to_intercept,
}
use saero_rp.Neighbor.Reads.{find-update_entry}
use saero_rp.Neighbor.Best.{best_neighbor-Choice, Choice}
use saero_rp.Neighbor
use saero_rp.Examples.Numbers.{ints, ints-IsOrderedDouble, point, distance}

abbrev entry : ℕ → NeighborTableEntry ℤ
entry a = record { position = point a 0 0; velocity = point 1 0 0 }

abbrev table : NeighborTable ℤ
table = record {
  entry_life_time = 4;
  range = pos 10;
  table = (7, (entry 20, 1)) ∷ (9, (entry 30, 5)) ∷ [];
}

-- An end iterator that reads as an entry of the address 1.
abbrev end_node : Neighbor.Table ℤ → ℕ × (NeighborTableEntry ℤ × ℕ)
end_node m = (1, (entry 0, 0))

table-IsOrdered : IsOrdered table.table
table-IsOrdered = (omega arith, tt)

find-update_entry_example :
    (t' : NeighborTable ℤ) × (update_entry end_node table 7 (point 3 3 3) (point 1 1 1) 6 ≡ some t')
    × IsOrdered t'.table
    × (find 7 t'.table ≡ some (record { position = point 3 3 3; velocity = point 1 1 1 }, 1))
unfolding find
find-update_entry_example =
    find-update_entry end_node table 7 7 (point 3 3 3) (point 1 1 1) 6 table-IsOrdered
      (ground arith)

best_neighbor-Choice_example :
    let cost = calculate_time_to_intercept ints distance (point 100 0 0) in
    let (r, t') =
      best_neighbor ints end_node distance table (point 100 0 0) (point 0 0 0) (point 1 0 0) 3 in
    (t' ≡ purge end_node table 3)
    × Choice ints ints-IsOrderedDouble
        (λ e. cost e.position e.velocity (pos 10))
        (cost (point 0 0 0) (point 1 0 0) (pos 10))
        t'.table
        r
best_neighbor-Choice_example =
    best_neighbor-Choice ints ints-IsOrderedDouble end_node distance table (point 100 0 0)
      (point 0 0 0) (point 1 0 0) 3 table-IsOrdered
