-- ===== src/Positions.antt =====
-- The position table of the nodes: aerorp-ptable.h and aerorp-ptable.cc. Addresses and times are
-- as in the neighbour table.
pub mod Laws
use saero_rp.Prelude.{
  ℕ, ◌+◌, Bool, true, false, Option, none, some, List, [], ◌∷◌, leb, ◌==◌, if◌then◌else◌,
}
use saero_rp.Double.{Double, Vector}
use saero_rp.StdMap.{find, insert, erase, assign}
use saero_rp.StdList.{unique, erase_all, collect}

-- `m_table`: a map from an address to a position and the time at which it was added.
abbrev pub Table : Type 0 → Type 0
Table F = List (ℕ × (Vector F × ℕ))

pub record NodesPositionTable (F : Type 0) : Type 0 where
  pub entry_life_time : ℕ
  pub table : Table F

abbrev pub zero_address : ℕ
zero_address = 0

-- The constructor, with the life time of five seconds in ticks.
unfoldable pub new_table : {F : Type 0} → ℕ → NodesPositionTable F
new_table five_seconds = record { entry_life_time = five_seconds; table = [] }

-- `end_node m` is what the end iterator of the map `m` reads as.
module _ {F : Type 0} (end_node : Table F → ℕ × (Vector F × ℕ)) where
  -- `i != m_table.end () || id.IsEqual (i->first)`
  unfoldable pub is_known : NodesPositionTable F → ℕ → Bool
  is_known t id = elim (find id t.table) [ some v ↦ true | none ↦ id == (end_node t.table).0 ]

  unfoldable pub get_entry_update_time : NodesPositionTable F → ℕ → ℕ
  get_entry_update_time t id =
      if id == zero_address
      then 0
      else elim (find id t.table) [ some v ↦ v.1 | none ↦ (end_node t.table).1.1 ]

  unfoldable pub add_entry : NodesPositionTable F → ℕ → Vector F → ℕ → NodesPositionTable F
  unfolding is_known
  add_entry t id position now =
      if is_known t id
      then record t { table = insert id (position, now) (erase id t.table) }
      else record t { table = insert id (position, now) t.table }

  -- `none` is a write through the end iterator.
  unfoldable pub update_entry : NodesPositionTable F → ℕ → Vector F → Option (NodesPositionTable F)
  update_entry t id position = elim (find id t.table) [
    | some (p, since) ↦ some (record t { table = assign id (position, since) t.table })
    | none ↦ if id == (end_node t.table).0 then none else some t
  ]

  unfoldable pub delete_entry : NodesPositionTable F → ℕ → NodesPositionTable F
  delete_entry t id = record t { table = erase id t.table }

  unfoldable pub clear : NodesPositionTable F → NodesPositionTable F
  clear t = record t { table = [] }

  unfoldable pub is_expired : NodesPositionTable F → ℕ → ℕ → Bool
  is_expired t now id = leb (t.entry_life_time + get_entry_update_time t id) now

  unfoldable pub purge : NodesPositionTable F → ℕ → NodesPositionTable F
  purge t now = elim t.table [
    | [] ↦ t
    | e ∷ m ↦ record t {
      table = erase_all (unique (collect (is_expired t now) [] t.table)) t.table;
    }
  ]

module _ (d : Double) where
  open d use {F, literal, neg}

  abbrev pub get_invalid_position : Vector F
  get_invalid_position = record { x = neg (literal 1 0); y = neg (literal 1 0); z = literal 0 0 }

  module _ (end_node : Table F → ℕ × (Vector F × ℕ)) where
    unfoldable pub get_position : NodesPositionTable F → ℕ → Vector F
    get_position t id =
        if id == zero_address then get_invalid_position else elim (find id t.table) [
          | some (p, since) ↦ p
          | none ↦
              if id == (end_node t.table).0 then (end_node t.table).1.0 else get_invalid_position
        ]
