-- ===== src/Neighbor.antt =====
-- The neighbour table: aerorp-ntable.h and aerorp-ntable.cc. An address is its 32-bit number, a
-- time a number of ticks, and `now` is `Simulator::Now ()`.
pub mod Reads
pub mod Expiry
pub mod Best
use saero_rp.Prelude.{
  ℕ, ◌+◌, Bool, true, false, not, ◌&&◌, ◌||◌, Option, none, some, List, [], ◌∷◌, leb, ◌==◌,
  if◌then◌else◌,
}
use saero_rp.Double.{Double, Vector}
use saero_rp.StdMap.{find, insert, erase, assign}
use saero_rp.StdList.{unique, erase_all, collect}

-- The field `TTI` of the source is never written, and only `Print` reads it.
pub record NeighborTableEntry (F : Type 0) : Type 0 where
  pub position : Vector F
  pub velocity : Vector F

-- `m_table`: a map from an address to an entry and the time at which it was added.
abbrev pub Table : Type 0 → Type 0
Table F = List (ℕ × (NeighborTableEntry F × ℕ))

pub record NeighborTable (F : Type 0) : Type 0 where
  pub entry_life_time : ℕ
  pub range : F
  pub table : Table F

-- `Ipv4Address::GetZero ()`
abbrev pub zero_address : ℕ
zero_address = 0

module _ (d : Double) where
  open d use {F, literal, neg, add, sub, mul, div, sqrt, cos, atan2, lt, le, eq}

  -- `GetInvalidPosition` and `GetInvalidVelocity`
  abbrev pub get_invalid_position : Vector F
  get_invalid_position = record { x = neg (literal 1 0); y = neg (literal 1 0); z = literal 0 0 }

  -- The constructor, with the life time of four seconds in ticks and the attribute MaxRange.
  unfoldable pub new_table : ℕ → NeighborTable F
  new_table four_seconds = record {
    entry_life_time = four_seconds;
    range = literal 27800 0;
    table = [];
  }

  unfoldable pub calculate_relative_speed : Vector F → Vector F → Vector F → F
  calculate_relative_speed dst velocity position =
      let pi = literal 314159265 8 in
      let half_turn = literal 180 0 in
      let squares =
        add (add (mul velocity.x velocity.x) (mul velocity.y velocity.y))
          (mul velocity.z velocity.z) in
      let theta = div (mul (atan2 velocity.y velocity.x) half_turn) pi in
      let bearing = atan2 (sub dst.y position.y) (sub dst.x position.x) in
      let thetadot = div (mul bearing half_turn) pi in mul (sqrt squares) (cos (sub theta thetadot))

  -- `distance` is ns-3's `CalculateDistance`.
  module _ (distance : Vector F → Vector F → F) where
    unfoldable pub calculate_time_to_intercept : Vector F → Vector F → Vector F → F → F
    unfolding calculate_relative_speed
    calculate_time_to_intercept dst position velocity range =
        let dd = distance dst position in
        let dv = calculate_relative_speed dst velocity position in
        let tti = div (sub dd range) dv in
        let zero = literal 0 0 in
        if lt dv zero && le range dd
        then zero
        else if lt dd (sub range (literal 3000 0)) && lt dv zero
        then mul (neg (literal 1 0)) tti
        else tti

  -- One round of the loop of `BestNeighbor`, from the best address and time so far.
  unfoldable pub consider :
      (NeighborTableEntry F → F) → ℕ × F → ℕ × (NeighborTableEntry F × ℕ) → ℕ × F
  consider tti (id, best) (k, (e, t)) =
      let zero = literal 0 0 in
      if (lt (tti e) best && not (eq (tti e) zero)) || (eq best zero && not (eq (tti e) zero))
      then (k, tti e)
      else (id, best)

  unfoldable pub scan : (NeighborTableEntry F → F) → ℕ × F → Table F → ℕ × F
  scan tti best [] = best
  scan tti best (e ∷ m) = scan tti (consider tti best e) m

  -- The choice after the loop. An empty table has no first address.
  unfoldable pub choose : (NeighborTableEntry F → F) → F → Table F → ℕ
  choose tti initial [] = zero_address
  choose tti initial ((k, v) ∷ m) =
      let (id, best) = scan tti (k, initial) ((k, v) ∷ m) in
      let zero = literal 0 0 in
      if lt best initial || (eq initial zero && not (eq best zero)) then id else zero_address

-- `end_node m` is what the end iterator of the map `m` reads as: the methods below compare the
-- address that they look for with it when `find` fails.
module _ {F : Type 0} (end_node : Table F → ℕ × (NeighborTableEntry F × ℕ)) where
  -- `i != m_table.end () || id.IsEqual (i->first)`
  unfoldable pub is_neighbour : NeighborTable F → ℕ → Bool
  is_neighbour t id = elim (find id t.table) [
    | some v ↦ true
    | none ↦ if id == (end_node t.table).0 then true else false
  ]

  unfoldable pub get_entry_update_time : NeighborTable F → ℕ → ℕ
  get_entry_update_time t id =
      if id == zero_address
      then 0
      else elim (find id t.table) [ some v ↦ v.1 | none ↦ (end_node t.table).1.1 ]

  unfoldable pub add_entry : NeighborTable F → ℕ → Vector F → Vector F → ℕ → NeighborTable F
  unfolding is_neighbour
  add_entry t id position velocity now =
      let added : NeighborTableEntry F × ℕ =
        (record { position = position; velocity = velocity }, now) in
      if is_neighbour t id
      then record t { table = insert id added (erase id t.table) }
      else record t { table = insert id added t.table }

  -- `none` is a write through the end iterator.
  unfoldable pub update_entry :
      NeighborTable F → ℕ → Vector F → Vector F → ℕ → Option (NeighborTable F)
  unfolding add_entry
  update_entry t id position velocity now = elim (find id t.table) [
    | some (e, since) ↦
        let e' : NeighborTableEntry F = record { position = position; velocity = velocity } in
        some (record t { table = assign id (e', since) t.table })
    | none ↦
        if id == (end_node t.table).0 then none else some (add_entry t id position velocity now)
  ]

  unfoldable pub delete_entry : NeighborTable F → ℕ → NeighborTable F
  delete_entry t id = record t { table = erase id t.table }

  unfoldable pub clear : NeighborTable F → NeighborTable F
  clear t = record t { table = [] }

  unfoldable pub is_expired : NeighborTable F → ℕ → ℕ → Bool
  is_expired t now id = leb (t.entry_life_time + get_entry_update_time t id) now

  unfoldable pub purge : NeighborTable F → ℕ → NeighborTable F
  purge t now = elim t.table [
    | [] ↦ t
    | e ∷ m ↦ record t {
      table = erase_all (unique (collect (is_expired t now) [] t.table)) t.table;
    }
  ]

module _ (d : Double) where
  open d use {F}

  module _ (end_node : Table F → ℕ × (NeighborTableEntry F × ℕ)) where
    unfoldable pub get_position : NeighborTable F → ℕ → Vector F
    get_position t id =
        if id == zero_address then get_invalid_position d else elim (find id t.table) [
          | some (e, since) ↦ e.position
          | none ↦
              if id == (end_node t.table).0
              then (end_node t.table).1.0.position
              else get_invalid_position d
        ]

    unfoldable pub get_velocity : NeighborTable F → ℕ → Vector F
    get_velocity t id =
        if id == zero_address then get_invalid_position d else elim (find id t.table) [
          | some (e, since) ↦ e.velocity
          | none ↦
              if id == (end_node t.table).0
              then (end_node t.table).1.0.velocity
              else get_invalid_position d
        ]

    module _ (distance : Vector F → Vector F → F) where
      -- The table is purged first, so the call returns it too.
      unfoldable pub best_neighbor :
          NeighborTable F → Vector F → Vector F → Vector F → ℕ → ℕ × NeighborTable F
      best_neighbor t dst position velocity now =
          let t' = purge end_node t now in
          let tti = calculate_time_to_intercept d distance in
          let initial = tti dst position velocity t.range in
          (choose d (λ e. tti dst e.position e.velocity t.range) initial t'.table, t')
