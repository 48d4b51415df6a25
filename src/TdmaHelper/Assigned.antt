-- ===== src/TdmaHelper/Assigned.antt =====
-- What `Install` of tdma-helper.cc makes of the default slots: the controller's slot map.
use saero_rp.Prelude.{
  ℕ, zero, suc, ◌+◌, ◌^◌, ◌<◌, ◌≤◌, ◌≡◌, ◌≢◌, refl, true, ◌&&◌, Option, none, some, List, [], ◌∷◌,
  ◌==◌, ltb, leb, if◌then◌else◌, arith, Bool-cases, ◌⊎◌, ltb→lt, inl, inr, ==_iff,
}
use saero_rp.StdList.{member}
use saero_rp.StdMap.{find, IsOrdered, insert-IsOrdered, find-insert_first}
use saero_rp.TdmaController.{TdmaController, add_tdma_slot, set_total_slots_allowed}
use saero_rp.TdmaController.Frame.{IsFilled}
use saero_rp.TdmaHelper.{
  SlotArray, allocate, set_default_slots, is_exclusive, slots_of, add_slots, assign_tdma_slots,
  install, set_controller,
}
use saero_rp.TdmaHelper.Defaults.{owner, owner-below, IsDefault, set_default_slots-IsDefault}

-- The slots of `p` that had no MAC have this one.
pub record Gives (c c' : TdmaController) (p : ℕ → Option ℕ) : Type 0 where
  pub ordered : IsOrdered c'.slot_ptrs
  pub kept : c' ≡ record c { slot_ptrs = c'.slot_ptrs }
  pub found :
      (k : ℕ) → find k c'.slot_ptrs ≡ elim (find k c.slot_ptrs) [ none ↦ p k | some m ↦ some m ]

add_slots-Gives :
    (c : TdmaController) (slots : List ℕ) (mac : ℕ)
    → IsOrdered c.slot_ptrs
    → Gives c (add_slots c slots mac) (λ k. if member k slots then some mac else none)
unfolding add_slots add_tdma_slot
add_slots-Gives c [] mac o = record { ordered = o; kept = refl; found = λ k. ground arith }
add_slots-Gives c (slot ∷ slots) mac o =
    let next =
      add_slots-Gives (add_tdma_slot c slot mac) slots mac
        (insert-IsOrdered slot mac c.slot_ptrs o) in
    record {
      ordered = next.ordered;
      kept = ground (arith, next.kept);
      found = λ k. ground (arith, next.found k, find-insert_first slot k mac c.slot_ptrs o);
    }

-- Nodes one after another from the number `i` on, with their MACs.
abbrev pub numbered : (ℕ → ℕ) → ℕ → ℕ → List (ℕ × ℕ)
numbered macs zero i = []
numbered macs (suc left) i = (i, macs i) ∷ numbered macs left (i + 1)

module _ (nodes slots : ℕ) (a : SlotArray) (some_node : 0 < nodes)
    (d : IsDefault nodes slots a) where
  -- No other row has the slot.
  exclusive :
      (i k left : ℕ) → i < nodes → k < slots → left ≤ nodes → is_exclusive a i (k + 1) left ≡ true
  unfolding is_exclusive
  exclusive i k zero hi hk hl = refl
  exclusive i k (suc left) hi hk hl = ground (
    arith,
    exclusive i k left hi hk (omega arith),
    d.owned i k hi hk,
    d.owned left k (omega arith) hk,
  )

  slots_of-owner :
      (i left k0 : ℕ)
      → i < nodes
      → k0 + left ≤ slots
      → (found : List ℕ) × (slots_of a i left (k0 + 1) ≡ some found)
        × ((k : ℕ)
            → member k found ≡ (leb k0 k && (ltb k (k0 + left) && (i == owner nodes slots k))))
  unfolding slots_of
  slots_of-owner i zero k0 hi h = ([], refl, λ k. ground arith)
  slots_of-owner i (suc left) k0 hi h =
      let (found, returns, members) = slots_of-owner i left (k0 + 1) hi (omega arith) in
      let single = exclusive i k0 a.rows hi (omega arith) (omega (arith, d.rows)) in
      let value = d.owned i k0 hi (omega arith) in
      elim (Bool-cases (i == owner nodes slots k0)) [
        | inl mine ↦ (
          k0 ∷ found,
          ground (arith, returns, single, value, mine),
          λ k. ground (arith, members k, mine),
        )
        | inr other ↦ (
          found,
          ground (arith, returns, single, value, other),
          λ k. ground (arith, members k, other),
        )
      ]

  -- The slots of a node, for a MAC.
  abbrev of_node : ℕ → ℕ → ℕ → Option ℕ
  of_node node mac k = if ltb k slots && (node == owner nodes slots k) then some mac else none

  assign_tdma_slots-Gives :
      (c : TdmaController) (mac node left i : ℕ)
      → IsOrdered c.slot_ptrs
      → i + left ≡ nodes
      → node < nodes
      → (c' : TdmaController) × (assign_tdma_slots a c mac node left i ≡ some c')
        × Gives c c' (λ k. if leb i node then of_node node mac k else none)
  unfolding assign_tdma_slots
  assign_tdma_slots-Gives c mac node zero i o n h =
      (c, refl, record { ordered = o; kept = refl; found = λ k. ground arith })
  assign_tdma_slots-Gives c mac node (suc left) i o n h = elim (Bool-cases (i == node)) [
    | inl here ↦
        let (mine, returns, members) = slots_of-owner i slots 0 (omega arith) (omega arith) in
        let given = add_slots-Gives c mine mac o in
        let (c', goes, rest) =
          assign_tdma_slots-Gives (add_slots c mine mac) mac node left (i + 1) given.ordered
            (omega arith) h in
        (
          c',
          ground (arith, here, returns, goes, d.names i, d.cols),
          record {
            ordered = rest.ordered;
            kept = ground (arith, rest.kept, given.kept);
            found = λ k. ground (arith, here, rest.found k, given.found k, members k);
          },
        )
    | inr elsewhere ↦
        let (c', goes, rest) = assign_tdma_slots-Gives c mac node left (i + 1) o (omega arith) h in
        (
          c',
          ground (arith, elsewhere, goes, d.names i),
          record {
            ordered = rest.ordered;
            kept = rest.kept;
            found = λ k. ground (arith, elsewhere, rest.found k);
          },
        )
  ]

  -- Nodes of a range of numbers.
  pub install-Gives :
      (c : TdmaController) (macs : ℕ → ℕ) (left i : ℕ)
      → IsOrdered c.slot_ptrs
      → i + left ≤ nodes
      → (c' : TdmaController) × (install a c (numbered macs left i) ≡ some c')
        × Gives c c' (λ k.
          let owns = owner nodes slots k in
          if ltb k slots && (leb i owns && ltb owns (i + left)) then some (macs owns) else none)
  unfolding install
  install-Gives c macs zero i o n =
      (c, refl, record { ordered = o; kept = refl; found = λ k. ground arith })
  install-Gives c macs (suc left) i o n =
      let (c1, goes, given) =
        assign_tdma_slots-Gives c (macs i) i nodes 0 o (omega arith) (omega arith) in
      let (c', goes', rest) = install-Gives c1 macs left (i + 1) given.ordered (omega arith) in
      (
        c',
        ground (arith, goes, goes', d.rows),
        record {
          ordered = rest.ordered;
          kept = ground (arith, rest.kept, given.kept);
          found = λ k. elim (Bool-cases (i == owner nodes slots k)) [
            | inl mine ↦
                let same : i ≡ owner nodes slots k = (==_iff i (owner nodes slots k)).0 mine in
                ground (arith, mine, same, rest.found k, given.found k)
            | inr other ↦ ground (arith, other, rest.found k, given.found k)
          ];
        },
      )

-- For any positive number of nodes and fewer than 2^31 slots, the default slots are written within
-- the array, and `Install` of all nodes in the order of their numbers passes its assertions and fills
-- the slot map of a controller from `SetTdmaControllerHelper`: every slot of the frame belongs to
-- one node and has its MAC, where each node has the same number of slots in one run and the slots
-- left over go to the first nodes; no other slot has a MAC. No MAC is null.
pub install-IsFilled :
    (c : TdmaController) (nodes slots : ℕ) (macs : ℕ → ℕ)
    → 0 < nodes
    → slots + 1 ≤ 2 ^ 31
    → ((i : ℕ) → i < nodes → macs i ≢ 0)
    → (a : SlotArray) × (c' : TdmaController) × (set_default_slots (allocate nodes slots) ≡ some a)
      × (install a (set_controller a c) (numbered macs nodes 0) ≡ some c')
      × IsFilled c'
      × (c'.total_slots_allowed ≡ slots)
      × ((k : ℕ)
          → (find k c'.slot_ptrs
              ≡ (if ltb k slots then some (macs (owner nodes slots k)) else none))
            × ((owner nodes slots k < nodes) ⊎ (slots ≤ k)))
unfolding set_controller set_total_slots_allowed find
install-IsFilled c nodes slots macs some_node small nonnull =
    let (a, written, d) = set_default_slots-IsDefault nodes slots some_node small in
    let (c', goes, given) =
      install-Gives nodes slots a some_node d (set_controller a c) macs nodes 0 tt (omega arith) in
    let total : c'.total_slots_allowed ≡ slots = ground (arith, given.kept, d.cols) in
    let has : (k : ℕ) → k < slots → find k c'.slot_ptrs ≡ some (macs (owner nodes slots k)) =
      λ k h. ground (arith, given.found k, owner-below nodes slots k some_node h) in
    (
      a,
      c',
      written,
      goes,
      record {
        ordered = given.ordered;
        below = λ k h. ground (arith, given.found k, total);
        filled = λ k h.
            let inside : k < slots = omega (arith, total) in
            (
              macs (owner nodes slots k),
              has k inside,
              nonnull (owner nodes slots k) (owner-below nodes slots k some_node inside),
            );
        small = omega (arith, total);
      },
      total,
      λ k. elim (Bool-cases (ltb k slots)) [
        | inl inside ↦
            let below = owner-below nodes slots k some_node (ltb→lt k slots inside) in
            (ground (arith, inside, has k (ltb→lt k slots inside)), inl below)
        | inr outside ↦ (ground (arith, outside, given.found k), inr (ground (arith, outside)))
      ],
    )
