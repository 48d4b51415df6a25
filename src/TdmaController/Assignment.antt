-- ===== src/TdmaController/Assignment.antt =====
-- `SetTotalSlotsAllowed` and `AddTdmaSlot` of tdma-controller.cc: what a sequence of calls leaves.
use saero_rp.Prelude.{ℕ, ◌^◌, ◌<◌, ◌≤◌, ◌≡◌, ◌≢◌, refl, none, some, List, [], ◌∷◌, arith}
use saero_rp.StdMap.{find, IsOrdered, find-insert_first, insert-IsOrdered}
use saero_rp.TdmaController.{TdmaController, add_tdma_slot, set_total_slots_allowed}
use saero_rp.TdmaController.Frame.{IsFilled}

-- Calls of `AddTdmaSlot` one after another.
pub add_all : TdmaController → List (ℕ × ℕ) → TdmaController
add_all c [] = c
add_all c ((slot, mac) ∷ calls) = add_all (add_tdma_slot c slot mac) calls

-- What the slot map is after the calls.
record Added (c : TdmaController) (calls : List (ℕ × ℕ)) (c' : TdmaController) : Type 0 where
  ordered : IsOrdered c'.slot_ptrs
  total : c'.total_slots_allowed ≡ c.total_slots_allowed
  found :
      (k : ℕ)
      → find k c'.slot_ptrs ≡ elim (find k c.slot_ptrs) [ none ↦ find k calls | some m ↦ some m ]

add_all-Added :
    (c : TdmaController) (calls : List (ℕ × ℕ))
    → IsOrdered c.slot_ptrs
    → Added c calls (add_all c calls)
unfolding add_all add_tdma_slot find
add_all-Added c [] o = record { ordered = o; total = refl; found = λ k. ground arith }
add_all-Added c ((slot, mac) ∷ calls) o =
    let next =
      add_all-Added (add_tdma_slot c slot mac) calls (insert-IsOrdered slot mac c.slot_ptrs o) in
    record {
      ordered = next.ordered;
      total = next.total;
      found = λ k. ground (arith, next.found k, find-insert_first slot k mac c.slot_ptrs o);
    }

-- `SetTotalSlotsAllowed`, and then calls of `AddTdmaSlot` that name each slot of the frame and no
-- other, with no null MAC and in any order, fill the slot map: each slot has the MAC of the first
-- call for it, so that the scheduler serves the whole frame.
pub add_all-IsFilled :
    (c : TdmaController) (total : ℕ) (calls : List (ℕ × ℕ))
    → total < 2 ^ 32
    → ((k : ℕ) → total ≤ k → find k calls ≡ none)
    → ((k : ℕ) → k < total → (mac : ℕ) × (find k calls ≡ some mac) × (mac ≢ 0))
    → let c' = add_all (set_total_slots_allowed c total) calls in
      IsFilled c'
      × (c'.total_slots_allowed ≡ total)
      × ((k : ℕ) → find k c'.slot_ptrs ≡ find k calls)
unfolding set_total_slots_allowed find
add_all-IsFilled c total calls small below all =
    let a = add_all-Added (set_total_slots_allowed c total) calls tt in
    (
      record {
        ordered = a.ordered;
        below = λ k h. ground (arith, a.found k, below k (ground (arith, a.total)));
        filled = λ k h.
            let (mac, found, nonnull) = all k (ground (arith, a.total)) in
            (mac, ground (arith, a.found k, found), nonnull);
        small = ground (arith, a.total, small);
      },
      a.total,
      λ k. a.found k,
    )
