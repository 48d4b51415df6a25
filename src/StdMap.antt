-- ===== src/StdMap.antt =====
-- `std::map<K, V>` with numbers for keys, as the list of its entries in key order. The routing
-- tables (aerorp-ntable.h, aerorp-ptable.h) and the slot map of tdma-controller.h use it.
use saero_rp.Prelude.{
  ℕ, ◌≤◌, ◌<◌, ◌≡◌, refl, Bool, true, false, Option, none, some, List, [], ◌∷◌, arith, ltb, ◌==◌,
  if◌then◌else◌, Option-cases, inl, inr,
}

module _ {ℓ} {V : Type ℓ} where
  -- `find`: `none` is the end iterator.
  unfoldable pub find : ℕ → List (ℕ × V) → Option V
  find k [] = none
  find k ((j, v) ∷ m) = if j == k then some v else find k m

  -- `erase` by key.
  unfoldable pub erase : ℕ → List (ℕ × V) → List (ℕ × V)
  erase k [] = []
  erase k ((j, v) ∷ m) = if j == k then m else (j, v) ∷ erase k m

  -- `insert` leaves a key that is there as it is, and keeps the order.
  unfoldable pub insert : ℕ → V → List (ℕ × V) → List (ℕ × V)
  insert k v [] = (k, v) ∷ []
  insert k v ((j, w) ∷ m) =
      if j == k then (j, w) ∷ m else if ltb k j then (k, v) ∷ (j, w) ∷ m else (j, w) ∷ insert k v m

  -- Writing through an iterator that `find` returned.
  unfoldable pub assign : ℕ → V → List (ℕ × V) → List (ℕ × V)
  assign k v [] = []
  assign k v ((j, w) ∷ m) = if j == k then (j, v) ∷ m else (j, w) ∷ assign k v m

  -- All keys are above `k`, and they rise along the list.
  abbrev pub Above : ℕ → List (ℕ × V) → Type 0
  Above k [] = Unit {0}
  Above k ((j, v) ∷ m) = (k < j) × Above j m

  abbrev pub IsOrdered : List (ℕ × V) → Type 0
  IsOrdered [] = Unit {0}
  IsOrdered ((j, v) ∷ m) = Above j m

  pub Above-mono : (i k : ℕ) (m : List (ℕ × V)) → i ≤ k → Above k m → Above i m
  Above-mono i k [] h a = tt
  Above-mono i k ((j, v) ∷ m) h a = (omega arith, a.1)

  pub Above-IsOrdered : (k : ℕ) (m : List (ℕ × V)) → Above k m → IsOrdered m
  Above-IsOrdered k [] a = tt
  Above-IsOrdered k ((j, v) ∷ m) a = a.1

  pub find-Above : (k i : ℕ) (m : List (ℕ × V)) → Above i m → k ≤ i → find k m ≡ none
  unfolding find
  find-Above k i [] a h = refl
  find-Above k i ((j, v) ∷ m) a h = ground (arith, find-Above k j m a.1)

  pub insert-Above :
      (i k : ℕ) (v : V) (m : List (ℕ × V)) → i < k → Above i m → Above i (insert k v m)
  unfolding insert
  insert-Above i k v [] h a = (h, tt)
  insert-Above i k v ((j, w) ∷ m) h a = ground (arith, insert-Above j k v m)

  pub erase-Above : (i k : ℕ) (m : List (ℕ × V)) → Above i m → Above i (erase k m)
  unfolding erase
  erase-Above i k [] a = tt
  erase-Above i k ((j, w) ∷ m) a = ground (arith, erase-Above j k m a.1, Above-mono i j m)

  pub assign-Above : (i k : ℕ) (v : V) (m : List (ℕ × V)) → Above i m → Above i (assign k v m)
  unfolding assign
  assign-Above i k v [] a = tt
  assign-Above i k v ((j, w) ∷ m) a = ground (arith, assign-Above j k v m a.1)

  pub insert-IsOrdered : (k : ℕ) (v : V) (m : List (ℕ × V)) → IsOrdered m → IsOrdered (insert k v m)
  unfolding insert
  insert-IsOrdered k v [] a = tt
  insert-IsOrdered k v ((j, w) ∷ m) a = ground (arith, insert-Above j k v m)

  pub erase-IsOrdered : (k : ℕ) (m : List (ℕ × V)) → IsOrdered m → IsOrdered (erase k m)
  unfolding erase
  erase-IsOrdered k [] a = tt
  erase-IsOrdered k ((j, w) ∷ m) a = ground (arith, erase-Above j k m a, Above-IsOrdered j m a)

  pub assign-IsOrdered : (k : ℕ) (v : V) (m : List (ℕ × V)) → IsOrdered m → IsOrdered (assign k v m)
  unfolding assign
  assign-IsOrdered k v [] a = tt
  assign-IsOrdered k v ((j, w) ∷ m) a = ground (arith, assign-Above j k v m a)

  pub find-insert :
      (k i : ℕ) (v : V) (m : List (ℕ × V))
      → find k m ≡ none
      → find i (insert k v m) ≡ (if k == i then some v else find i m)
  unfolding find insert
  find-insert k i v [] h = refl
  find-insert k i v ((j, w) ∷ m) h = ground (arith, find-insert k i v m)

  insert_known :
      (k : ℕ) (v w : V) (m : List (ℕ × V)) → IsOrdered m → find k m ≡ some w → insert k v m ≡ m
  unfolding find insert
  insert_known k v w [] o h = absurd (ground arith)
  insert_known k v w ((j, u) ∷ m) o h =
      ground (arith, insert_known k v w m (Above-IsOrdered j m o), find-Above k j m o)

  -- `insert` gives a key its value only if the key has none.
  pub find-insert_first :
      (k i : ℕ) (v : V) (m : List (ℕ × V))
      → IsOrdered m
      → find i (insert k v m)
        ≡ elim (find i m) [ none ↦ (if k == i then some v else none) | some w ↦ some w ]
  find-insert_first k i v m o = elim (Option-cases (find k m)) [
    | inl new ↦ elim (Option-cases (find i m)) [
      | inl absent ↦ ground (arith, find-insert k i v m new)
      | inr (w, known) ↦ ground (arith, find-insert k i v m new)
    ]
    | inr (w, known) ↦ elim (Option-cases (find i m)) [
      | inl absent ↦ ground (arith, insert_known k v w m o known)
      | inr (u, there) ↦ ground (arith, insert_known k v w m o known)
    ]
  ]

  pub find-erase :
      (k i : ℕ) (m : List (ℕ × V))
      → IsOrdered m
      → find i (erase k m) ≡ (if k == i then none else find i m)
  unfolding find erase
  find-erase k i [] a = ground arith
  find-erase k i ((j, w) ∷ m) a =
      ground
        (arith, find-erase k i m (Above-IsOrdered j m a), find-Above k j m a, find-Above i j m a)

  pub find-assign :
      (k i : ℕ) (v w : V) (m : List (ℕ × V))
      → find k m ≡ some w
      → find i (assign k v m) ≡ (if k == i then some v else find i m)
  unfolding find assign
  find-assign k i v w [] h = cc
  find-assign k i v w ((j, u) ∷ m) h = ground (arith, find-assign k i v w m)

  pub find-erase_self : (k : ℕ) (m : List (ℕ × V)) → IsOrdered m → find k (erase k m) ≡ none
  find-erase_self k m o = ground (arith, find-erase k k m o)

  -- Erasing a key and inserting it again replaces its value.
  pub find-insert-erase :
      (k i : ℕ) (v : V) (m : List (ℕ × V))
      → IsOrdered m
      → find i (insert k v (erase k m)) ≡ (if k == i then some v else find i m)
  find-insert-erase k i v m o =
      ground (arith, find-insert k i v (erase k m) (find-erase_self k m o), find-erase k i m o)

  -- Whether a key is among the entries.
  abbrev pub has : ℕ → List (ℕ × V) → Bool
  has i [] = false
  has i ((k, v) ∷ m) = if k == i then true else has i m

  pub find-has : (i : ℕ) (m : List (ℕ × V)) → has i m ≡ false → find i m ≡ none
  unfolding find
  find-has i [] h = refl
  find-has i ((k, v) ∷ m) h = ground (arith, find-has i m)
