-- ===== src/StdList.antt =====
-- `std::list` operations that the tables call: `unique`, and the loops that erase or test keys.
use saero_rp.Prelude.{
  not, keep_if, ℕ, ◌≡◌, ◌||◌, refl, Bool, true, false, none, List, [], ◌∷◌, arith, ◌==◌,
  if◌then◌else◌,
}
use saero_rp.StdMap.{has, find-has, find, erase, IsOrdered, find-erase, erase-IsOrdered}

abbrev pub member : ℕ → List ℕ → Bool
member k [] = false
member k (j ∷ ks) = if j == k then true else member k ks

-- `unique` after an element `j` that is kept.
pub unique_after : ℕ → List ℕ → List ℕ
unique_after j [] = []
unique_after j (k ∷ ks) = let rest = unique_after k ks in if j == k then rest else k ∷ rest

-- `std::list::unique` removes what equals the element before it.
unfoldable pub unique : List ℕ → List ℕ
unfolding unique_after
unique [] = []
unique (k ∷ ks) = k ∷ unique_after k ks

member-unique_after : (i j : ℕ) (ks : List ℕ) → member i (j ∷ unique_after j ks) ≡ member i (j ∷ ks)
unfolding unique_after
member-unique_after i j [] = refl
member-unique_after i j (k ∷ ks) = ground (arith, member-unique_after i k ks)

pub member-unique : (i : ℕ) (ks : List ℕ) → member i (unique ks) ≡ member i ks
unfolding unique
member-unique i [] = refl
member-unique i (k ∷ ks) = member-unique_after i k ks

-- `std::list::remove`
abbrev pub remove : ℕ → List ℕ → List ℕ
remove k = keep_if (λ a. not (a == k))

-- The loop that removes every element of the first list from the second.
unfoldable pub remove_each : List ℕ → List ℕ → List ℕ
remove_each [] as' = as'
remove_each (k ∷ ks) as' = remove_each ks (remove k as')

member-remove :
    (i k : ℕ) (ks : List ℕ) → member i (remove k ks) ≡ (if i == k then false else member i ks)
member-remove i k [] = ground arith
member-remove i k (j ∷ ks) = ground (arith, member-remove i k ks)

pub member-remove_each :
    (i : ℕ) (ks as' : List ℕ)
    → member i (remove_each ks as') ≡ (if member i ks then false else member i as')
unfolding remove_each
member-remove_each i [] as' = refl
member-remove_each i (k ∷ ks) as' =
    ground (arith, member-remove_each i ks (remove k as'), member-remove i k as')

module _ {ℓ} {V : Type ℓ} where
  -- The loop that erases every key of a list from a map.
  unfoldable pub erase_all : List ℕ → List (ℕ × V) → List (ℕ × V)
  erase_all [] m = m
  erase_all (k ∷ ks) m = erase_all ks (erase k m)

  pub erase_all-IsOrdered :
      (ks : List ℕ) (m : List (ℕ × V)) → IsOrdered m → IsOrdered (erase_all ks m)
  unfolding erase_all
  erase_all-IsOrdered [] m o = o
  erase_all-IsOrdered (k ∷ ks) m o = erase_all-IsOrdered ks (erase k m) (erase-IsOrdered k m o)

  pub find-erase_all :
      (i : ℕ) (ks : List ℕ) (m : List (ℕ × V))
      → IsOrdered m
      → find i (erase_all ks m) ≡ (if member i ks then none else find i m)
  unfolding erase_all
  find-erase_all i [] m o = refl
  find-erase_all i (k ∷ ks) m o =
      ground (arith, find-erase_all i ks (erase k m) (erase-IsOrdered k m o), find-erase k i m o)

  -- A loop over a map that puts each key that passes a test at the front of a list.
  unfoldable pub collect : (ℕ → Bool) → List ℕ → List (ℕ × V) → List ℕ
  collect p acc [] = acc
  collect p acc ((k, v) ∷ m) = collect p (if p k then k ∷ acc else acc) m

  member-collect :
      (p : ℕ → Bool) (i : ℕ) (acc : List ℕ) (m : List (ℕ × V))
      → member i (collect p acc m) ≡ (if has i m then p i || member i acc else member i acc)
  unfolding collect
  member-collect p i acc [] = refl
  member-collect p i acc ((k, v) ∷ m) =
      ground (arith, member-collect p i (if p k then k ∷ acc else acc) m)

  -- Collecting the keys that pass a test and erasing them leaves what fails it.
  pub find-erase_collected :
      (p : ℕ → Bool) (i : ℕ) (m : List (ℕ × V))
      → IsOrdered m
      → find i (erase_all (unique (collect p [] m)) m) ≡ (if p i then none else find i m)
  find-erase_collected p i m o = ground (
    arith,
    find-erase_all i (unique (collect p [] m)) m o,
    member-unique i (collect p [] m),
    member-collect p i [] m,
    find-has i m,
  )
