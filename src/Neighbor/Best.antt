-- ===== src/Neighbor/Best.antt =====
-- `BestNeighbor` of aerorp-ntable.cc chooses a neighbour that no other one beats.
use saero_rp.Prelude.{
  ℕ, ◌<◌, ◌≡◌, not, ◌&&◌, ◌||◌, if◌then◌else◌, subst, ap, ◌⊎◌, inl, inr, refl, Bool, true, false,
  some, [], ◌∷◌, arith, All,
}
use saero_rp.Double.{Double, IsOrderedDouble, Vector}
use saero_rp.StdMap.{find, Above, IsOrdered}
use saero_rp.Neighbor.Expiry.{find-purge}
use saero_rp.Neighbor.{
  NeighborTable, NeighborTableEntry, Table, zero_address, consider, scan, choose, purge,
  best_neighbor, calculate_time_to_intercept,
}

module _ (d : Double) (ordered : IsOrderedDouble d) where
  open d use {F, literal, lt, eq}

  abbrev Has : ℕ × (NeighborTableEntry F × ℕ) → Table F → Type 0
  Has e [] = ⊥
  Has e (x ∷ m) = (x ≡ e) ⊎ Has e m

  module _ (tti : NeighborTableEntry F → F) where
    abbrev is_zero : F → Bool
    is_zero a = eq a (literal 0 0)

    -- A time of zero is passed over; any other is not below `b`.
    abbrev pub Unbeaten : F → ℕ × (NeighborTableEntry F × ℕ) → Type 0
    Unbeaten b (k, (e, t)) = (is_zero (tti e) ≡ true) ⊎ (lt (tti e) b ≡ false)

    abbrev pub IsZeroTime : ℕ × (NeighborTableEntry F × ℕ) → Type 0
    IsZeroTime (k, (e, t)) = is_zero (tti e) ≡ true

    -- What a pass of the loop from the pair `s` to the pair `r` has found out.
    record Scanned (s : ℕ × F) (m : Table F) (r : ℕ × F) : Type 0 where
      chosen :
          (r ≡ s)
          ⊎ ((k : ℕ) × (e : NeighborTableEntry F) × (t : ℕ) × Has (k, (e, t)) m
              × (r ≡ (k, tti e))
              × (is_zero r.1 ≡ false)
              × ((lt r.1 s.1 ≡ true) ⊎ (is_zero s.1 ≡ true)))
      unbeaten : All (Unbeaten r.1) m
      zeros : is_zero r.1 ≡ true → All IsZeroTime m

    -- A round of the loop takes the entry or passes it over.
    consider-cases :
        (s : ℕ × F) (k : ℕ) (e : NeighborTableEntry F) (t : ℕ)
        → ((consider d tti s (k, (e, t)) ≡ (k, tti e))
            × (is_zero (tti e) ≡ false)
            × ((lt (tti e) s.1 ≡ true) ⊎ (is_zero s.1 ≡ true)))
          ⊎ ((consider d tti s (k, (e, t)) ≡ s)
              × ((is_zero (tti e) ≡ true) ⊎ ((lt (tti e) s.1 ≡ false) × (is_zero s.1 ≡ false))))
    unfolding consider
    consider-cases (id, best) k e t = ground arith

    taken :
        (s r : ℕ × F) (k : ℕ) (e : NeighborTableEntry F) (t : ℕ) (m : Table F)
        → is_zero (tti e) ≡ false
        → (lt (tti e) s.1 ≡ true) ⊎ (is_zero s.1 ≡ true)
        → Scanned (k, tti e) m r
        → Scanned s ((k, (e, t)) ∷ m) r
    taken s r k e t m z w h = record {
      chosen = elim h.chosen [
        | inl same ↦ inr (k, e, t, inl refl, same, ground arith, ground arith)
        | inr (k', e', t', there, same, z', below) ↦
            inr (k', e', t', inr there, same, z', ground (arith, ordered.lt_trans r.1 (tti e) s.1))
      ];
      unbeaten = (
        ground (arith, h.chosen, ordered.lt_irrefl (tti e), ordered.lt_trans (tti e) r.1 (tti e)),
        h.unbeaten,
      );
      zeros = λ q. absurd (ground (arith, h.chosen));
    }

    passed :
        (s r : ℕ × F) (k : ℕ) (e : NeighborTableEntry F) (t : ℕ) (m : Table F)
        → (is_zero (tti e) ≡ true) ⊎ ((lt (tti e) s.1 ≡ false) × (is_zero s.1 ≡ false))
        → Scanned s m r
        → Scanned s ((k, (e, t)) ∷ m) r
    passed s r k e t m w h = record {
      chosen = elim h.chosen [
        | inl same ↦ inl same
        | inr (k', e', t', there, same, z', below) ↦ inr (k', e', t', inr there, same, z', below)
      ];
      unbeaten = (ground (arith, h.chosen, ordered.lt_trans (tti e) r.1 s.1), h.unbeaten);
      zeros = λ q. (ground (arith, h.chosen), h.zeros q);
    }

    scan-Scanned : (s : ℕ × F) (m : Table F) → Scanned s m (scan d tti s m)
    unfolding scan
    scan-Scanned s [] = record { chosen = inl refl; unbeaten = tt; zeros = λ q. tt }
    scan-Scanned s ((k, (e, t)) ∷ m) = elim (consider-cases s k e t) [
      | inl (eq', z, w) ↦ taken s _ k e t m z w (rw eq' (scan-Scanned (k, tti e) m))
      | inr (eq', w) ↦ passed s _ k e t m w (rw eq' (scan-Scanned s m))
    ]

    Has-find :
        (i k : ℕ) (e : NeighborTableEntry F × ℕ) (m : Table F)
        → Above i m
        → Has (k, e) m
        → (i < k) × (find k m ≡ some e)
    unfolding find
    Has-find i k e [] o h = elim h [ ]
    Has-find i k e ((j, v) ∷ m) o (inl same) = (ground arith, ground arith)
    Has-find i k e ((j, v) ∷ m) o (inr there) = ground (arith, Has-find j k e m o.1 there)

    Has-find_head :
        (k : ℕ) (e : NeighborTableEntry F × ℕ) (m : Table F)
        → IsOrdered m
        → Has (k, e) m
        → find k m ≡ some e
    unfolding find
    Has-find_head k e [] o h = elim h [ ]
    Has-find_head k e ((j, v) ∷ m) o (inl same) = ground arith
    Has-find_head k e ((j, v) ∷ m) o (inr there) = ground (arith, Has-find j k e m o there)

    -- The two outcomes of a choice among `m` for a node whose own time is `own`.
    abbrev pub Choice : F → Table F → ℕ → Type 0
    Choice own m r =
        ((r ≡ zero_address) × All (Unbeaten own) m × (is_zero own ≡ true → All IsZeroTime m))
        ⊎ ((e : NeighborTableEntry F) × (since : ℕ) × (find r m ≡ some (e, since))
            × (is_zero (tti e) ≡ false)
            × ((lt (tti e) own ≡ true) ⊎ (is_zero own ≡ true))
            × All (Unbeaten (tti e)) m)

    decide-Choice :
        (own : F) (k : ℕ) (m : Table F) (r : ℕ × F)
        → IsOrdered m
        → Scanned (k, own) m r
        → Choice own m
            (if lt r.1 own || (is_zero own && not (is_zero r.1)) then r.0 else zero_address)
    decide-Choice own k m r o h = elim h.chosen [
      | inl same ↦
          let own' : r.1 ≡ own = ap (λ p. p.1) same in
          inl (
            ground (arith, own', ordered.lt_irrefl own),
            subst (λ b. All (Unbeaten b) m) own' h.unbeaten,
            λ q. h.zeros (ground (arith, own')),
          )
      | inr (k', e, since, there, same, z, below) ↦
          let cost : r.1 ≡ tti e = ap (λ p. p.1) same in
          let found = Has-find_head k' (e, since) m o there in
          inr (
            e,
            since,
            ground (arith, found),
            ground arith,
            ground arith,
            subst (λ b. All (Unbeaten b) m) cost h.unbeaten,
          )
    ]

    choose-Choice : (own : F) (m : Table F) → IsOrdered m → Choice own m (choose d tti own m)
    unfolding choose
    choose-Choice own [] o = inl (refl, tt, λ q. tt)
    choose-Choice own ((k, v) ∷ m) o =
        decide-Choice own k ((k, v) ∷ m) _ o (scan-Scanned (k, own) ((k, v) ∷ m))

  -- `BestNeighbor` on a map in key order purges the table and returns one of two things. Either
  -- 0.0.0.0: then every neighbour left has a time to intercept that is zero or not below the
  -- node's own, and all are zero if the own time is zero. Or the address of an entry left whose
  -- time is not zero and is below the own time, or the own time is zero; then every other time
  -- is zero or not below that entry's. It is assumed of `<` that it is irreflexive and transitive.
  pub best_neighbor-Choice :
      (end_node : Table F → ℕ × (NeighborTableEntry F × ℕ)) (distance : Vector F → Vector F → F)
      (t : NeighborTable F) (dst position velocity : Vector F) (now : ℕ)
      → IsOrdered t.table
      → let cost = calculate_time_to_intercept d distance dst in
        let (r, t') = best_neighbor d end_node distance t dst position velocity now in
        (t' ≡ purge end_node t now)
        × Choice
            (λ e. cost e.position e.velocity t.range)
            (cost position velocity t.range)
            t'.table
            r
  unfolding best_neighbor
  best_neighbor-Choice end_node distance t dst position velocity now o =
      let cost = calculate_time_to_intercept d distance dst in
      (
        refl,
        choose-Choice (λ e. cost e.position e.velocity t.range) (cost position velocity t.range)
            (purge end_node t now).table (find-purge end_node t now 0 o).0,
      )
