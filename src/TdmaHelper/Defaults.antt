-- ===== src/TdmaHelper/Defaults.antt =====
-- What `SetDefaultSlots` of tdma-helper.cc leaves: which node has a slot.
use saero_rp.Prelude.{
  ℕ, zero, suc, ◌+◌, ◌-◌, ◌*◌, ◌/◌, ◌^◌, ◌<◌, ◌≤◌, ◌≡◌, ◌≢◌, refl, Bool, true, ◌&&◌, ◌||◌, Option,
  some, ◌==◌, ltb, leb, ltb→lt, leb→le, subst, sym, if◌then◌else◌, arith, Bool-cases, inl, inr, ◌∙◌,
}
use native.Mathlib.Nat.{
  mul-le-mul_left, mul-div-le, lt-mul-div-succ, div-eq_of_lt-le, mul_comm, mul-suc,
  lt_of_mul-lt-mul_left,
}
use saero_rp.TdmaHelper.{SlotArray, write, allocate, set_run, set_rows, set_rest, set_default_slots}

-- The array with other cells.
record Becomes (a : SlotArray) (o : Option SlotArray) (cell : ℕ → ℕ → ℕ) : Type 0 where
  after : SlotArray
  returns : o ≡ some after
  rows : after.rows ≡ a.rows
  cols : after.cols ≡ a.cols
  cells : (x y : ℕ) → after.cell x y ≡ cell x y

set_run-Becomes :
    (a : SlotArray) (i base left tmp : ℕ)
    → i < a.rows
    → base + tmp + left < a.cols
    → a.cols ≤ 2 ^ 31
    → Becomes a (set_run a i base left tmp) (λ x y.
      if x == i && (ltb (base + tmp) y && leb y (base + tmp + left)) then 1 else a.cell x y)
unfolding set_run write
set_run-Becomes a i base zero tmp row col small = record {
  after = a;
  returns = refl;
  rows = refl;
  cols = refl;
  cells = λ x y. ground arith;
}
set_run-Becomes a i base (suc left) tmp row col small =
    let a' : SlotArray = record a {
      cell = λ x y. if x == i && y == base + (tmp + 1) then 1 else a.cell x y;
    } in
    let rest = set_run-Becomes a' i base left (tmp + 1) row (omega arith) small in
    record {
      after = rest.after;
      returns = ground (arith, rest.returns);
      rows = rest.rows;
      cols = rest.cols;
      cells = λ x y. ground (arith, rest.cells x y);
    }

-- The run of a row ends where that of the next begins.
run_end : (c i n : ℕ) → i < n → c * i + c ≤ c * n
run_end c i n h =
    let le : i + 1 ≤ n = omega arith in omega (arith, mul-le-mul_left c le, mul-suc c i)

-- The slots of the row `x` in the first part.
abbrev in_run : ℕ → ℕ → ℕ → Bool
in_run c x y = ltb (c * x) y && leb y (c * x + c)

set_rows-Becomes :
    (a : SlotArray) (c left i : ℕ)
    → i + left ≡ a.rows
    → c * a.rows < a.cols
    → a.cols ≤ 2 ^ 31
    → Becomes a
        (set_rows a c left i)
        (λ x y. if leb i x && (ltb x a.rows && in_run c x y) then 1 else a.cell x y)
unfolding set_rows
set_rows-Becomes a c zero i n col small = record {
  after = a;
  returns = refl;
  rows = refl;
  cols = refl;
  cells = λ x y. ground arith;
}
set_rows-Becomes a c (suc left) i n col small =
    let first =
      set_run-Becomes a i (c * i) c 0 (omega arith)
        (omega (arith, run_end c i a.rows (omega arith))) small in
    let rest =
      set_rows-Becomes first.after c left (i + 1) (omega (arith, first.rows))
        (ground (arith, first.rows, first.cols)) (omega (arith, first.cols)) in
    record {
      after = rest.after;
      returns = ground (arith, first.returns, rest.returns);
      rows = rest.rows ∙ first.rows;
      cols = rest.cols ∙ first.cols;
      cells = λ x y. elim (Bool-cases (x == i)) [
        | inl same ↦ ground (arith, rest.cells x y, first.cells x y, first.rows)
        | inr other ↦ ground (arith, rest.cells x y, first.cells x y, first.rows)
      ];
    }

set_rest-Becomes :
    (a : SlotArray) (base left i : ℕ)
    → i + left ≤ a.rows
    → base + i + left < a.cols
    → Becomes a
        (set_rest a base left i)
        (λ x y. if leb i x && (ltb x (i + left) && (y == base + x + 1)) then 1 else a.cell x y)
unfolding set_rest write
set_rest-Becomes a base zero i row col = record {
  after = a;
  returns = refl;
  rows = refl;
  cols = refl;
  cells = λ x y. ground arith;
}
set_rest-Becomes a base (suc left) i row col =
    let a' : SlotArray = record a {
      cell = λ x y. if x == i && y == base + i + 1 then 1 else a.cell x y;
    } in
    let rest = set_rest-Becomes a' base left (i + 1) (omega arith) (omega arith) in
    record {
      after = rest.after;
      returns = ground (arith, rest.returns);
      rows = rest.rows;
      cols = rest.cols;
      cells = λ x y. ground (arith, rest.cells x y);
    }

-- The node that has the slot `k`: as many slots for each node, in order, and one more for the first
-- nodes.
abbrev pub owner : ℕ → ℕ → ℕ → ℕ
owner nodes slots k = let c = slots / nodes in if ltb k (c * nodes) then k / c else k - c * nodes

in_run-owner :
    (c n x k : ℕ)
    → x < n
    → (in_run c x (k + 1) || (k + 1 == c * n + x + 1))
      ≡ (x == (if ltb k (c * n) then k / c else k - c * n))
in_run-owner zero n x k h = ground (arith)
in_run-owner (suc c) n x k h =
    let c' = suc c in
    let below : c' * (k / c') ≤ k = mul-div-le k c' in
    let above : k < c' * (k / c' + 1) = lt-mul-div-succ k (omega arith) in
    let next = mul-suc c' (k / c') in
    elim (Bool-cases (ltb k (c' * n))) [
      | inr last ↦ ground (arith, run_end c' x n h)
      | inl run ↦ elim (Bool-cases (in_run c' x (k + 1))) [
        | inl mine ↦
            let low : x * c' ≤ k =
              omega (arith, mul_comm x c', ltb→lt (c' * x) (k + 1) (ground arith)) in
            let high : k < (x + 1) * c' = omega (
              arith,
              mul_comm (x + 1) c',
              mul-suc c' x,
              leb→le (k + 1) (c' * x + c') (ground arith),
            ) in
            ground (arith, div-eq_of_lt-le c' low high)
        | inr others ↦
            let quotient : in_run c' (k / c') (k + 1) ≡ true = ground (arith, below, above, next) in
            let apart : x ≢ k / c' = λ e.
              absurd (ground (arith, subst (λ z. in_run c' z (k + 1) ≡ true) (sym e) quotient)) in
            ground (arith, apart)
      ]
    ]

-- The default slots: each slot belongs to one node.
pub record IsDefault (nodes slots : ℕ) (a : SlotArray) : Type 0 where
  pub rows : a.rows ≡ nodes
  pub cols : a.cols ≡ slots + 1
  pub names : (x : ℕ) → a.cell x 0 ≡ x
  pub owned :
      (x k : ℕ)
      → x < nodes
      → k < slots
      → a.cell x (k + 1) ≡ (if x == owner nodes slots k then 1 else 0)

pub owner-below : (nodes slots k : ℕ) → 0 < nodes → k < slots → owner nodes slots k < nodes
owner-below nodes slots k some_node h =
    let c = slots / nodes in
    let last : slots < nodes * c + nodes =
      omega (arith, lt-mul-div-succ slots some_node, mul-suc nodes c) in
    elim (Bool-cases (ltb k (c * nodes))) [
      | inl run ↦
          let low : c * (k / c) < c * nodes =
            omega (arith, mul-div-le k c, ltb→lt k (c * nodes) run) in
          ground (arith, run, lt_of_mul-lt-mul_left c low)
      | inr rest ↦ ground (arith, rest, last, mul_comm c nodes)
    ]

pub set_default_slots-IsDefault :
    (nodes slots : ℕ)
    → 0 < nodes
    → slots + 1 ≤ 2 ^ 31
    → (a : SlotArray) × (set_default_slots (allocate nodes slots) ≡ some a)
      × IsDefault nodes slots a
unfolding set_default_slots allocate
set_default_slots-IsDefault nodes slots some_node small =
    let c = slots / nodes in
    let start = allocate nodes slots in
    let whole : c * nodes ≤ slots = omega (arith, mul-div-le slots nodes, mul_comm c nodes) in
    let last : slots < c * nodes + nodes =
      omega (arith, lt-mul-div-succ slots some_node, mul-suc nodes c, mul_comm c nodes) in
    let first = set_rows-Becomes start c nodes 0 (omega arith) (omega arith) (omega arith) in
    let rest =
      set_rest-Becomes first.after (c * nodes) (slots - c * nodes) 0 (omega (arith, first.rows))
        (omega (arith, first.cols)) in
    (
      rest.after,
      ground (arith, first.returns, rest.returns),
      record {
        rows = rest.rows ∙ first.rows;
        cols = rest.cols ∙ first.cols;
        names = λ x. ground (arith, rest.cells x 0, first.cells x 0);
        owned = λ x k hx hk.
            ground
              (arith, rest.cells x (k + 1), first.cells x (k + 1), in_run-owner c nodes x k hx);
      },
    )
