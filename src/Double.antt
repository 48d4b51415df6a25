-- ===== src/Double.antt =====
-- The arithmetic of `double` that the sources call, and ns-3's `Vector` of three doubles. The type
-- and its operations are a parameter: nothing here says how a double is rounded.
use saero_rp.Prelude.{ℕ, ◌≡◌, Bool, true, false}

pub record Double : Type 1 where
  pub F : Type 0
  -- A literal with that many decimal places.
  pub literal : ℕ → ℕ → F
  pub neg : F → F
  pub add : F → F → F
  pub sub : F → F → F
  pub mul : F → F → F
  pub div : F → F → F
  pub sqrt : F → F
  pub cos : F → F
  pub atan2 : F → F → F
  pub lt : F → F → Bool
  pub le : F → F → Bool
  pub eq : F → F → Bool
  -- The conversions from and to `uint32_t`.
  pub of_u32 : ℕ → F
  pub to_u32 : F → ℕ

-- What IEEE 754 says of the comparison `<`, values that are no numbers included.
pub record IsOrderedDouble (d : Double) : Type 0 where
  pub lt_irrefl : (a : d.F) → d.lt a a ≡ false
  pub lt_trans : (a b c : d.F) → d.lt a b ≡ true → d.lt b c ≡ true → d.lt a c ≡ true

pub record Vector (F : Type 0) : Type 0 where
  pub x : F
  pub y : F
  pub z : F
