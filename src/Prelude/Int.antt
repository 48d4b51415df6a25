-- ===== src/Prelude/Int.antt =====
-- Signed integers over the native numbers, for differences of times.
use saero_rp.Prelude.{ℕ, ◌-◌, ◌<◌, ◌≡◌, ◌↔◌, Bool, true, arith, leb, if◌then◌else◌}

-- `negsuc n` is -(n + 1).
pub data ℤ : Type 0 where
  pos : ℕ → ℤ
  negsuc : ℕ → ℤ

-- a - b, as an integer.
abbrev pub sub_ℕ : ℕ → ℕ → ℤ
sub_ℕ a b = if leb b a then pos (a - b) else negsuc (b - a - 1)

abbrev pub is_negative : ℤ → Bool
is_negative (pos n) = Bool.false
is_negative (negsuc n) = true

pub is_negative-sub_ℕ : (a b : ℕ) → (is_negative (sub_ℕ a b) ≡ true) ↔ (a < b)
is_negative-sub_ℕ a b = ground arith
