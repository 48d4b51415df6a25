-- ===== src/Examples/Numbers.antt =====
-- An arithmetic of integers in the place of the doubles.
use saero_rp.Prelude.{
  ℕ, zero, suc, ◌+◌, ◌*◌, ◌/◌, ◌≡◌, refl, Bool, true, false, arith, ltb, leb, ◌==◌,
}
use saero_rp.Prelude.Int.{ℤ, pos, negsuc, sub_ℕ}
use saero_rp.Double.{Double, IsOrderedDouble, Vector}

abbrev neg : ℤ → ℤ
neg (pos zero) = pos 0
neg (pos (suc n)) = negsuc n
neg (negsuc n) = pos (suc n)

abbrev add : ℤ → ℤ → ℤ
add (pos a) (pos b) = pos (a + b)
add (pos a) (negsuc b) = sub_ℕ a (suc b)
add (negsuc a) (pos b) = sub_ℕ b (suc a)
add (negsuc a) (negsuc b) = negsuc (suc (a + b))

abbrev pub magnitude : ℤ → ℕ
magnitude (pos a) = a
magnitude (negsuc a) = suc a

-- The sign of a product or a quotient whose magnitude is the third argument.
abbrev signed : ℤ → ℤ → ℕ → ℤ
signed (pos a) (pos b) n = pos n
signed (pos a) (negsuc b) n = neg (pos n)
signed (negsuc a) (pos b) n = neg (pos n)
signed (negsuc a) (negsuc b) n = pos n

abbrev lt : ℤ → ℤ → Bool
lt (pos a) (pos b) = ltb a b
lt (pos a) (negsuc b) = false
lt (negsuc a) (pos b) = true
lt (negsuc a) (negsuc b) = ltb b a

abbrev le : ℤ → ℤ → Bool
le (pos a) (pos b) = leb a b
le (pos a) (negsuc b) = false
le (negsuc a) (pos b) = true
le (negsuc a) (negsuc b) = leb b a

abbrev eq : ℤ → ℤ → Bool
eq (pos a) (pos b) = a == b
eq (pos a) (negsuc b) = false
eq (negsuc a) (pos b) = false
eq (negsuc a) (negsuc b) = a == b

-- The functions that integers do not have are constant.
abbrev pub ints : Double
ints = record {
  F = ℤ;
  literal = λ n k. pos n;
  neg = neg;
  add = add;
  sub = λ a b. add a (neg b);
  mul = λ a b. signed a b (magnitude a * magnitude b);
  div = λ a b. signed a b (magnitude a / magnitude b);
  sqrt = λ a. pos 1;
  cos = λ a. pos 1;
  atan2 = λ a b. pos 0;
  lt = lt;
  le = le;
  eq = eq;
  of_u32 = pos;
  to_u32 = magnitude;
}

lt_irrefl : (a : ℤ) → lt a a ≡ false
lt_irrefl (pos a) = ground arith
lt_irrefl (negsuc a) = ground arith

lt_trans : (a b c : ℤ) → lt a b ≡ true → lt b c ≡ true → lt a c ≡ true
lt_trans (pos a) (pos b) (pos c) h k = ground arith
lt_trans (pos a) (pos b) (negsuc c) h k = absurd (ground arith)
lt_trans (pos a) (negsuc b) c h k = absurd (ground arith)
lt_trans (negsuc a) (pos b) (pos c) h k = refl
lt_trans (negsuc a) (pos b) (negsuc c) h k = absurd (ground arith)
lt_trans (negsuc a) (negsuc b) (pos c) h k = refl
lt_trans (negsuc a) (negsuc b) (negsuc c) h k = ground arith

pub ints-IsOrderedDouble : IsOrderedDouble ints
ints-IsOrderedDouble = record { lt_irrefl = lt_irrefl; lt_trans = lt_trans }

abbrev pub point : ℕ → ℕ → ℕ → Vector ℤ
point a b c = record { x = pos a; y = pos b; z = pos c }

-- The distance along the first axis.
abbrev pub distance : Vector ℤ → Vector ℤ → ℤ
distance a b = add a.x (neg b.x)
