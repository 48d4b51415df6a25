-- ===== src/SlotParser/Text.antt =====
-- The parts of the texts that tdma-slot-assignment-parser.cc takes apart.
use saero_rp.Prelude.{
  ℕ, suc, ◌+◌, ◌-◌, ◌*◌, ◌^◌, ◌≡◌, refl, ap, sym, ◌∙◌, Bool, true, false, List, [], ◌∷◌, ◌++◌, ◌==◌,
  length, All, arith,
}
use native.Mathlib.Nat.{add-mul, mul_assoc, pow-succ'}
use saero_rp.SlotParser.{pieces, is_space, is_filled, until, is_digit, digits_from, words}

-- None of the bytes ends a part.
abbrev pub Free : (ℕ → Bool) → List ℕ → Type 0
Free ends text = All (λ x. ends x ≡ false) text

pub pieces-Free : (ends : ℕ → Bool) (text : List ℕ) → Free ends text → pieces ends text ≡ text ∷ []
unfolding pieces
pieces-Free ends [] h = refl
pieces-Free ends (x ∷ xs) h = ground (arith, h.0, pieces-Free ends xs h.1)

pub pieces-append :
    (ends : ℕ → Bool) (text : List ℕ) (x : ℕ) (rest : List ℕ)
    → Free ends text
    → ends x ≡ true
    → pieces ends (text ++ x ∷ rest) ≡ text ∷ pieces ends rest
unfolding pieces
pieces-append ends [] x rest h e = ground (arith, e)
pieces-append ends (y ∷ ys) x rest h e = ground (arith, h.0, pieces-append ends ys x rest h.1 e)

pub words-line :
    (line rest : List ℕ)
    → Free is_space line
    → is_filled line ≡ true
    → words (line ++ 10 ∷ rest) ≡ line ∷ words rest
unfolding words is_space
words-line line rest h f = ground (arith, pieces-append is_space line 10 rest h refl, f)

pub until-append :
    (c : ℕ) (text rest : List ℕ)
    → All (λ x. (x == c) ≡ false) text
    → until c (text ++ c ∷ rest) ≡ text
unfolding until
until-append c [] rest h = ground arith
until-append c (x ∷ xs) rest h = ground (arith, h.0, until-append c xs rest h.1)

abbrev pub IsDigits : List ℕ → Type 0
IsDigits text = All (λ x. is_digit x ≡ true) text

-- The number that digits stand for, the first one with the greatest weight.
abbrev pub number : List ℕ → ℕ
number [] = 0
number (x ∷ xs) = (x - b'0') * 10 ^ length xs + number xs

pub digits_from-number :
    (n : ℕ) (text : List ℕ)
    → IsDigits text
    → digits_from n text ≡ n * 10 ^ length text + number text
unfolding digits_from
digits_from-number n [] h = omega arith
digits_from-number n (x ∷ xs) h =
    let digit = x - b'0' in
    let more = digits_from-number (n * 10 + digit) xs h.1 in
    let product : (n * 10 + digit) * 10 ^ length xs
        ≡ n * 10 ^ suc (length xs) + digit * 10 ^ length xs =
      add-mul (n * 10) digit (10 ^ length xs)
      ∙ ap (λ k. k + digit * 10 ^ length xs)
          (mul_assoc n 10 (10 ^ length xs) ∙ ap (λ k. n * k) (sym (pow-succ' 10 (length xs)))) in
    ground (arith, h.0, more, product)
