-- ===== src/Prelude/Printing.antt =====
-- Decimal numbers as they are printed and as atoi reads them.
use Prim.Native.Nat.{ℕ, zero, suc, ◌+◌, ◌*◌, ◌/◌, ◌%◌, ◌^◌, ◌<◌}
use mathlib.Core.Path.{◌≡◌, refl, ap, subst, sym, ◌∙◌}
use mathlib.Core.Bool.{true, false}
use mathlib.Core.List.{[], ◌∷◌}
use mathlib.Core.Logic.{inl, inr}
use native.Mathlib.Omega.{arith}
use fxp_one.Prelude.Tests.{◌==◌, if◌then◌else◌, Bool-cases}
use fxp_one.Prelude.Bytes.{
  Text, codes, atoi, is_digit, read_digits, read_signed, skip_spaces, is_space, print_digits,
  print_number,
}

-- Ten to the power of the fuel.
abbrev bound : ℕ → ℕ
bound zero = 1
bound (suc f) = 10 * bound f

last-IsDigit : (n : ℕ) → is_digit (b'0' + n % 10) ≡ true
unfolding is_digit
last-IsDigit n = ground arith

-- The last digit is read behind the others.
read-last : (n : ℕ) (acc : Text) → read_digits (n / 10) ((b'0' + n % 10) ∷ acc) ≡ read_digits n acc
unfolding read_digits
read-last n acc = rw (last-IsDigit n) (ap (λ v. read_digits v acc) (omega arith))

read-print :
    (f n : ℕ) (acc : Text) → n < bound f → read_digits 0 (print_digits f n acc) ≡ read_digits n acc
unfolding print_digits
read-print zero zero acc small = refl
read-print zero (suc n) acc small = absurd (omega arith)
read-print (suc f) n acc small = elim (Bool-cases (n == 0)) [
  | inl none ↦ rw none (ap (λ v. read_digits v acc) (ground (arith, none)))
  | inr some ↦
      rw some (read-print f (n / 10) ((b'0' + n % 10) ∷ acc) (omega arith) ∙ read-last n acc)
]

-- The text begins with a digit.
abbrev BeginsWithDigit : Text → Type 0
BeginsWithDigit [] = ⊥
BeginsWithDigit (c ∷ cs) = is_digit c ≡ true

print-BeginsWithDigit :
    (f n : ℕ) (acc : Text) → BeginsWithDigit acc → BeginsWithDigit (print_digits f n acc)
unfolding print_digits
print-BeginsWithDigit zero n acc h = h
print-BeginsWithDigit (suc f) n acc h = elim (Bool-cases (n == 0)) [
  | inl none ↦ rw none h
  | inr some ↦ rw some (print-BeginsWithDigit f (n / 10) ((b'0' + n % 10) ∷ acc) (last-IsDigit n))
]

some-BeginsWithDigit : (f n : ℕ) → (n == 0) ≡ false → BeginsWithDigit (print_digits (suc f) n [])
unfolding print_digits
some-BeginsWithDigit f n some =
    rw some (print-BeginsWithDigit f (n / 10) ((b'0' + n % 10) ∷ []) (last-IsDigit n))

print_number-zero : (n : ℕ) → (n == 0) ≡ true → print_number n ≡ codes "0"
unfolding print_number
print_number-zero n e = ap (λ b. if b then codes "0" else print_digits 20 n []) e

print_number-some : (n : ℕ) → (n == 0) ≡ false → print_number n ≡ print_digits 20 n []
unfolding print_number
print_number-some n e = ap (λ b. if b then codes "0" else print_digits 20 n []) e

number-BeginsWithDigit : (n : ℕ) → BeginsWithDigit (print_number n)
unfolding is_digit
number-BeginsWithDigit n = elim (Bool-cases (n == 0)) [
  | inl none ↦ subst (λ t. BeginsWithDigit t) (sym (print_number-zero n none)) refl
  | inr some ↦
      subst (λ t. BeginsWithDigit t) (sym (print_number-some n some))
        (some-BeginsWithDigit 19 n some)
]

atoi-digits : (t : Text) → BeginsWithDigit t → atoi t ≡ read_digits 0 t % 2 ^ 32
unfolding atoi read_signed skip_spaces is_space is_digit read_digits
atoi-digits [] h = absurd h
atoi-digits (c ∷ cs) h = ground (arith, h)

read-number : (n : ℕ) → n < 2 ^ 32 → read_digits 0 (print_number n) ≡ n
unfolding read_digits is_digit
read-number n small = elim (Bool-cases (n == 0)) [
  | inl none ↦ ap (λ t. read_digits 0 t) (print_number-zero n none) ∙ ground (arith, none)
  | inr some ↦
      ap (λ t. read_digits 0 t) (print_number-some n some) ∙ read-print 20 n [] (omega arith)
]

-- A number below 2^32 is read back from what it is printed as.
pub atoi-print_number : (n : ℕ) → n < 2 ^ 32 → atoi (print_number n) ≡ n
atoi-print_number n small =
    atoi-digits (print_number n) (number-BeginsWithDigit n)
    ∙ (ap (λ v. v % 2 ^ 32) (read-number n small) ∙ omega arith)
