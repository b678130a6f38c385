-- ===== src/Prelude/Bytes.antt =====
-- C strings as lists of bytes, without the closing NUL, and the routines of the C library on them.
use Prim.Native.Nat.{ℕ, zero, suc, ◌+◌, ◌-◌, ◌*◌, ◌/◌, ◌%◌, ◌^◌}
use Prim.Native.Char.{code}
use Prim.Native.String.{String}
use mathlib.Core.Path.{◌≡◌, refl}
use mathlib.Core.Bool.{Bool, true, false, ◌&&◌, ◌||◌}
use mathlib.Core.List.{List, [], ◌∷◌}
use native.Mathlib.Omega.{arith}
use fxp_one.Prelude.Tests.{leb, ◌==◌, if◌then◌else◌}

abbrev pub Text : Type 0
Text = List ℕ

abbrev pub codes : String → Text
codes String.[] = []
codes (String.◌∷◌ c s) = code c ∷ codes s

-- strcmp(a, b) == 0
unfoldable pub text_eq : Text → Text → Bool
text_eq [] [] = true
text_eq [] (y ∷ ys) = false
text_eq (x ∷ xs) [] = false
text_eq (x ∷ xs) (y ∷ ys) = x == y && text_eq xs ys

pub text_eq_refl : (t : Text) → text_eq t t ≡ true
unfolding text_eq
text_eq_refl [] = refl
text_eq_refl (x ∷ xs) = ground (arith, text_eq_refl xs)

-- tolower on ASCII
unfoldable pub to_lower : ℕ → ℕ
to_lower c = if leb b'A' c && leb c b'Z' then c + 32 else c

-- strcasecmp(a, b) == 0
unfoldable pub case_eq : Text → Text → Bool
unfolding to_lower
case_eq [] [] = true
case_eq [] (y ∷ ys) = false
case_eq (x ∷ xs) [] = false
case_eq (x ∷ xs) (y ∷ ys) = to_lower x == to_lower y && case_eq xs ys

unfoldable pub is_digit : ℕ → Bool
is_digit c = leb b'0' c && leb c b'9'

-- The digits at the front, read on from a value.
unfoldable pub read_digits : ℕ → Text → ℕ
unfolding is_digit
read_digits acc [] = acc
read_digits acc (c ∷ cs) =
    let rest = read_digits (acc * 10 + (c - b'0')) cs in if is_digit c then rest else acc

unfoldable pub is_space : ℕ → Bool
is_space c = c == b' ' || (leb 9 c && leb c 13)

unfoldable pub skip_spaces : Text → Text
unfolding is_space
skip_spaces [] = []
skip_spaces (c ∷ cs) = if is_space c then skip_spaces cs else c ∷ cs

unfoldable pub read_signed : Text → ℕ
unfolding read_digits
read_signed [] = 0
read_signed (c ∷ cs) =
    if c == b'-'
    then (2 ^ 32 - read_digits 0 cs % 2 ^ 32) % 2 ^ 32
    else if c == b'+'
    then read_digits 0 cs % 2 ^ 32
    else read_digits 0 (c ∷ cs) % 2 ^ 32

-- (unsigned int) atoi(s); a value that no int holds is taken modulo 2^32.
unfoldable pub atoi : Text → ℕ
unfolding read_signed skip_spaces
atoi s = read_signed (skip_spaces s)

saturate : ℕ → ℕ
saturate n = if leb n (2 ^ 64 - 1) then n else 2 ^ 64 - 1

read_saturated : Text → ℕ
unfolding read_digits saturate
read_saturated [] = 0
read_saturated (c ∷ cs) =
    if c == b'-'
    then (if leb (read_digits 0 cs) (2 ^ 64 - 1)
        then (2 ^ 64 - read_digits 0 cs) % 2 ^ 64
        else 2 ^ 64 - 1)
    else if c == b'+'
    then saturate (read_digits 0 cs)
    else saturate (read_digits 0 (c ∷ cs))

-- strtoull(s, NULL, 10): a value that 64 bits do not hold gives the largest.
unfoldable pub strtoull : Text → ℕ
unfolding read_saturated skip_spaces
strtoull s = read_saturated (skip_spaces s)

-- isalpha on ASCII
unfoldable pub is_alpha : ℕ → Bool
is_alpha c = leb b'a' c && leb c b'z' || leb b'A' c && leb c b'Z'

unfoldable pub starts_with : Text → Text → Bool
starts_with [] ys = true
starts_with (x ∷ xs) [] = false
starts_with (x ∷ xs) (y ∷ ys) = x == y && starts_with xs ys

-- strstr(line, word) != NULL
unfoldable pub contains : Text → Text → Bool
unfolding starts_with
contains word [] = starts_with word []
contains word (c ∷ cs) = starts_with word (c ∷ cs) || contains word cs

-- strncasecmp(a, line, strlen(a)) == 0
unfoldable pub case_starts_with : Text → Text → Bool
unfolding to_lower
case_starts_with [] ys = true
case_starts_with (x ∷ xs) [] = false
case_starts_with (x ∷ xs) (y ∷ ys) = to_lower x == to_lower y && case_starts_with xs ys

-- The decimal digits of a number below 2^64, as printf gives them.
unfoldable pub print_digits : ℕ → ℕ → Text → Text
print_digits zero n acc = acc
print_digits (suc fuel) n acc =
    let rest = print_digits fuel (n / 10) ((b'0' + n % 10) ∷ acc) in if n == 0 then acc else rest

unfoldable pub print_number : ℕ → Text
unfolding print_digits
print_number n = if n == 0 then codes "0" else print_digits 20 n []
