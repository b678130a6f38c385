-- ===== src/Prelude/Lists.antt =====
-- Lists measured and indexed by native numbers, under the library's names.
use Prim.Native.Nat.{ℕ, zero, suc, ◌+◌, ◌≤◌, ◌<◌}
use mathlib.Core.Path.{◌≡◌, refl, ap}
use mathlib.Core.List.{List, [], ◌∷◌, ◌++◌, Perm}
use mathlib.Core.List.Perm
use mathlib.Core.Option.{Option, none, some}
use native.Mathlib.Omega.{arith}

module _ {ℓ} {A : Type ℓ} where
  abbrev pub length : List A → ℕ
  length [] = 0
  length (x ∷ xs) = suc (length xs)

  abbrev pub get_elem? : List A → ℕ → Option A
  get_elem? [] i = none
  get_elem? (x ∷ xs) zero = some x
  get_elem? (x ∷ xs) (suc i) = get_elem? xs i

  abbrev pub take : ℕ → List A → List A
  take zero xs = []
  take (suc n) [] = []
  take (suc n) (x ∷ xs) = x ∷ take n xs

  abbrev pub drop : ℕ → List A → List A
  drop zero xs = xs
  drop (suc n) [] = []
  drop (suc n) (x ∷ xs) = drop n xs

  -- The element goes before the one at the position, or to the end if there is none.
  abbrev pub insert_at : ℕ → A → List A → List A
  insert_at zero a xs = a ∷ xs
  insert_at (suc n) a [] = a ∷ []
  insert_at (suc n) a (x ∷ xs) = x ∷ insert_at n a xs

  -- A position out of range removes nothing.
  abbrev pub remove_at : ℕ → List A → List A
  remove_at n [] = []
  remove_at zero (x ∷ xs) = xs
  remove_at (suc n) (x ∷ xs) = x ∷ remove_at n xs

  pub length-append : (xs ys : List A) → length (xs ++ ys) ≡ length xs + length ys
  length-append [] ys = omega arith
  length-append (x ∷ xs) ys = omega (arith, length-append xs ys)

  pub length-insert_at : (n : ℕ) (a : A) (xs : List A) → length (insert_at n a xs) ≡ suc (length xs)
  length-insert_at zero a xs = refl
  length-insert_at (suc n) a [] = refl
  length-insert_at (suc n) a (x ∷ xs) = ap suc (length-insert_at n a xs)

  pub length-remove_at :
      (n : ℕ) (xs : List A) → n < length xs → suc (length (remove_at n xs)) ≡ length xs
  length-remove_at n [] h = elim h [ ]
  length-remove_at zero (x ∷ xs) h = refl
  length-remove_at (suc n) (x ∷ xs) h = ap suc (length-remove_at n xs (omega arith))

  pub get_elem?-insert_at_self :
      (n : ℕ) (a : A) (xs : List A) → n ≤ length xs → get_elem? (insert_at n a xs) n ≡ some a
  get_elem?-insert_at_self zero a xs h = refl
  get_elem?-insert_at_self (suc n) a [] h = elim h [ ]
  get_elem?-insert_at_self (suc n) a (x ∷ xs) h = get_elem?-insert_at_self n a xs (omega arith)

  pub remove_at-insert_at :
      (n : ℕ) (a : A) (xs : List A) → n ≤ length xs → remove_at n (insert_at n a xs) ≡ xs
  remove_at-insert_at zero a xs h = refl
  remove_at-insert_at (suc n) a [] h = elim h [ ]
  remove_at-insert_at (suc n) a (x ∷ xs) h = ap (◌∷◌ x) (remove_at-insert_at n a xs (omega arith))

  pub get_elem?-lt : (n : ℕ) (xs : List A) {a : A} → get_elem? xs n ≡ some a → n < length xs
  get_elem?-lt n [] h = ground arith
  get_elem?-lt zero (x ∷ xs) h = omega arith
  get_elem?-lt (suc n) (x ∷ xs) h = omega (arith, get_elem?-lt n xs h)

  pub insert_at-perm : (n : ℕ) (a : A) (xs : List A) → Perm (a ∷ xs) (insert_at n a xs)
  insert_at-perm zero a xs = Perm.refl (a ∷ xs)
  insert_at-perm (suc n) a [] = Perm.refl (a ∷ [])
  insert_at-perm (suc n) a (x ∷ xs) =
      Perm.trans (Perm.swap x a xs) (Perm.cons x (insert_at-perm n a xs))

  pub remove_at-perm :
      (n : ℕ) (xs : List A) {a : A} → get_elem? xs n ≡ some a → Perm xs (a ∷ remove_at n xs)
  remove_at-perm n [] h = absurd (ground arith)
  remove_at-perm zero (x ∷ xs) {a} h = Perm.cons' (ground arith) (Perm.refl xs)
  remove_at-perm (suc n) (x ∷ xs) {a} h =
      Perm.trans (Perm.cons x (remove_at-perm n xs h)) (Perm.swap a x (remove_at n xs))
