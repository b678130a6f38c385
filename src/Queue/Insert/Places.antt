-- ===== src/Queue/Insert/Places.antt =====
-- Where queue_insert puts an item.
use fxp_one.Prelude.{
  ℕ, zero, suc, ◌≤◌, ◌<◌, Bool, true, false, not, ◌&&◌, List, [], ◌∷◌, Option, some, ◌≡◌, refl,
  length, get_elem?, remove_at, insert_at, get_elem?-insert_at_self, remove_at-insert_at, ◌⊎◌, inl,
  inr, Bool-cases, is_neg, ◌++◌, arith, if◌then◌else◌, Text, ap, Perm, insert_at-perm,
  length-insert_at,
}
use Prim.Native.Nat.{min}
use fxp_one.Lion.{Lion}
use fxp_one.Queue.Types.{
  Qitem, Queue, Position, at_first, at_last, at_default, at_nth, is_directory,
}
use fxp_one.Queue.Insert.{
  Spot, step_over, last_spot, nth_spot, default_spot, spot, spliced, place, insert_item,
  queue_insert, parse_position,
}

-- A directory that no move-first rule has marked.
abbrev pub is_plain_directory : Qitem → Bool
is_plain_directory x = is_directory x.type && not (is_neg x.weight)

abbrev pub plain_at : List Qitem → ℕ → Bool
plain_at [] n = false
plain_at (x ∷ xs) zero = is_plain_directory x
plain_at (x ∷ xs) (suc n) = plain_at xs n

last_spot_lem : (xs : List Qitem) → (last_spot xs).2 ≡ length xs
unfolding last_spot
last_spot_lem [] = refl
last_spot_lem (x ∷ xs) = ap suc (last_spot_lem xs)

nth_spot_lem : (n : ℕ) (xs : List Qitem) → (nth_spot n xs).2 ≡ min n (length xs)
unfolding nth_spot
nth_spot_lem n [] = omega arith
nth_spot_lem zero (x ∷ xs) = omega arith
nth_spot_lem (suc n) (x ∷ xs) = omega (arith, nth_spot_lem n xs)

-- The default loop, an item at a time.
default_spot-cons :
    (x : Qitem) (xs : List Qitem)
    → default_spot (x ∷ xs)
      ≡ (if is_plain_directory x then ([], x ∷ xs, 0) else step_over x (default_spot xs))
unfolding default_spot
default_spot-cons x xs = ground arith

default_place-nil : place at_default [] ≡ 0
unfolding place default_spot
default_place-nil = refl

default_place-cons :
    (x : Qitem) (xs : List Qitem)
    → place at_default (x ∷ xs) ≡ (if is_plain_directory x then 0 else suc (place at_default xs))
unfolding place default_spot
default_place-cons x xs = ground arith

default_place-le : (xs : List Qitem) → place at_default xs ≤ length xs
unfolding place default_spot
default_place-le [] = omega arith
default_place-le (x ∷ xs) = ground (arith, default_place-cons x xs, default_place-le xs)

nth_place_lem : (n : ℕ) (xs : List Qitem) → place (at_nth n) xs ≡ min n (length xs)
unfolding place
nth_place_lem n xs = nth_spot_lem n xs

pub place-le : (p : Position) (xs : List Qitem) → place p xs ≤ length xs
unfolding place
place-le at_first xs = omega arith
place-le at_last xs = omega (arith, last_spot_lem xs)
place-le at_default xs = default_place-le xs
place-le (at_nth n) xs = omega (arith, nth_spot_lem n xs)

-- What the loops leave as prev and node agrees with what they count.
abbrev Agrees : List Qitem → Spot → Type 0
Agrees xs s = (x : Qitem) → s.0 ++ x ∷ s.1 ≡ insert_at s.2 x xs

step_over-Agrees :
    (y : Qitem) (xs : List Qitem) (s : Spot) → Agrees xs s → Agrees (y ∷ xs) (step_over y s)
step_over-Agrees y xs s h x = ap (◌∷◌ y) (h x)

last_spot-Agrees : (xs : List Qitem) → Agrees xs (last_spot xs)
unfolding last_spot
last_spot-Agrees [] x = refl
last_spot-Agrees (y ∷ ys) x = step_over-Agrees y ys (last_spot ys) (last_spot-Agrees ys) x

nth_spot-Agrees : (n : ℕ) (xs : List Qitem) → Agrees xs (nth_spot n xs)
unfolding nth_spot
nth_spot-Agrees n [] x = refl
nth_spot-Agrees zero (y ∷ ys) x = refl
nth_spot-Agrees (suc n) (y ∷ ys) x = step_over-Agrees y ys (nth_spot n ys) (nth_spot-Agrees n ys) x

default_spot-Agrees : (xs : List Qitem) → Agrees xs (default_spot xs)
default_spot-Agrees [] x = unfold default_spot in refl
default_spot-Agrees (y ∷ ys) x = elim (Bool-cases (is_plain_directory y)) [
  | inl e ↦ rw (default_spot-cons y ys, e) refl
  | inr e ↦
      rw (default_spot-cons y ys, e)
        (step_over-Agrees y ys (default_spot ys) (default_spot-Agrees ys) x)
]

pub spliced-insert_at :
    (x : Qitem) (p : Position) (xs : List Qitem) → spliced x p xs ≡ insert_at (place p xs) x xs
unfolding spliced place
spliced-insert_at x at_first xs = refl
spliced-insert_at x at_last xs = last_spot-Agrees xs x
spliced-insert_at x at_default xs = default_spot-Agrees xs x
spliced-insert_at x (at_nth n) xs = nth_spot-Agrees n xs x

pub length-spliced :
    (x : Qitem) (p : Position) (xs : List Qitem) → length (spliced x p xs) ≡ suc (length xs)
length-spliced x p xs = rw (spliced-insert_at x p xs) (length-insert_at (place p xs) x xs)

pub spliced-perm : (x : Qitem) (p : Position) (xs : List Qitem) → Perm (x ∷ xs) (spliced x p xs)
spliced-perm x p xs = rw (spliced-insert_at x p xs) (insert_at-perm (place p xs) x xs)

-- Whether the place is the head of a list that begins with the item.
abbrev pub takes_head : Position → Qitem → Bool
takes_head at_first y = true
takes_head at_last y = false
takes_head at_default y = is_plain_directory y
takes_head (at_nth zero) y = true
takes_head (at_nth (suc n)) y = false

pub spliced-head :
    (x : Qitem) (p : Position) (y : Qitem) (ys : List Qitem)
    → get_elem? (spliced x p (y ∷ ys)) 0 ≡ some (if takes_head p y then x else y)
unfolding spliced spot last_spot nth_spot
spliced-head x at_first y ys = refl
spliced-head x at_last y ys = refl
spliced-head x at_default y ys = elim (Bool-cases (is_plain_directory y)) [
  | inl e ↦ rw (default_spot-cons y ys, e) refl
  | inr e ↦ rw (default_spot-cons y ys, e) refl
]
spliced-head x (at_nth zero) y ys = refl
spliced-head x (at_nth (suc n)) y ys = refl

none_before : (xs : List Qitem) (n : ℕ) → n < place at_default xs → plain_at xs n ≡ false
none_before [] n h = refl
none_before (x ∷ xs) zero h = ground (arith, default_place-cons x xs)
none_before (x ∷ xs) (suc n) h = ground (arith, default_place-cons x xs, none_before xs n)

stops_at :
    (xs : List Qitem)
    → (place at_default xs ≡ length xs) ⊎ (plain_at xs (place at_default xs) ≡ true)
stops_at [] = inl default_place-nil
stops_at (x ∷ xs) = ground (arith, default_place-cons x xs, stops_at xs)

-- By default an item goes before the first directory that no move-first rule has marked, and to
-- the end if there is none: every item before its place is no such directory, and the item that
-- it pushes on, if any, is one.
pub default_place-first_plain :
    (xs : List Qitem)
    → ((n : ℕ) → n < place at_default xs → plain_at xs n ≡ false)
      × ((place at_default xs ≡ length xs) ⊎ (plain_at xs (place at_default xs) ≡ true))
default_place-first_plain xs = (none_before xs, stops_at xs)

-- The place that queue_insert counts and answers is within the queue, and the item that is spliced in
-- behind prev stands at it afterwards; taking it out there gives the items as they were. A number asks
-- for that place or, past it, for the end.
pub queue_insert-at_place :
    (lion : Lion) (q : Queue) (x : Qitem) (at : Option Text)
    → let (q', n) = queue_insert lion q x at in
      (n ≤ length q.items)
      × (get_elem? q'.items n ≡ some x)
      × (remove_at n q'.items ≡ q.items)
      × ((k : ℕ) → parse_position lion at ≡ at_nth k → n ≡ min k (length q.items))
unfolding queue_insert insert_item
queue_insert-at_place lion q x at =
    let p = parse_position lion at in
    (
      place-le p q.items,
      rw (spliced-insert_at x p q.items)
          (get_elem?-insert_at_self (place p q.items) x q.items (place-le p q.items)),
      rw (spliced-insert_at x p q.items)
          (remove_at-insert_at (place p q.items) x q.items (place-le p q.items)),
      λ k e. rw e (nth_place_lem k q.items),
    )
