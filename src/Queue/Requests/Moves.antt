-- ===== src/Queue/Requests/Moves.antt =====
-- What queue_move and queue_xdupe_item do to the order of the items.
use mathlib.Core.List.Perm
use fxp_one.Prelude.{
  ℕ, zero, suc, ◌≤◌, true, false, List, [], ◌∷◌, Option, some, ◌≡◌, refl, Text, codes, atoi,
  case_eq, to_lower, read_digits, is_space, is_digit, get_elem?, insert_at, remove_at,
  remove_at-perm, arith, Perm, Bool-cases, inl, inr,
}
use fxp_one.Lion.{Lion, CaseCompare}
use fxp_one.Queue.Types.{Qitem, Queue, is_idle, at_nth}
use fxp_one.Queue.Insert.{queue_insert, insert_item, place, spot, nth_spot, parse_position}
use fxp_one.Queue.Insert.Places.{spliced-perm, spliced-insert_at}
use fxp_one.Queue.Requests.{move_target, move_item, queue_move, queue_xdupe_item}
use fxp_one.Queue.Requests.Cases.{without, move_cases, xdupe_same}

module _ (lion : Lion) where
  insert-perm :
      (q : Queue) (x : Qitem) (at : Option Text)
      → Perm (x ∷ q.items) (queue_insert lion q x at).0.items
  unfolding queue_insert insert_item
  insert-perm q x at = spliced-perm x (parse_position lion at) q.items

  moved-perm :
      (q : Queue) (n : ℕ) (x : Qitem) (at : Option Text)
      → get_elem? q.items n ≡ some x
      → Perm q.items (queue_insert lion (without q n) x at).0.items
  unfolding without
  moved-perm q n x at e = Perm.trans (remove_at-perm n q.items e) (insert-perm (without q n) x at)

  move_item-perm : (q : Queue) (n : ℕ) (to : Text) → Perm q.items (move_item lion q n to).0.items
  move_item-perm q n to =
      move_cases lion (λ r. Perm q.items r.items) q n to (Perm.refl q.items)
        (λ x e. moved-perm q n x (some (move_target lion q to)) e)

  -- QMOVE and an X-DUPE report lose no item and add none: the items are a permutation of those
  -- before.
  pub moves-perm :
      (q : Queue)
      → ((from to : Text) → Perm q.items (queue_move lion q from to).0.items)
        × ((name : Text) → Perm q.items (queue_xdupe_item lion q name).items)
  unfolding queue_move
  moves-perm q = (
    λ from to. move_item-perm q (atoi from) to,
    λ name. rw (xdupe_same lion q name) (Perm.refl q.items),
  )

-- A word that begins with a letter is read as 0.
letter-atoi : (c : ℕ) (cs : Text) → b'A' ≤ c → atoi (c ∷ cs) ≡ 0
unfolding atoi is_space read_digits is_digit
letter-atoi c cs h = ground arith

lower-le : (c : ℕ) → b'a' ≤ to_lower c → b'A' ≤ c
unfolding to_lower
lower-le c h = ground arith

word-atoi : (w : ℕ) (ws t : Text) → b'a' ≤ to_lower w → case_eq (w ∷ ws) t ≡ true → atoi t ≡ 0
unfolding case_eq
word-atoi w ws [] h e = absurd (ground arith)
word-atoi w ws (c ∷ cs) h e = letter-atoi c cs (ground (arith, lower-le c))

no_word :
    (w : ℕ) (ws t : Text) (n : ℕ) → b'a' ≤ to_lower w → atoi t ≡ suc n → case_eq (w ∷ ws) t ≡ false
no_word w ws t n h e = elim (Bool-cases (case_eq (w ∷ ws) t)) [
  | inl word ↦ absurd (omega (arith, word-atoi w ws t h word))
  | inr other ↦ other
]

module _ (lion : Lion) (q : Queue) (to : Text) where
  zero-nth :
      CaseCompare lion
      → is_idle q.state ≡ false
      → atoi to ≡ 0
      → parse_position lion (some (move_target lion q to)) ≡ at_nth 1
  unfolding move_target parse_position case_eq
  zero-nth laws busy e = rw (
    busy,
    e,
    laws.same_text_lem (codes "FIRST") (codes "1"),
    laws.same_text_lem (codes "LAST") (codes "1"),
  )

  target_kept : (n : ℕ) → atoi to ≡ suc n → move_target lion q to ≡ to
  unfolding move_target
  target_kept n e = ground arith

  number-nth :
      (n : ℕ)
      → CaseCompare lion
      → is_idle q.state ≡ false
      → atoi to ≡ suc n
      → parse_position lion (some (move_target lion q to)) ≡ at_nth (suc n)
  unfolding parse_position to_lower
  number-nth n laws busy e =
      rw
        (
          target_kept n e,
          laws.same_text_lem (codes "FIRST") to,
          laws.same_text_lem (codes "LAST") to,
          no_word b'F' (codes "IRST") to n (omega arith) e,
          no_word b'L' (codes "AST") to n (omega arith) e,
          e,
        )
        (ground arith)

-- The target that a running queue uses is a number above 0.
pub target-nth :
    (lion : Lion) (q : Queue) (to : Text)
    → CaseCompare lion
    → is_idle q.state ≡ false
    → (k : ℕ) × (parse_position lion (some (move_target lion q to)) ≡ at_nth (suc k))
target-nth lion q to laws busy = by_number (atoi to) refl
  where
    by_number :
        (n : ℕ)
        → atoi to ≡ n
        → (k : ℕ) × (parse_position lion (some (move_target lion q to)) ≡ at_nth (suc k))
    by_number zero e = (0, zero-nth lion q to laws busy e)
    by_number (suc n) e = (n, number-nth lion q to n laws busy e)

-- Taking out an item behind the first and putting it at a number above 0 keeps the first.
first_kept :
    (k n : ℕ) (x : Qitem) (xs : List Qitem)
    → get_elem? xs (suc n) ≡ some x
    → get_elem?
        (insert_at (place (at_nth (suc k)) (remove_at (suc n) xs)) x (remove_at (suc n) xs))
        0
      ≡ get_elem? xs 0
unfolding place spot nth_spot
first_kept k n x [] e = absurd (ground arith)
first_kept k n x (y ∷ ys) e = refl

module _ (lion : Lion) (laws : CaseCompare lion) (q : Queue) (busy : is_idle q.state ≡ false) where
  moved_first :
      (n : ℕ) (x : Qitem) (to : Text)
      → get_elem? q.items (suc n) ≡ some x
      → get_elem? (queue_insert lion (without q (suc n)) x (some (move_target lion q to))).0.items 0
        ≡ get_elem? q.items 0
  unfolding queue_insert insert_item without
  moved_first n x to e =
      let (k, p) = target-nth lion q to laws busy in
      rw (p, spliced-insert_at x (at_nth (suc k)) (remove_at (suc n) q.items))
        (first_kept k n x q.items e)

  move_item-first :
      (n : ℕ) (to : Text) → get_elem? (move_item lion q n to).0.items 0 ≡ get_elem? q.items 0
  unfolding move_item
  move_item-first zero to = rw busy refl
  move_item-first (suc n) to =
      move_cases lion (λ r. get_elem? r.items 0 ≡ get_elem? q.items 0) q (suc n) to refl
        (λ x e. moved_first n x to e)

  -- While a queue runs, QMOVE leaves the item that is being transferred at the head of the queue,
  -- whatever positions it names, and an X-DUPE report of the destination changes nothing in the queue,
  -- so that the duplicate that it names keeps its place.
  pub moves-keep_active :
      ((from to : Text) → get_elem? (queue_move lion q from to).0.items 0 ≡ get_elem? q.items 0)
      × ((name : Text) → queue_xdupe_item lion q name ≡ q)
  unfolding queue_move
  moves-keep_active = (λ from to. move_item-first (atoi from) to, λ name. xdupe_same lion q name)
