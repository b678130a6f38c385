-- ===== src/Queue/Requests/Cases.antt =====
-- The branches of queue_del, queue_move and queue_xdupe_item, as rules for a property of the queue.
use fxp_one.Prelude.{
  ℕ, zero, suc, ◌+◌, ◌-◌, ◌^◌, not, ◌&&◌, Option, none, some, ◌≡◌, refl, Text, atoi, ◌==◌, u32,
  remove_at, get_elem?, Bool-cases, Option-cases, inl, inr,
}
use fxp_one.Lion.{Lion}
use fxp_one.Queue.Types.{is_idle, Qitem, Queue}
use fxp_one.Queue.Insert.{queue_insert}
use fxp_one.Queue.Requests.{
  take_item, queue_del, move_target, move_item, place_by_dst, xdupe_at, queue_xdupe_item,
}

-- The queue with the item at a place unchained.
unfoldable pub without : Queue → ℕ → Queue
without q n = record q { items = remove_at n q.items; num_items = u32 (q.num_items + (2 ^ 32 - 1)) }

-- The search found an item at the place.
pub take_item-some :
    (q : Queue) (n : ℕ) (x : Qitem)
    → get_elem? q.items n ≡ some x
    → take_item q n ≡ some (without q n, x)
unfolding take_item without
take_item-some q n x e = rw e

pub del_cases {ℓ} :
    (P : Queue → Type ℓ) (q : Queue) (at : Text)
    → P q
    → ((x : Qitem) → get_elem? q.items (atoi at) ≡ some x → P (without q (atoi at)))
    → P (queue_del q at).0
unfolding queue_del without take_item
del_cases P q at same found = elim (Bool-cases (not (is_idle q.state) && atoi at == 0)) [
  | inl active ↦ rw active same
  | inr free ↦ elim (Option-cases (get_elem? q.items (atoi at))) [
    | inl e ↦ rw (free, e) same
    | inr (x, e) ↦ rw (free, e) (found x e)
  ]
]

module _ (lion : Lion) where
  pub move_cases {ℓ} :
      (P : Queue → Type ℓ) (q : Queue) (n : ℕ) (to : Text)
      → P q
      → ((x : Qitem)
          → get_elem? q.items n ≡ some x
          → P (queue_insert lion (without q n) x (some (move_target lion q to))).0)
      → P (move_item lion q n to).0
  unfolding move_item without take_item
  move_cases P q n to same found = elim (Bool-cases (not (is_idle q.state) && n == 0)) [
    | inl active ↦ rw active same
    | inr free ↦ elim (Option-cases (get_elem? q.items n)) [
      | inl e ↦ rw (free, e) same
      | inr (x, e) ↦ rw (free, e) (found x e)
    ]
  ]

  pub xdupe_same : (q : Queue) (name : Text) → queue_xdupe_item lion q name ≡ q
  unfolding queue_xdupe_item
  xdupe_same q name = by_place (place_by_dst lion (lion.url_decode name) q.items)
    where
      by_place : (o : Option ℕ) → xdupe_at lion q o ≡ q
      by_place none = refl
      by_place (some zero) = refl
      by_place (some (suc n)) = refl
