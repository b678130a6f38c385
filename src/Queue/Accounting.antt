-- ===== src/Queue/Accounting.antt =====
-- The counters num_items and num_errors against the two lists, under every operation on them.
use fxp_one.Prelude.{
  ℕ, Option, some, ◌≡◌, length, get_elem?, length-remove_at, get_elem?-lt, arith, u32, Text, atoi,
}
use fxp_one.Lion.{Lion}
use fxp_one.Queue.Types.{Qitem, Queue, Position}
use fxp_one.Queue.Insert.{insert_item, queue_poptop, queue_insert, parse_position}
use fxp_one.Queue.Insert.Places.{length-spliced}
use fxp_one.Queue.Requests.Cases.{without, del_cases, move_cases, xdupe_same}
use fxp_one.Queue.Requests.{queue_del, move_item, queue_move, queue_xdupe_item}

-- num_items and num_errors are the lengths of the lists, as unsigned ints.
pub record IsCounted (q : Queue) : Type 0 where
  pub items_counted : q.num_items ≡ u32 (length q.items)
  pub errors_counted : q.num_errors ≡ u32 (length q.err_items)

pub insert_item-IsCounted :
    (q : Queue) (x : Qitem) (p : Position) → IsCounted q → IsCounted (insert_item q x p).0
unfolding insert_item
insert_item-IsCounted q x p v = record {
  items_counted = omega (arith, length-spliced x p q.items);
  errors_counted = v.errors_counted;
}

queue_insert-IsCounted :
    (lion : Lion) (q : Queue) (x : Qitem) (at : Option Text)
    → IsCounted q
    → IsCounted (queue_insert lion q x at).0
unfolding queue_insert
queue_insert-IsCounted lion q x at v = insert_item-IsCounted q x (parse_position lion at) v

-- What is left when the item at a place is unchained.
without-IsCounted :
    (q : Queue) (n : ℕ) {x : Qitem}
    → get_elem? q.items n ≡ some x
    → IsCounted q
    → IsCounted (without q n)
unfolding without
without-IsCounted q n e v = record {
  items_counted =
      omega (arith, length-remove_at n q.items (get_elem?-lt n q.items e), v.items_counted);
  errors_counted = v.errors_counted;
}

pub poptop-IsCounted : (q : Queue) → IsCounted q → IsCounted (queue_poptop q)
unfolding queue_poptop
poptop-IsCounted q v = ground arith

del-IsCounted : (q : Queue) (at : Text) → IsCounted q → IsCounted (queue_del q at).0
del-IsCounted q at v = del_cases IsCounted q at v (λ x e. without-IsCounted q (atoi at) e v)

move-IsCounted :
    (lion : Lion) (q : Queue) (n : ℕ) (to : Text)
    → IsCounted q
    → IsCounted (move_item lion q n to).0
move-IsCounted lion q n to v =
    move_cases lion IsCounted q n to v
      (λ x e. queue_insert-IsCounted lion (without q n) x _ (without-IsCounted q n e v))

pub xdupe-IsCounted :
    (lion : Lion) (q : Queue) (name : Text) → IsCounted q → IsCounted (queue_xdupe_item lion q name)
xdupe-IsCounted lion q name v = rw (xdupe_same lion q name) v

-- Every operation of the protocol on the list of items keeps num_items and num_errors equal to the
-- lengths of the two lists: insertion, removal of the top, QDEL, QMOVE and an X-DUPE report.
pub requests-IsCounted :
    (lion : Lion) (q : Queue)
    → IsCounted q
    → ((x : Qitem) (at : Option Text) → IsCounted (queue_insert lion q x at).0)
      × IsCounted (queue_poptop q)
      × ((at : Text) → IsCounted (queue_del q at).0)
      × ((from to : Text) → IsCounted (queue_move lion q from to).0)
      × ((name : Text) → IsCounted (queue_xdupe_item lion q name))
unfolding queue_move
requests-IsCounted lion q v = (
  λ x at. queue_insert-IsCounted lion q x at v,
  poptop-IsCounted q v,
  λ at. del-IsCounted q at v,
  λ from to. move-IsCounted lion q (atoi from) to v,
  λ name. xdupe-IsCounted lion q name v,
)
