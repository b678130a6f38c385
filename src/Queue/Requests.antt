-- ===== src/Queue/Requests.antt =====
-- engine/queue.c: queue_del, queue_move, queue_getqitem_byname, queue_xdupe_item.
pub mod Cases
pub mod Moves
use fxp_one.Prelude.{
  ℕ, zero, suc, ◌+◌, ◌-◌, ◌^◌, ◌%◌, Bool, true, false, not, ◌&&◌, List, [], ◌∷◌, Option, none, some,
  Text, codes, atoi, print_number, ◌==◌, if◌then◌else◌, u32, ℤ, pos, is_neg, ◌++◌, length,
  insert_at, remove_at, get_elem?,
}
use fxp_one.Lion.{Lion}
use fxp_one.File.{File, blank_file, file_dupe}
use fxp_one.Queue.Types.{
  QueueState, queue_idle, is_idle, QitemType, type_none, type_file, type_directory, type_stop,
  is_directory, is_stop, is_file, Qitem, blank_item, Queue, queue_newnode, Reply, done, active_item,
  no_such_item, Position, at_first, at_last, at_default, at_nth,
}
use fxp_one.Queue.Insert.{queue_insert, insert_item, queue_poptop, parse_position}

-- The search loop that queue_del and queue_move share, as far as unchaining the node.
unchain : Queue → ℕ → Option Qitem → Option (Queue × Qitem)
unchain q n none = none
unchain q n (some x) =
    some (record q { items = remove_at n q.items; num_items = u32 (q.num_items + (2 ^ 32 - 1)) }, x)

unfoldable pub take_item : Queue → ℕ → Option (Queue × Qitem)
unfolding unchain
take_item q n = unchain q n (get_elem? q.items n)

del_found : Queue → Option (Queue × Qitem) → Queue × Reply
del_found q none = (q, no_such_item)
del_found q (some (q', x)) = (q', done)

unfoldable pub queue_del : Queue → Text → Queue × Reply
unfolding del_found atoi
queue_del q at =
    if not (is_idle q.state) && atoi at == 0
    then (q, active_item)
    else del_found q (take_item q (atoi at))

next_place : Option ℕ → Option ℕ
next_place none = none
next_place (some n) = some (suc n)

module _ (lion : Lion) where
  open lion use {same_text}

  move_found : Queue → Text → Option (Queue × Qitem) → Queue × Reply
  unfolding queue_insert
  move_found q to none = (q, no_such_item)
  move_found q to (some (q', x)) = ((queue_insert lion q' x (some to)).0, done)

  -- While the queue runs, a target that is no number above 0 becomes "1".
  unfoldable pub move_target : Queue → Text → Text
  unfolding atoi
  move_target q to = if not (is_idle q.state) && atoi to == 0 then codes "1" else to

  -- queue_move behind atoi(from)
  unfoldable pub move_item : Queue → ℕ → Text → Queue × Reply
  unfolding move_found move_target
  move_item q n to =
      if not (is_idle q.state) && n == 0
      then (q, active_item)
      else move_found q (move_target q to) (take_item q n)

  unfoldable pub queue_move : Queue → Text → Text → Queue × Reply
  unfolding move_item atoi
  queue_move q from to = move_item q (atoi from) to

  same_name : Text → Option Text → Bool
  same_name n none = false
  same_name n (some m) = same_text n m

  -- queue_getqitem_byname with srcname NULL; none is -1
  unfoldable pub place_by_dst : Text → List Qitem → Option ℕ
  unfolding same_name next_place
  place_by_dst name [] = none
  place_by_dst name (x ∷ xs) =
      let rest = next_place (place_by_dst name xs) in
      if same_name name x.dst.name then some 0 else rest

  -- queue_move as its callers reach it: without a handle it returns at once.
  unfoldable pub queue_move_for : Bool → Queue → Text → Text → Queue × Reply
  unfolding queue_move
  queue_move_for has_handle q from to = if has_handle then queue_move q from to else (q, done)

  -- The place is printed into a buffer, and the handle is NULL.
  xdupe_at : Queue → Option ℕ → Queue
  unfolding queue_move_for
  xdupe_at q none = q
  xdupe_at q (some zero) = q
  xdupe_at q (some (suc n)) = (queue_move_for false q (print_number (suc n)) (codes "LAST")).0

  unfoldable pub queue_xdupe_item : Queue → Text → Queue
  unfolding xdupe_at
  queue_xdupe_item q name = xdupe_at q (place_by_dst (lion.url_decode name) q.items)
