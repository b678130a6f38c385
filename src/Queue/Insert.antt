-- ===== src/Queue/Insert.antt =====
-- engine/queue.c: queue_str2type, queue_type2str, queue_insert, queue_poptop.
pub mod Places
use fxp_one.Prelude.{
  ℕ, zero, suc, ◌+◌, ◌-◌, ◌^◌, List, [], ◌∷◌, Option, none, some, Text, codes, atoi, ◌==◌,
  if◌then◌else◌, u32, is_neg, ◌++◌,
}
use fxp_one.Lion.{Lion}
use fxp_one.Queue.Types.{
  QitemType, type_file, type_directory, type_stop, is_directory, Qitem, Queue, Position, at_first,
  at_last, at_default, at_nth,
}

module _ (lion : Lion) where
  open lion use {same_text}

  read_position : Text → Position
  unfolding atoi
  read_position at =
      if same_text (codes "FIRST") at
      then at_first
      else if same_text (codes "LAST") at
      then at_last
      else if atoi at == 0
      then at_default
      else at_nth (atoi at)

  unfoldable pub parse_position : Option Text → Position
  unfolding read_position
  parse_position none = at_default
  parse_position (some at) = read_position at

  read_type : Text → QitemType
  read_type [] = type_file
  read_type (c ∷ cs) =
      if same_text (codes "STOP") (c ∷ cs)
      then type_stop
      else if same_text (codes "DIRECTORY") (c ∷ cs)
      then type_directory
      else type_file

  unfoldable pub queue_str2type : Option Text → QitemType
  unfolding read_type
  queue_str2type none = type_file
  queue_str2type (some t) = read_type t

unfoldable pub queue_type2str : QitemType → Text
queue_type2str type_directory = codes "DIRECTORY"
queue_type2str type_stop = codes "STOP"
queue_type2str _ = codes "FILE"

-- Where a loop of the switch ends: the items up to prev, those from node on, and pos.
abbrev pub Spot : Type 0
Spot = List Qitem × List Qitem × ℕ

-- prev = node, node = node->next, pos++
abbrev pub step_over : Qitem → Spot → Spot
step_over x (before, after, pos) = (x ∷ before, after, suc pos)

abbrev stop_at : List Qitem → Spot
stop_at xs = ([], xs, 0)

-- The loop of each case of the switch. The recursion gives the rest of the loop, seen from its start.
unfoldable pub last_spot : List Qitem → Spot
last_spot [] = stop_at []
last_spot (x ∷ xs) = step_over x (last_spot xs)

unfoldable pub nth_spot : ℕ → List Qitem → Spot
nth_spot n [] = stop_at []
nth_spot zero (x ∷ xs) = stop_at (x ∷ xs)
nth_spot (suc n) (x ∷ xs) = step_over x (nth_spot n xs)

unfoldable pub default_spot : List Qitem → Spot
default_spot [] = stop_at []
default_spot (x ∷ xs) =
    let rest = step_over x (default_spot xs) in
    if is_neg x.weight then rest else if is_directory x.type then stop_at (x ∷ xs) else rest

unfoldable pub spot : Position → List Qitem → Spot
unfolding last_spot nth_spot default_spot
spot at_first xs = stop_at xs
spot at_last xs = last_spot xs
spot (at_nth n) xs = nth_spot n xs
spot at_default xs = default_spot xs

-- The place that is answered.
unfoldable pub place : Position → List Qitem → ℕ
unfolding spot
place p xs = (spot p xs).2

-- Behind prev, or at the head of the list without one.
unfoldable pub spliced : Qitem → Position → List Qitem → List Qitem
unfolding spot
spliced item p xs = let (before, after, pos) = spot p xs in before ++ item ∷ after

unfoldable pub insert_item : Queue → Qitem → Position → Queue × ℕ
unfolding spliced place
insert_item q item p =
    let n = place p q.items in
    (record q { items = spliced item p q.items; num_items = u32 (q.num_items + 1) }, n)

-- queue_poptop
pop_items : List Qitem → Queue → Queue
pop_items [] q = q
pop_items (x ∷ xs) q = record q { items = xs; num_items = u32 (q.num_items + (2 ^ 32 - 1)) }

unfoldable pub queue_poptop : Queue → Queue
unfolding pop_items
queue_poptop q = if q.num_items == 0 then q else pop_items q.items q

module _ (lion : Lion) where
  unfoldable pub queue_insert : Queue → Qitem → Option Text → Queue × ℕ
  queue_insert q item at = insert_item q item (parse_position lion at)
