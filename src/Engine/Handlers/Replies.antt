-- ===== src/Engine/Handlers/Replies.antt =====
-- engine/handler.c: the tests on reply codes and lines that handler_queue makes, and what it does when
-- a session is lost.
use fxp_one.Prelude.{
  ℕ, ◌%◌, ◌^◌, Bool, false, ◌&&◌, [], ◌∷◌, Option, none, some, Text, codes, ℤ, pos, negsuc, leb,
  ◌==◌, if◌then◌else◌, starts_with, skip_spaces, is_digit, read_digits, drop,
}
use fxp_one.Queue.Types.{Side}
use fxp_one.Queue.Errors.{queue_adderr_src, queue_adderr_dst}
use fxp_one.Engine.World.{World, manager, set_manager, set_queue, on_head, drop_session}

abbrev pub is_2xx : ℤ → Bool
is_2xx (pos r) = leb 200 r && leb r 299
is_2xx (negsuc n) = false

abbrev pub is_failure : ℤ → Bool
is_failure (pos r) = leb 500 r
is_failure (negsuc n) = false

abbrev pub is_reply : ℤ → ℕ → Bool
is_reply (pos r) n = r == n
is_reply (negsuc m) n = false

first_number : Text → Option ℕ
first_number [] = none
first_number (c ∷ cs) = if is_digit c then some (read_digits 0 (c ∷ cs) % 2 ^ 64) else none

-- sscanf(line, "213 %llu", &size) == 1; a sign before the number is not modelled, and one
-- that 64 bits do not hold is taken modulo 2^64
unfoldable pub scan_size : Text → Option ℕ
unfolding first_number starts_with skip_spaces
scan_size line =
    if starts_with (codes "213") line then first_number (skip_spaces (drop 3 line)) else none

-- The text up to the first ')'.
unfoldable pub up_to_close : Text → Option Text
up_to_close [] = none
up_to_close (c ∷ cs) = elim (up_to_close cs) [
  | none ↦ if c == b')' then some [] else none
  | some t ↦ if c == b')' then some [] else some (c ∷ t)
]

-- strchr(line, '(') + 1
unfoldable pub behind_open : Text → Option Text
behind_open [] = none
behind_open (c ∷ cs) = if c == b'(' then some cs else behind_open cs

-- queue_adderr_src(queue->items, line) and queue_adderr_dst(queue->items, line)
unfoldable pub fail_src : Text → World → Option World
fail_src line w = on_head (λ x. queue_adderr_src x line) w

unfoldable pub fail_dst : Text → World → Option World
fail_dst line w = on_head (λ x. queue_adderr_dst x line) w

-- The session is given up, and the queue forgets its id.
unfoldable pub queue_lost : Side → World → World
queue_lost side w =
    let m = manager side w in
    let q = w.queue in
    set_queue
      (record q {
        north_sid = if m.id == q.north_sid then 0 else q.north_sid;
        south_sid = if m.id == q.south_sid then 0 else q.south_sid;
      })
      (set_manager side (drop_session m) w)
