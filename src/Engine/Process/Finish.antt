-- ===== src/Engine/Process/Finish.antt =====
-- engine/queue.c, queue_process: what becomes of an item that failed or is done, and a queue that is
-- empty or idle.
use fxp_one.Prelude.{
  ℕ, ◌+◌, ◌-◌, ◌^◌, Bool, false, List, [], ◌∷◌, ◌++◌, Option, none, some, Text, codes, leb, u32,
  ◌==◌, if◌then◌else◌, ◌>>=◌,
}
use fxp_one.Lion.{Lion}
use fxp_one.Queue.Types.{
  Side, north, south, QueueState, queue_idle, queue_start, queue_requeue_item, queue_error_item,
  Qitem, Queue, at_default,
}
use fxp_one.Session.Events.{phase_12_noop}
use fxp_one.Session.{no_flags}
use fxp_one.Engine.World.{
  World, Call, session, set_queue, set_state, hurry, notify, head_item, replace_head,
}
use fxp_one.Engine.Commands.{session_cmdq_new, crlf}
use fxp_one.Engine.World.{qs_failed_src, qs_failed_dst, qc_remove, qc_move, qc_empty, qc_idle}
use fxp_one.Queue.Insert.{insert_item, queue_poptop}

last_reason : List Text → Option Text
last_reason [] = none
last_reason (r ∷ []) = some r
last_reason (r ∷ q ∷ rs) = last_reason (q ∷ rs)

tell_failures : Qitem → World → World
unfolding last_reason
tell_failures x w =
    let w' =
      if x.src_failure == 0
      then w
      else notify (qs_failed_src (last_reason x.src_reasons) x.soft_errors) w in
    if x.dst_failure == 0
    then w'
    else notify (qs_failed_dst (last_reason x.dst_reasons) x.soft_errors) w'

-- The second failure of an item is its last.
count_failure : Qitem → World → World
count_failure x w =
    let n = u32 (x.soft_errors + 1) in
    set_queue
      (record w.queue {
        items = replace_head w.queue.items (record x { soft_errors = n });
        state = if leb 2 n then queue_error_item else queue_requeue_item;
      })
      w

unfoldable pub process_item_failed : World → World
unfolding tell_failures count_failure
process_item_failed w = elim (head_item w.queue.items) [
  | none ↦ hurry (set_state queue_start w)
  | some x ↦ hurry (count_failure x (tell_failures x w))
]

abbrev next_state : Queue → QueueState
next_state q = if q.stop then queue_idle else queue_start

unfoldable pub hurry_on : Bool → World → World
hurry_on stop w = if stop then w else hurry w

move_back : Queue → Qitem → List Qitem → Queue × ℕ
move_back q x rest =
    insert_item (record q { items = rest; num_items = u32 (q.num_items + (2 ^ 32 - 1)) }) x
      at_default

requeue : Qitem → List Qitem → World → World
unfolding move_back hurry_on
requeue x rest w =
    let (q, npos) = move_back w.queue x rest in
    hurry_on w.queue.stop (
      set_queue (record q { src_mgr = none; dst_mgr = none; state = next_state q })
        (notify (qc_move npos) w))

unfoldable pub process_requeue_item : World → Option World
unfolding requeue
process_requeue_item w = elim w.queue.items [ [] ↦ none | x ∷ rest ↦ some (requeue x rest w) ]

-- A queue that stops here keeps its source and destination.
to_errors : Qitem → List Qitem → World → World
unfolding hurry_on
to_errors x rest w =
    let q = w.queue in
    hurry_on q.stop (
      set_queue
        (record q {
          items = rest;
          err_items = x ∷ q.err_items;
          num_items = u32 (q.num_items + (2 ^ 32 - 1));
          num_errors = u32 (q.num_errors + 1);
          state = next_state q;
          src_mgr = if q.stop then q.src_mgr else none;
          dst_mgr = if q.stop then q.dst_mgr else none;
        })
        (notify qc_remove w))

unfoldable pub process_error_item : World → Option World
unfolding to_errors
process_error_item w = elim w.queue.items [ [] ↦ none | x ∷ rest ↦ some (to_errors x rest w) ]

unfoldable pub process_remove_item : World → World
unfolding hurry_on
process_remove_item w =
    let q = queue_poptop w.queue in
    hurry_on q.stop (
      set_queue (record q { src_mgr = none; dst_mgr = none; state = next_state q })
        (notify qc_remove w))

-- QUEUE_IDLE
unfoldable pub process_idle : World → World
process_idle w =
    if w.queue.stop then notify qc_idle (set_queue (record w.queue { stop = false }) w) else w

module _ (lion : Lion) (call : Call) where
  unfoldable pub quit : Side → World → Option World
  quit side w = elim (session side w) [
    | none ↦ some w
    | some s ↦ session_cmdq_new call side no_flags phase_12_noop (codes "QUIT" ++ crlf) w
  ]

  unfoldable pub process_empty : World → Option World
  unfolding quit
  process_empty w = do
    w ← quit north (notify (qc_empty w.queue.num_errors) w)
    w ← quit south w
    some (set_state queue_idle w)
