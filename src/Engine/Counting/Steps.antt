-- ===== src/Engine/Counting/Steps.antt =====
-- One step of the queue, GO and STOP keep the counters.
use fxp_one.Prelude.{ℕ, zero, suc, List, [], ◌∷◌, Option, none, some, ◌≡◌, refl, ◌==◌}
use fxp_one.Lion.{Lion}
use fxp_one.Queue.Types.{
  Side, north, south, Qitem, Queue, QitemType, type_none, type_file, type_directory, type_stop,
  QueueState, queue_idle, queue_start, queue_isconnected, queue_start_next_item, queue_active,
  queue_file_start, phase_1_start, phase_1_idle, phase_2_start, phase_2_wait, phase_2_disable,
  phase_3_start, phase_3_wait, phase_4_start, phase_5_start, phase_5_rest_wait, phase_6_start,
  phase_7_start, phase_7_wait, phase_8_start, phase_8_wait, phase_9_start, phase_9_rest,
  phase_10_start, phase_10_wait, phase_11_start, phase_11_wait, phase_12_start, directory_start,
  directory_phase_1_idle, directory_phase_2_start, directory_phase_2_mkd, directory_phase_2_compare,
  queue_item_failed, queue_requeue_item, queue_error_item, queue_remove_item, queue_empty,
}
use fxp_one.Queue.Accounting.{IsCounted}
use fxp_one.Session.{Session, handler_queue}
use fxp_one.Engine.World.{World, Call, session, notify, both_idle}
use fxp_one.Engine.Commands.{session_set_handler, session_abor}
use fxp_one.Engine.Process.{
  dispatch, step_checked, queue_process, queue_stop, queue_go, stop_level, check_sessions,
  detects_failure, process_idle, process_start, process_isconnected, connect_side, fresh_session,
  process_start_next_item, process_active, begin_type, process_file_start, process_item_failed,
  process_requeue_item, process_error_item, process_empty, quit, set_sid,
}
use fxp_one.Engine.Outcomes.{
  failed-IsCounted, requeued-IsCounted, errored-IsCounted, removed-IsCounted,
}
use fxp_one.Engine.Counting.{
  IsCountedWorld, Keeps, IsKeeping, keeps_rules, counted_like, counted_if, Keeps-some, Keeps-none,
  Keeps-known, Keeps-if, Keeps-at_item, set_manager-counted,
}
use fxp_one.Engine.Counting.Sessions.{
  command_rules, session_set_handler-Keeps, session_setclose-Keeps,
}
use fxp_one.Engine.Counting.Replies.{notify-counted}
use fxp_one.Engine.Counting.Preparing.{
  phase_1_start-Keeps, phase_1_idle-Keeps, phase_2_start-Keeps, phase_2_wait-Keeps,
  phase_2_disable-Keeps, phase_3_start-Keeps, phase_3_wait-Keeps, phase_4_start-Keeps,
  phase_5_start-Keeps, phase_5_rest_wait-Keeps, phase_6_start-Keeps, phase_7_start-Keeps,
  phase_7_wait-Keeps, phase_8_start-Keeps, phase_8_wait-Keeps, phase_9_start-Keeps,
  phase_9_rest-Keeps,
}
use fxp_one.Engine.Counting.Transferring.{
  phase_10_start-Keeps, phase_10_wait-Keeps, phase_11_start-Keeps, phase_11_wait-Keeps,
  phase_12_start-Keeps, directory_start-Keeps, directory_phase_1_idle-Keeps,
  directory_phase_2_start-Keeps, directory_phase_2_mkd-Keeps, directory_phase_2_compare-Keeps,
}

idle-counted : (w : World) → IsCountedWorld w → IsCountedWorld (process_idle w)
unfolding process_idle notify
idle-counted w c = counted_if w.queue.stop _ w (search counted_like) c

start-counted : (w : World) → IsCountedWorld w → IsCountedWorld (process_start w)
unfolding process_start
start-counted w c = search counted_like

next_item-counted : (w : World) → IsCountedWorld w → IsCountedWorld (process_start_next_item w)
unfolding process_start_next_item
next_item-counted w c = counted_if (both_idle w) _ w (search counted_like) c

begin_type-IsCounted : (t : QitemType) (q : Queue) → IsCounted q → IsCounted (begin_type t q)
unfolding begin_type
begin_type-IsCounted type_none q c = record {
  items_counted = c.items_counted;
  errors_counted = c.errors_counted;
}
begin_type-IsCounted type_file q c = record {
  items_counted = c.items_counted;
  errors_counted = c.errors_counted;
}
begin_type-IsCounted type_directory q c = record {
  items_counted = c.items_counted;
  errors_counted = c.errors_counted;
}
begin_type-IsCounted type_stop q c = record {
  items_counted = c.items_counted;
  errors_counted = c.errors_counted;
}

active-Keeps : (w : World) → IsCountedWorld w → Keeps (process_active w)
unfolding process_active
active-Keeps w c = Keeps-if (w.queue.num_items == 0) _ _ (search keeps_rules) (
    Keeps-if w.queue.stop _ _ (search keeps_rules) (
      Keeps-at_item w _ (λ x. Keeps-some _ (record {
        counted = begin_type-IsCounted x.type _ (record {
          items_counted = c.counted.items_counted;
          errors_counted = c.counted.errors_counted;
        });
      }))))

file_start-Keeps : (w : World) → IsCountedWorld w → Keeps (process_file_start w)
unfolding process_file_start notify
file_start-Keeps w c = search keeps_rules

failed-counted : (w : World) → IsCountedWorld w → IsCountedWorld (process_item_failed w)
unfolding process_item_failed
failed-counted w c = by_items w.queue.items refl
  where
    by_items : (is : List Qitem) → w.queue.items ≡ is → IsCountedWorld (process_item_failed w)
    by_items [] e = rw e (record {
      counted = record {
        items_counted = rw e at c.counted.items_counted;
        errors_counted = c.counted.errors_counted;
      };
    })
    by_items (x ∷ rest) e = record { counted = failed-IsCounted w x rest e c.counted }

requeue-Keeps : (w : World) → IsCountedWorld w → Keeps (process_requeue_item w)
unfolding process_requeue_item
requeue-Keeps w c = by_items w.queue.items refl
  where
    by_items : (is : List Qitem) → w.queue.items ≡ is → Keeps (process_requeue_item w)
    by_items [] e = rw e Keeps-none
    by_items (x ∷ rest) e =
        let (u, f, d) = requeued-IsCounted w x rest e c.counted in
        Keeps-known (process_requeue_item w) u f (record { counted = d })

error-Keeps : (w : World) → IsCountedWorld w → Keeps (process_error_item w)
unfolding process_error_item
error-Keeps w c = by_items w.queue.items refl
  where
    by_items : (is : List Qitem) → w.queue.items ≡ is → Keeps (process_error_item w)
    by_items [] e = rw e Keeps-none
    by_items (x ∷ rest) e =
        let (u, f, d) = errored-IsCounted w x rest e c.counted in
        Keeps-known (process_error_item w) u f (record { counted = d })

module _ (lion : Lion) (call : Call) (good : IsKeeping call) where
  set_sid-counted :
      (side : Side) (w : World) → IsCountedWorld w → IsCountedWorld (set_sid lion call side w)
  set_sid-counted north w c = search counted_like
  set_sid-counted south w c = search counted_like

  connect_side-Keeps :
      (side : Side) (w : World) → IsCountedWorld w → Keeps (connect_side lion call side w)
  unfolding connect_side fresh_session
  connect_side-Keeps side w c = by_session (session side w)
    where
      fresh : IsCountedWorld (fresh_session lion call side w)
      fresh = set_manager-counted side _ w c

      by_session :
          (o : Option Session)
          → Keeps (elim o [
            | none ↦ some (set_sid lion call side (fresh_session lion call side w))
            | some s ↦ session_set_handler call side (some handler_queue) w
          ])
      by_session none = Keeps-some _ (set_sid-counted side _ fresh)
      by_session (some s) = session_set_handler-Keeps call good side (some handler_queue) w c

  isconnected-Keeps : (w : World) → IsCountedWorld w → Keeps (process_isconnected lion call w)
  unfolding process_isconnected
  isconnected-Keeps w c = search (keeps_rules, connect_side-Keeps)

  quit-Keeps : (side : Side) (w : World) → IsCountedWorld w → Keeps (quit lion call side w)
  unfolding quit
  quit-Keeps side w c = search command_rules

  empty-Keeps : (w : World) → IsCountedWorld w → Keeps (process_empty lion call w)
  unfolding process_empty
  empty-Keeps w c = search (keeps_rules, quit-Keeps, notify-counted)

  dispatch-Keeps :
      (st : QueueState) (w : World) → IsCountedWorld w → Keeps (dispatch lion call st w)
  unfolding dispatch
  dispatch-Keeps queue_idle w c = Keeps-some _ (idle-counted w c)
  dispatch-Keeps queue_start w c = Keeps-some _ (start-counted w c)
  dispatch-Keeps queue_isconnected w c = isconnected-Keeps w c
  dispatch-Keeps queue_start_next_item w c = Keeps-some _ (next_item-counted w c)
  dispatch-Keeps queue_active w c = active-Keeps w c
  dispatch-Keeps queue_file_start w c = file_start-Keeps w c
  dispatch-Keeps phase_1_start w c = phase_1_start-Keeps lion call good w c
  dispatch-Keeps phase_1_idle w c = phase_1_idle-Keeps lion call good w c
  dispatch-Keeps phase_2_start w c = phase_2_start-Keeps lion call good w c
  dispatch-Keeps phase_2_wait w c = phase_2_wait-Keeps lion call good w c
  dispatch-Keeps phase_2_disable w c = phase_2_disable-Keeps lion call good w c
  dispatch-Keeps phase_3_start w c = phase_3_start-Keeps lion call good w c
  dispatch-Keeps phase_3_wait w c = phase_3_wait-Keeps lion call good w c
  dispatch-Keeps phase_4_start w c = phase_4_start-Keeps lion call good w c
  dispatch-Keeps phase_5_start w c = phase_5_start-Keeps lion call good w c
  dispatch-Keeps phase_5_rest_wait w c = phase_5_rest_wait-Keeps lion call good w c
  dispatch-Keeps phase_6_start w c = phase_6_start-Keeps lion call good w c
  dispatch-Keeps phase_7_start w c = phase_7_start-Keeps lion call good w c
  dispatch-Keeps phase_7_wait w c = phase_7_wait-Keeps lion call good w c
  dispatch-Keeps phase_8_start w c = phase_8_start-Keeps lion call good w c
  dispatch-Keeps phase_8_wait w c = phase_8_wait-Keeps lion call good w c
  dispatch-Keeps phase_9_start w c = phase_9_start-Keeps lion call good w c
  dispatch-Keeps phase_9_rest w c = phase_9_rest-Keeps lion call good w c
  dispatch-Keeps phase_10_start w c = phase_10_start-Keeps lion call good w c
  dispatch-Keeps phase_10_wait w c = phase_10_wait-Keeps lion call good w c
  dispatch-Keeps phase_11_start w c = phase_11_start-Keeps lion call good w c
  dispatch-Keeps phase_11_wait w c = phase_11_wait-Keeps lion call good w c
  dispatch-Keeps phase_12_start w c = phase_12_start-Keeps lion call good w c
  dispatch-Keeps directory_start w c = directory_start-Keeps lion call good w c
  dispatch-Keeps directory_phase_1_idle w c = directory_phase_1_idle-Keeps lion call good w c
  dispatch-Keeps directory_phase_2_start w c = directory_phase_2_start-Keeps lion call good w c
  dispatch-Keeps directory_phase_2_mkd w c = directory_phase_2_mkd-Keeps lion call good w c
  dispatch-Keeps directory_phase_2_compare w c = directory_phase_2_compare-Keeps lion call good w c
  dispatch-Keeps queue_item_failed w c = Keeps-some _ (failed-counted w c)
  dispatch-Keeps queue_requeue_item w c = requeue-Keeps w c
  dispatch-Keeps queue_error_item w c = error-Keeps w c
  dispatch-Keeps queue_remove_item w c =
      Keeps-some _ (record { counted = removed-IsCounted w c.counted })
  dispatch-Keeps queue_empty w c = empty-Keeps w c
  dispatch-Keeps _ w c = Keeps-some w c

  pub queue_process-Keeps : (w : World) → IsCountedWorld w → Keeps (queue_process lion call w)
  unfolding queue_process step_checked check_sessions
  queue_process-Keeps w c =
      let v = check_sessions w in
      dispatch-Keeps v.queue.state v (counted_if (detects_failure w) _ w (search counted_like) c)

  stop_level-Keeps :
      (level : ℕ) (w : World) → IsCountedWorld w → Keeps (stop_level lion call level w)
  unfolding stop_level session_abor
  stop_level-Keeps zero w c = search keeps_rules
  stop_level-Keeps (suc zero) w c = search keeps_rules
  stop_level-Keeps (suc (suc zero)) w c =
      search (keeps_rules, session_setclose-Keeps, queue_process-Keeps)
  stop_level-Keeps (suc (suc (suc n))) w c = search keeps_rules

  pub queue_stop-Keeps :
      (user level : ℕ) (w : World) → IsCountedWorld w → Keeps (queue_stop lion call user level w)
  unfolding queue_stop
  queue_stop-Keeps user level w c = search (keeps_rules, stop_level-Keeps)

pub queue_go-counted : (user : ℕ) (w : World) → IsCountedWorld w → IsCountedWorld (queue_go user w)
unfolding queue_go
queue_go-counted user w c = search counted_like
