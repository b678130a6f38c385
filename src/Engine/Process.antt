-- ===== src/Engine/Process.antt =====
-- engine/queue.c: queue_process, one step of a queue, and the requests GO and STOP.
mod Begin
mod Secure
mod Prepare
mod Transfer
mod Directory
mod Finish
unfoldable pub use Begin.*
unfoldable pub use Secure.*
unfoldable pub use Prepare.*
unfoldable pub use Transfer.*
unfoldable pub use Directory.*
unfoldable pub use Finish.*
use fxp_one.Prelude.{
  ℕ, zero, suc, Bool, true, false, Option, none, some, Text, codes, if◌then◌else◌, ◌>>=◌,
}
use fxp_one.Lion.{Lion}
use fxp_one.Queue.Types.{
  QueueState, queue_idle, queue_start, queue_isconnected, queue_start_next_item, queue_active,
  queue_file_start, phase_1_start, phase_1_idle, phase_2_start, phase_2_wait, phase_2_disable,
  phase_3_start, phase_3_wait, phase_4_start, phase_5_start, phase_5_rest_wait, phase_6_start,
  phase_7_start, phase_7_wait, phase_8_start, phase_8_wait, phase_9_start, phase_9_rest,
  phase_10_start, phase_10_wait, phase_11_start, phase_11_wait, phase_12_start, directory_start,
  directory_phase_1_idle, directory_phase_2_start, directory_phase_2_mkd, directory_phase_2_compare,
  queue_item_failed, queue_requeue_item, queue_error_item, queue_remove_item, queue_empty, Side,
  north, south, Queue,
}
use fxp_one.Engine.World.{World, Call, Manager, set_queue, set_state, Notice, request_done, tell}
use fxp_one.Engine.Commands.{session_setclose, session_abor}
use fxp_one.Engine.Handlers.{deliver}

module _ (lion : Lion) (call : Call) where
  -- The switch on the state.
  unfoldable pub dispatch : QueueState → World → Option World
  dispatch queue_idle w = some (process_idle w)
  dispatch queue_start w = some (process_start w)
  dispatch queue_isconnected w = process_isconnected lion call w
  dispatch queue_start_next_item w = some (process_start_next_item w)
  dispatch queue_active w = process_active w
  dispatch queue_file_start w = process_file_start w
  dispatch phase_1_start w = process_phase_1_start lion call w
  dispatch phase_1_idle w = process_phase_1_idle lion call w
  dispatch phase_2_start w = process_phase_2_start lion call w
  dispatch phase_2_wait w = process_phase_2_wait lion call w
  dispatch phase_2_disable w = process_phase_2_disable lion call w
  dispatch phase_3_start w = process_phase_3_start lion call w
  dispatch phase_3_wait w = process_phase_3_wait lion call w
  dispatch phase_4_start w = process_phase_4_start lion call w
  dispatch phase_5_start w = process_phase_5_start lion call w
  dispatch phase_5_rest_wait w = process_phase_5_rest_wait lion call w
  dispatch phase_6_start w = process_phase_6_start lion call w
  dispatch phase_7_start w = process_phase_7_start lion call w
  dispatch phase_7_wait w = process_phase_7_wait lion call w
  dispatch phase_8_start w = process_phase_8_start lion call w
  dispatch phase_8_wait w = process_phase_8_wait lion call w
  dispatch phase_9_start w = process_phase_9_start lion call w
  dispatch phase_9_rest w = process_phase_9_rest lion call w
  dispatch phase_10_start w = process_phase_10_start lion call w
  dispatch phase_10_wait w = process_phase_10_wait lion call w
  dispatch phase_11_start w = process_phase_11_start lion call w
  dispatch phase_11_wait w = process_phase_11_wait lion call w
  dispatch phase_12_start w = process_phase_12_start lion call w
  dispatch directory_start w = process_directory_start lion call w
  dispatch directory_phase_1_idle w = process_directory_phase_1_idle lion call w
  dispatch directory_phase_2_start w = process_directory_phase_2_start lion call w
  dispatch directory_phase_2_mkd w = process_directory_phase_2_mkd lion call w
  dispatch directory_phase_2_compare w = process_directory_phase_2_compare lion call w
  dispatch queue_item_failed w = some (process_item_failed w)
  dispatch queue_requeue_item w = process_requeue_item w
  dispatch queue_error_item w = process_error_item w
  dispatch queue_remove_item w = some (process_remove_item w)
  dispatch queue_empty w = process_empty lion call w
  dispatch _ w = some w

  unfoldable pub step_checked : World → Option World
  unfolding dispatch
  step_checked w = dispatch w.queue.state w

  unfoldable pub queue_process : World → Option World
  unfolding step_checked check_sessions
  queue_process w = step_checked (check_sessions w)

  -- The levels of STOP: soft, hard, and dropping the sessions.
  unfoldable pub stop_level : ℕ → World → Option World
  unfolding queue_process
  stop_level (suc zero) w = some (session_abor south (session_abor north w))
  stop_level (suc (suc zero)) w = do
    w ← session_setclose call north (codes "STOP|DROP issued") w
    w ← session_setclose call south (codes "STOP|DROP issued") w
    queue_process (set_state queue_idle w)
  stop_level _ w = some w

  abbrev in_transfer : QueueState → Bool
  in_transfer phase_12_start = true
  in_transfer _ = false

  unfoldable pub queue_stop : ℕ → ℕ → World → Option World
  unfolding stop_level
  queue_stop user level w =
      let w' = tell user (request_done w.queue.id) (set_queue (record w.queue { stop = true }) w) in
      if in_transfer w.queue.state then stop_level level w' else some w'

-- Both managers are given up by their users, and the queue starts.
unfoldable pub queue_go : ℕ → World → World
queue_go user w = tell user (request_done w.queue.id) (
    set_state queue_start (record w {
      north_mgr = record w.north_mgr { user = none };
      south_mgr = record w.south_mgr { user = none };
    }))
