-- ===== src/Engine/Process/Begin.antt =====
-- engine/queue.c, queue_process: the states before an item is in work, and what a lost session does.
use fxp_one.Prelude.{
  Bool, true, false, not, ◌&&◌, ◌||◌, [], ◌∷◌, Option, none, some, ◌==◌, if◌then◌else◌, ◌>>=◌,
}
use fxp_one.Lion.{Lion}
use fxp_one.Queue.Types.{
  Side, north, south, QueueState, queue_idle, queue_start, queue_isconnected, queue_start_next_item,
  queue_active, queue_file_start, phase_1_start, directory_start, queue_item_failed,
  queue_requeue_item, queue_error_item, queue_remove_item, queue_empty, QitemType, type_none,
  type_file, type_directory, type_stop, Queue,
}
use fxp_one.Session.{Session, handler_queue}
use fxp_one.Engine.World.{
  World, Call, manager, set_manager, session, set_queue, set_state, hurry, notify, both_idle,
  at_item,
}
use fxp_one.Engine.Commands.{session_new, session_set_handler}
use fxp_one.Engine.World.{qs_start}

-- The states in which a session may be missing.
unfoldable pub may_miss_session : QueueState → Bool
may_miss_session queue_idle = true
may_miss_session queue_start = true
may_miss_session queue_isconnected = true
may_miss_session queue_item_failed = true
may_miss_session queue_error_item = true
may_miss_session queue_requeue_item = true
may_miss_session queue_active = true
may_miss_session _ = false

abbrev is_missing : Option Session → Bool
is_missing none = true
is_missing (some s) = false

-- A session is missing, the queue is not told to stop, and it has items.
unfoldable pub detects_failure : World → Bool
unfolding may_miss_session
detects_failure w =
    not (may_miss_session w.queue.state)
    && ((is_missing (session north w) || is_missing (session south w))
        && (not w.queue.stop && not (w.queue.num_items == 0)))

unfoldable pub check_sessions : World → World
unfolding detects_failure
check_sessions w = if detects_failure w then set_state queue_item_failed w else w

abbrev is_empty : Queue → Bool
is_empty q = elim q.items [ [] ↦ true | x ∷ xs ↦ q.num_items == 0 ]

-- QUEUE_START; the request to stop is forgotten here.
unfoldable pub process_start : World → World
process_start w = hurry (
    set_queue
      (record w.queue {
        state = if is_empty w.queue then queue_empty else queue_isconnected;
        stop = false;
      })
      w)

module _ (lion : Lion) (call : Call) where
  unfoldable pub fresh_session : Side → World → World
  fresh_session side w =
      let m = manager side w in
      set_manager side
        (record m { session = some (session_new lion w.server_ssl handler_queue m.site) }) w

  abbrev pub set_sid : Side → World → World
  set_sid north w = set_queue (record w.queue { north_sid = w.north_mgr.id }) w
  set_sid south w = set_queue (record w.queue { south_sid = w.south_mgr.id }) w

  unfoldable pub connect_side : Side → World → Option World
  unfolding fresh_session
  connect_side side w = elim (session side w) [
    | none ↦ some (set_sid side (fresh_session side w))
    | some s ↦ session_set_handler call side (some handler_queue) w
  ]

  unfoldable pub process_isconnected : World → Option World
  unfolding connect_side
  process_isconnected w = do
    w ← connect_side north (set_state queue_start_next_item w)
    connect_side south w

unfoldable pub process_start_next_item : World → World
process_start_next_item w = if both_idle w then hurry (set_state queue_active w) else w

abbrev pub src_side : Bool → Side
src_side true = north
src_side false = south

abbrev pub dst_side : Bool → Side
dst_side true = south
dst_side false = north

unfoldable pub begin_type : QitemType → Queue → Queue
begin_type type_file q = record q { state = queue_file_start }
begin_type type_directory q = record q { state = directory_start }
begin_type type_stop q = record q { stop = true; state = queue_remove_item }
begin_type type_none q = record q { state = queue_empty }

-- QUEUE_ACTIVE
unfoldable pub process_active : World → Option World
unfolding begin_type
process_active w =
    if w.queue.num_items == 0
    then some (set_state queue_empty w)
    else if w.queue.stop
    then some (set_state queue_idle w)
    else at_item w λ x. some (
        hurry (
          set_queue
            (begin_type x.type (record w.queue {
              src_mgr = some (src_side x.src_is_north);
              dst_mgr = some (dst_side x.src_is_north);
            }))
            w))

unfoldable pub process_file_start : World → Option World
process_file_start w =
    at_item w λ x.
      some (hurry (set_state phase_1_start (notify (qs_start x.src_is_north x.src.fullpath) w)))
