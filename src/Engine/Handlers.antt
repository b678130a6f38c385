-- ===== src/Engine/Handlers.antt =====
-- engine/handler.c: the two handlers of session events, and how an event finds its handler.
mod Mkd
mod Withuser
mod Replies
mod Phases
unfoldable pub use Mkd.*
unfoldable pub use Withuser.*
unfoldable pub use Replies.*
unfoldable pub use Phases.*
use fxp_one.Prelude.{ℕ, zero, suc, Bool, true, false, Option, none, some, ◌==◌, if◌then◌else◌}
use fxp_one.Lion.{Lion}
use fxp_one.Queue.Types.{Side}
use fxp_one.Session.Events.{SessionEvent, ev_idle, ev_log, ev_cmd, ev_lost}
use fxp_one.Session.{Handler, handler_withuser, handler_queue, Session}
use fxp_one.Engine.World.{World, Call, manager, session, hurry}

module _ (lion : Lion) (call : Call) where
  -- handler_queue behind the search for the queue
  unfoldable pub queue_event : Side → SessionEvent → World → Option World
  queue_event side ev_idle w = some (hurry w)
  queue_event side (ev_log line) w = some w
  queue_event side (ev_lost line) w = some (queue_lost side w)
  queue_event side (ev_cmd id reply line) w = on_queue_cmd lion call id reply line side w

  -- The event is taken if the manager belongs to this queue.
  unfoldable pub on_queue : Side → SessionEvent → World → Option World
  unfolding queue_event
  on_queue side ev w = if (manager side w).qid == w.queue.id then queue_event side ev w else some w

  unfoldable pub to_handler : Option Handler → Side → SessionEvent → World → Option World
  unfolding on_queue
  to_handler none side ev w = some w
  to_handler (some handler_withuser) side ev w = some (on_withuser lion side ev w)
  to_handler (some handler_queue) side ev w = on_queue side ev w

  unfoldable pub handle : Side → SessionEvent → World → Option World
  unfolding to_handler
  handle side ev w = elim (session side w) [
    | none ↦ some w
    | some s ↦ to_handler s.handler side ev w
  ]

-- An event is handled, and the events that the handler's own commands raise, to a depth.
unfoldable pub deliver : Lion → ℕ → Call
unfolding handle
deliver lion zero side ev w = none
deliver lion (suc n) side ev w = handle lion (deliver lion n) side ev w
