-- ===== src/Engine/Counting/Control.antt =====
-- What comes from the servers keeps the counters of the queue: the steps that the state machine of a
-- session is put together from.
pub mod Cases
pub mod Signals
use fxp_one.Prelude.{Bool, true, false, Option, none, some}
use fxp_one.Queue.Types.{Side}
use fxp_one.Session.Events.{SessionState, SessionEvent}
use fxp_one.Session.{Session, Handler}
use fxp_one.Engine.World.{World, Call, session, put_session, at_session}
use fxp_one.Engine.Commands.{session_cmdq_restart, settle, restart}
use fxp_one.Engine.Control.Moves.{change, touch, move_to, enter, release}
use fxp_one.Engine.Control.Relays.{call_handler}
use fxp_one.Engine.Counting.{
  IsCountedWorld, Keeps, IsKeeping, keeps_rules, put_session-counted, Keeps-at_session, Keeps-if,
  Keeps-some, Keeps-none, Keeps-option,
}
use fxp_one.Engine.Counting.Sessions.{command_rules, settle-Keeps}

module _ (call : Call) (good : IsKeeping call) (side : Side) where
  pub change-Keeps :
      (f : Session → Session) (w : World) → IsCountedWorld w → Keeps (change call side f w)
  unfolding change
  change-Keeps f w c = search keeps_rules

  pub touch-Keeps :
      (f : Session → Session) (w : World) → IsCountedWorld w → Keeps (touch call side f w)
  unfolding touch
  touch-Keeps f w c = search keeps_rules

  pub move_to-Keeps :
      (st : SessionState) (w : World) → IsCountedWorld w → Keeps (move_to call side st w)
  unfolding move_to
  move_to-Keeps st w c = search keeps_rules

  pub enter-Keeps :
      (st : SessionState) (process : World → Option World) (w : World)
      → IsCountedWorld w
      → ((v : World) → IsCountedWorld v → Keeps (process v))
      → Keeps (enter call side st process w)
  unfolding enter
  enter-Keeps st process w c k = search keeps_rules

  pub restart-Keeps :
      (s : Session) (w : World) → IsCountedWorld w → Keeps (session_cmdq_restart call side s w)
  unfolding session_cmdq_restart
  restart-Keeps s w c = settle-Keeps call good side (restart s) w c

  pub release-Keeps : (w : World) → IsCountedWorld w → Keeps (release call side w)
  unfolding release
  release-Keeps w c = search (keeps_rules, restart-Keeps)

  pub call_handler-Keeps :
      (ev : SessionEvent) (w : World) → IsCountedWorld w → Keeps (call_handler call side ev w)
  unfolding call_handler
  call_handler-Keeps ev w c =
      Keeps-at_session side w _
        (λ s. Keeps-option s.handler none _ Keeps-none (λ h. good.keeps side ev w c))

  pub ruleset control_rules = (
    command_rules, change-Keeps, touch-Keeps, move_to-Keeps, enter-Keeps, restart-Keeps,
    release-Keeps, call_handler-Keeps,
  )
