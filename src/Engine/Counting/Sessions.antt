-- ===== src/Engine/Counting/Sessions.antt =====
-- The commands that sessions are given keep the counters of the queue.
use fxp_one.Prelude.{Bool, true, false, not, if◌then◌else◌, Option, none, some, Text, ℤ}
use fxp_one.Queue.Types.{Side}
use fxp_one.Session.Events.{SessionEvent, ev_idle, Event}
use fxp_one.Session.{Session, session_isidle, Flags, Handler}
use fxp_one.Engine.World.{World, Call, put_session}
use fxp_one.Engine.Commands.{
  raise, settle, restart, given_handler, detach, close_session, session_cmdq_restart,
  cmdq_new_internal, session_cmdq_new, session_cmdq_newf, session_set_handler, session_setclose,
  cached_reply, switch_mode, Switch,
}
use fxp_one.Engine.Counting.{
  IsCountedWorld, Keeps, IsKeeping, keeps_rules, put_session-counted, Keeps-at_session, Keeps-if,
  Keeps-bind,
}

detach-Keeps :
    (call : Call) (side : Side) (w : World) → IsCountedWorld w → Keeps (detach call side w)
unfolding detach
detach-Keeps call side w c = search keeps_rules

module _ (call : Call) (good : IsKeeping call) where
  pub raise-Keeps :
      (h : Option Handler) (side : Side) (ev : SessionEvent) (w : World)
      → IsCountedWorld w
      → Keeps (raise call h side ev w)
  unfolding raise
  raise-Keeps none side ev w c = search keeps_rules
  raise-Keeps (some h) side ev w c = good.keeps side ev w c

  pub settle-Keeps :
      (side : Side) (r : Session × Bool) (w : World)
      → IsCountedWorld w
      → Keeps (settle call side r w)
  unfolding settle
  settle-Keeps side (s, false) w c = search keeps_rules
  settle-Keeps side (s, true) w c =
      raise-Keeps s.handler side ev_idle _ (put_session-counted side s w c)

  restart-Keeps :
      (side : Side) (s : Session) (w : World)
      → IsCountedWorld w
      → Keeps (session_cmdq_restart call side s w)
  unfolding session_cmdq_restart
  restart-Keeps side s w c = settle-Keeps side (restart s) w c

  pub cmdq_new_internal-Keeps :
      (side : Side) (flags : Flags) (id : Event) (subid : Option Event) (line : Text) (w : World)
      → IsCountedWorld w
      → Keeps (cmdq_new_internal call side flags id subid line w)
  unfolding cmdq_new_internal
  cmdq_new_internal-Keeps side flags id subid line w c = search (keeps_rules, restart-Keeps)

  pub session_cmdq_new-Keeps :
      (side : Side) (flags : Flags) (id : Event) (line : Text) (w : World)
      → IsCountedWorld w
      → Keeps (session_cmdq_new call side flags id line w)
  unfolding session_cmdq_new
  session_cmdq_new-Keeps side flags id line w c =
      cmdq_new_internal-Keeps side flags id none line w c

  pub session_cmdq_newf-Keeps :
      (side : Side) (flags : Flags) (id : Event) (word arg : Text) (w : World)
      → IsCountedWorld w
      → Keeps (session_cmdq_newf call side flags id word arg w)
  unfolding session_cmdq_newf
  session_cmdq_newf-Keeps side flags id word arg w c = search (keeps_rules, restart-Keeps)

  given_handler-Keeps :
      (side : Side) (s : Session) (w : World)
      → IsCountedWorld w
      → Keeps (given_handler call side s w)
  unfolding given_handler
  given_handler-Keeps side s w c = by_reply s.files_reply_id
    where
      by_reply :
          (o : Option Event)
          → Keeps (elim o [
            | some id ↦ some (put_session side s w)
            | none ↦
                if session_isidle (some s)
                then raise call s.handler side ev_idle (put_session side s w)
                else some (put_session side s w)
          ])
      by_reply (some id) = search keeps_rules
      by_reply none = search (keeps_rules, raise-Keeps)

  pub session_set_handler-Keeps :
      (side : Side) (h : Option Handler) (w : World)
      → IsCountedWorld w
      → Keeps (session_set_handler call side h w)
  unfolding session_set_handler
  session_set_handler-Keeps side h w c = search (keeps_rules, given_handler-Keeps)

  close_session-Keeps :
      (side : Side) (s : Session) (reason : Text) (w : World)
      → IsCountedWorld w
      → Keeps (close_session call side s reason w)
  unfolding close_session
  close_session-Keeps side s reason w c =
      Keeps-if (not s.online) _ _ (search (keeps_rules, detach-Keeps)) (
        Keeps-bind _ _ (raise-Keeps s.handler side _ _ (put_session-counted side _ w c))
          (detach-Keeps call side))

  pub session_setclose-Keeps :
      (side : Side) (reason : Text) (w : World)
      → IsCountedWorld w
      → Keeps (session_setclose call side reason w)
  unfolding session_setclose
  session_setclose-Keeps side reason w c = search (keeps_rules, close_session-Keeps)

  pub ruleset command_rules = (
    keeps_rules, raise-Keeps, cmdq_new_internal-Keeps, session_cmdq_new-Keeps,
    session_cmdq_newf-Keeps, session_set_handler-Keeps, session_setclose-Keeps,
  )

  pub cached_reply-Keeps :
      (id : Option Event) (s : Session) (side : Side) (code : ℤ) (text : Text) (w : World)
      → IsCountedWorld w
      → Keeps (cached_reply call id s side code text w)
  unfolding cached_reply
  cached_reply-Keeps none s side code text w c = search command_rules
  cached_reply-Keeps (some id) s side code text w c = search command_rules

  pub switch_mode-Keeps :
      (side : Side) (s : Session) (flags : Flags) (id : Option Event) (known : Bool) (sw : Switch)
      (w : World)
      → IsCountedWorld w
      → Keeps (switch_mode call side s flags id known sw w)
  unfolding switch_mode
  switch_mode-Keeps side s flags id known sw w c = search (command_rules, cached_reply-Keeps)
