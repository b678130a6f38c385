-- ===== src/Engine/Depth.antt =====
-- How deep events raise events: a handler may give a session a command whose reply is known, which
-- raises an event at once, and the handling of that event raises no further one.
mod Alike
use Alike.{
  add_command-same, option-same, bind-same, if-same, dst_cwd-same, dst_cwd2-same, IsAlike,
  handle-IsAlike,
}
use fxp_one.Prelude.{
  ℕ, zero, suc, Bool, true, false, not, List, [], ◌∷◌, ◌++◌, Option, none, some, Text, ◌≡◌, refl,
  sym, ◌∙◌, ap, ℤ, pos, if◌then◌else◌, ◌>>=◌, arith, codes, ◌&&◌, ◌||◌, ◌==◌,
}
use fxp_one.Lion.{Lion}
use fxp_one.Queue.Types.{Side}
use fxp_one.Session.Events.{
  SessionEvent, ev_idle, ev_log, ev_cmd, ev_lost, Event, phase_1_dst_cwd, phase_1_dst_mkd,
  phase_1_dst_cwd2,
}
use fxp_one.Session.{
  Session, Cmd, Flags, no_flags, session_isidle, Handler, handler_withuser, handler_queue,
  no_commands,
}
use fxp_one.Engine.World.{World, Call, session, manager, put_session}
use fxp_one.Engine.Commands.{
  restart, settle, session_cmdq_restart, add_command, cmdq_new_internal, session_cmdq_newf,
  session_cwd, cached_reply, reply_to, raise, session_set_handler, given_handler, known_cwd,
  settle-silent,
}
use fxp_one.Engine.Commands.Pending.{queued, restart-silent, append-some}
use fxp_one.Engine.Handlers.{
  deliver, handle, to_handler, on_queue, queue_event, on_queue_cmd, send_mkd, cwd_again,
  made_dir_or_fail, dst_cwd, dst_cwd2, mkdname_decrease, mkdname_same, made_dir, is_2xx, is_failure,
  fail_dst,
}

module _ (call other : Call) (alike : IsAlike call other) where
  raise-idle :
      (h : Option Handler) (side : Side) (w : World)
      → raise call h side ev_idle w ≡ raise other h side ev_idle w
  unfolding raise
  raise-idle none side w = refl
  raise-idle (some h) side w = alike.on_idle side w

  raise-cwd2 :
      (h : Option Handler) (side : Side) (reply : ℤ) (line : Text) (w : World)
      → raise call h side (ev_cmd phase_1_dst_cwd2 reply line) w
        ≡ raise other h side (ev_cmd phase_1_dst_cwd2 reply line) w
  unfolding raise
  raise-cwd2 none side reply line w = refl
  raise-cwd2 (some h) side reply line w = alike.on_cwd2 side reply line w

  given_handler-same :
      (side : Side) (s : Session) (w : World)
      → given_handler call side s w ≡ given_handler other side s w
  unfolding given_handler
  given_handler-same side s w = by_reply s.files_reply_id
    where
      answer : Call → Option World
      answer c =
          if session_isidle (some s)
          then raise c s.handler side ev_idle (put_session side s w)
          else some (put_session side s w)

      answers : answer call ≡ answer other
      answers =
          if-same (session_isidle (some s)) _ _ _ _
            (raise-idle s.handler side (put_session side s w)) refl

      by_reply :
          (o : Option Event)
          → elim o [ none ↦ answer call | some id ↦ some (put_session side s w) ]
            ≡ elim o [ none ↦ answer other | some id ↦ some (put_session side s w) ]
      by_reply none = answers
      by_reply (some id) = refl

  session_set_handler-same :
      (side : Side) (h : Option Handler) (w : World)
      → session_set_handler call side h w ≡ session_set_handler other side h w
  unfolding session_set_handler
  session_set_handler-same side h w =
      option-same (session side w) none _ _ (λ s. given_handler-same side _ w)

  cached_reply-same :
      (s : Session) (side : Side) (reply : ℤ) (line : Text) (w : World)
      → cached_reply call (some phase_1_dst_cwd2) s side reply line w
        ≡ cached_reply other (some phase_1_dst_cwd2) s side reply line w
  unfolding cached_reply reply_to
  cached_reply-same s side reply line w =
      ap (λ o. o >>= session_set_handler call side s.handler)
        (raise-cwd2 s.handler side reply line w)
      ∙ bind-same _ _ _ (session_set_handler-same side s.handler)

  session_cwd-same :
      (side : Side) (want : Option Text) (w : World)
      → session_cwd call side no_flags (some phase_1_dst_cwd2) want w
        ≡ session_cwd other side no_flags (some phase_1_dst_cwd2) want w
  unfolding session_cwd known_cwd cmdq_new_internal
  session_cwd-same side none w = refl
  session_cwd-same side (some want) w = option-same (session side w) none _ _ (λ s.
      if-same _ _ _ _ _ (cached_reply-same s side _ _ w) (
        option-same (session side (put_session side _ w)) none _ _
          (λ t. add_command-same call other side t _ _)))

  module _ (lion : Lion) where
    cwd_again-same :
        (side : Side) (w : World) → cwd_again lion call side w ≡ cwd_again lion other side w
    unfolding cwd_again
    cwd_again-same side w = session_cwd-same side (mkdname_same w) w

    on_queue_cmd-same :
        (id : Event) (reply : ℤ) (line : Text) (side : Side) (w : World)
        → on_queue_cmd lion call id reply line side w ≡ on_queue_cmd lion other id reply line side w
    unfolding on_queue_cmd made_dir_or_fail
    on_queue_cmd-same phase_1_dst_mkd reply line side w =
        if-same (is_2xx reply) _ _ _ _ (bind-same (made_dir w) _ _ (cwd_again-same side)) refl
    on_queue_cmd-same phase_1_dst_cwd reply line side w =
        dst_cwd-same lion call other reply line side w
    on_queue_cmd-same phase_1_dst_cwd2 reply line side w =
        dst_cwd2-same lion call other reply line side w
    on_queue_cmd-same _ reply line side w = refl

    to_handler-same :
        (h : Option Handler) (side : Side) (ev : SessionEvent) (w : World)
        → to_handler lion call h side ev w ≡ to_handler lion other h side ev w
    unfolding to_handler on_queue queue_event
    to_handler-same none side ev w = refl
    to_handler-same (some handler_withuser) side ev w = refl
    to_handler-same (some handler_queue) side ev_idle w = refl
    to_handler-same (some handler_queue) side (ev_log line) w = refl
    to_handler-same (some handler_queue) side (ev_lost line) w = refl
    to_handler-same (some handler_queue) side (ev_cmd id reply line) w =
        if-same ((manager side w).qid == w.queue.id) _ _ _ _
          (on_queue_cmd-same id reply line side w) refl

    handle-same :
        (side : Side) (ev : SessionEvent) (w : World)
        → handle lion call side ev w ≡ handle lion other side ev w
    unfolding handle
    handle-same side ev w =
        option-same (session side w) (some w) _ _ (λ s. to_handler-same s.handler side ev w)

-- From depth two on the handling of every event, and of the events that its commands raise in turn, is
-- the same whatever the depth, result and fault alike.
pub deliver-depth :
    (lion : Lion) (n : ℕ) (side : Side) (ev : SessionEvent) (w : World)
    → deliver lion (suc (suc n)) side ev w ≡ deliver lion 2 side ev w
unfolding deliver
deliver-depth lion n side ev w =
    handle-same (handle lion (deliver lion n)) (handle lion (deliver lion zero))
      (handle-IsAlike lion (deliver lion n) (deliver lion zero)) lion side ev w
