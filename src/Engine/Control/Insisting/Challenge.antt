-- ===== src/Engine/Control/Insisting/Challenge.antt =====
-- The end of the challenge, and the theorem on all states before the login.
use mathlib.Core.Path.{subst}
use fxp_one.Prelude.{
  true, false, List, [], ◌∷◌, Option, some, Text, ◌≡◌, refl, arith, inl, inr, ap, ◌∙◌, sym,
}
use fxp_one.Lion.{Lion}
use fxp_one.Site.{yna_yes}
use fxp_one.Queue.Types.{Side}
use fxp_one.Session.Events.{
  SessionState, st_connecting, st_connected, st_await_220, st_tls_start, st_tls_phase_tls,
  st_tls_phase_ssl, st_tls_init, st_tls_wait, st_login_start,
}
use fxp_one.Session.{Session, Cmd, Status, no_commands}
use fxp_one.Engine.World.{World, Call, session, put_session}
use fxp_one.Engine.Commands.{session_cmdq_restart, restart, settle-silent}
use fxp_one.Engine.Commands.Pending.{queued_cmdq, restart-silent, append-some}
use fxp_one.Engine.Control.Moves.{
  Answer, code, secure_enabled, secure_failed, change, state_number, enter, release,
}
use fxp_one.Engine.Control.Login.{process_tls_wait, process_login_start, tls_session}
use fxp_one.Engine.Control.Laws.{session-put, put-put}
use fxp_one.Engine.Control.Machine.{session_state_process, process_state}
use fxp_one.Engine.Control.Insisting.{is_before_login, asks_login, HoldsBack}
use fxp_one.Engine.Control.Insisting.Cases.{
  stays, refused-holds, connecting-holds, connected-holds, tls_init-holds, tls_start-holds,
  user_cmd, login_begun, login_start-enters, login_begun-secured, await_220-holds,
  tls_phase_tls-holds, tls_phase_ssl-holds,
}

module _ (lion : Lion) (call : Call) (side : Side) where
  release-silent :
      (t : Session) (v : World)
      → session side v ≡ some t
      → (restart (record t { forcebusy = false })).1 ≡ false
      → release call side v ≡ some (put_session side (restart (record t { forcebusy = false })).0 v)
  unfolding release session_cmdq_restart
  release-silent t v h silent =
      ground (arith, h, settle-silent call side v (restart (record t { forcebusy = false })) silent)

  restart-status : (t : Session) → (restart t).0.status ≡ t.status
  unfolding restart
  restart-status t = by_list t.cmdq
    where
      by_list : (cs : List Cmd) → (restart (record t { cmdq = cs })).0.status ≡ t.status
      by_list [] = ground arith
      by_list (c ∷ cs) = ground arith

  -- Behind a challenge that went well the login begins, on a connection that is secured.
  module _ (s : Session) (w : World) (h : session side w ≡ some s)
      (insists : s.site.control_tls ≡ yna_yes) (up : s.online ≡ true)
      (unasked : asks_login s.cmdq ≡ false) (e : s.state ≡ st_tls_wait) where
    over : World
    over = put_session side (tls_session s) w

    here : session side over ≡ some (tls_session s)
    unfolding over
    here = session-put side (tls_session s) w

    begun : Session
    begun = login_begun lion call side (tls_session s) over here insists up unasked

    waiting : no_commands begun.cmdq ≡ false
    unfolding begun login_begun
    waiting =
        let c = user_cmd lion call side (tls_session s) over here insists up unasked in
        let s' = record (tls_session s) { state = st_login_start } in
        ap no_commands (queued_cmdq s' c) ∙ append-some s.cmdq c

    released : Session
    released = (restart (record begun { forcebusy = false })).0

    released-secured : released.status.on_ssl ≡ true
    unfolding released begun
    released-secured =
        ap (λ (t : Status). t.on_ssl) (restart-status (record begun { forcebusy = false }))
        ∙ login_begun-secured lion call side (tls_session s) over here insists up unasked refl

    secured-first : change call side tls_session w ≡ some over
    unfolding change over
    secured-first = ground (arith, h)

    begins :
        enter call side st_login_start (process_login_start lion call side) over
        ≡ some (put_session side begun over)
    unfolding begun state_number
    begins =
        login_start-enters lion call side (tls_session s) over here insists up unasked
          (ground (arith, e))

    goes_on :
        release call side (put_session side begun over)
        ≡ some (put_session side released (put_session side begun over))
    unfolding released
    goes_on =
        release-silent begun (put_session side begun over) (session-put side begun over)
          (restart-silent (record begun { forcebusy = false }) waiting)

    enabled-leads :
        process_tls_wait lion call side secure_enabled w ≡ some (put_session side released w)
    unfolding process_tls_wait over
    enabled-leads =
        rw (secured-first, begins, goes_on)
          (ap some (put-put side begun released over ∙ put-put side (tls_session s) released w))

    tls_wait-holds :
        (reply : Answer) → HoldsBack call side w (process_tls_wait lion call side reply w)
    unfolding process_tls_wait
    tls_wait-holds secure_enabled = inr (released, enabled-leads, inl released-secured)
    tls_wait-holds secure_failed = refused-holds lion call side s w h insists up unasked
    tls_wait-holds (code r) = stays lion call side s w h insists up unasked (ground (arith, e))

  -- As long as the site insists on TLS and no login is asked for, every reply and every outcome of a
  -- challenge that comes before the login closes the session, or leads to a session that is secured,
  -- or to one that has not come to the login and has no command of it.
  pub session_state_process-insists :
      (s : Session) (reply : Answer) (line : Option Text) (w : World)
      → session side w ≡ some s
      → s.site.control_tls ≡ yna_yes
      → s.online ≡ true
      → asks_login s.cmdq ≡ false
      → is_before_login s.state ≡ true
      → HoldsBack call side w (session_state_process lion call side reply line w)
  unfolding session_state_process process_state
  session_state_process-insists s reply line w h insists up unasked early =
      subst (HoldsBack call side w) (sym known) (by_state s.state refl early)
    where
      known :
          session_state_process lion call side reply line w
          ≡ process_state lion call side s.state reply line w
      known = ground (arith, h)

      by_state :
          (st : SessionState)
          → s.state ≡ st
          → is_before_login st ≡ true
          → HoldsBack call side w (process_state lion call side st reply line w)
      by_state st_connecting e b =
          connecting-holds lion call side s w h insists up unasked reply (ground (arith, e))
      by_state st_connected e b = connected-holds lion call side s w h insists up unasked
      by_state st_await_220 e b = await_220-holds lion call side s w h insists up unasked reply e
      by_state st_tls_start e b = tls_start-holds lion call side s w h insists up unasked
      by_state st_tls_phase_tls e b =
          tls_phase_tls-holds lion call side s w h insists up unasked reply e
      by_state st_tls_phase_ssl e b =
          tls_phase_ssl-holds lion call side s w h insists up unasked reply e
      by_state st_tls_init e b = tls_init-holds lion call side s w h insists up unasked
      by_state st_tls_wait e b = tls_wait-holds s w h insists up unasked e reply
      by_state st e b = absurd (ground (arith, b))
