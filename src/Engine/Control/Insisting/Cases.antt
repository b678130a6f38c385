-- ===== src/Engine/Control/Insisting/Cases.antt =====
-- Each state before the login, at a session that insists on TLS.
use fxp_one.Prelude.{
  true, false, [], some, ◌≡◌, refl, arith, codes, inl, inr, ap, ◌∙◌, sym, Bool-cases,
}
use fxp_one.Lion.{Lion}
use fxp_one.Site.{yna_yes}
use fxp_one.Queue.Types.{Side}
use fxp_one.Session.Events.{
  st_await_220, st_tls_start, st_tls_phase_tls, st_tls_phase_ssl, st_tls_wait, st_login_start,
  st_login_sent_user, st_sent_cmd, state_event, no_event,
}
use fxp_one.Session.{Session, Cmd, no_flags, internally, Status}
use fxp_one.Engine.World.{World, Call, session, put_session}
use fxp_one.Engine.Commands.Pending.{queued, queued_cmdq}
use fxp_one.Engine.Control.Moves.{
  Answer, code, secure_enabled, secure_failed, change, state_number, same_state, is_code, is_answer,
  enter, move_to,
}
use fxp_one.Engine.Control.Login.{
  process_connecting, process_connected, process_tls_start, process_await_220, process_tls_init,
  process_tls_phase_tls, process_tls_phase_ssl, refused, process_login_start, tls_session,
}
use fxp_one.Engine.Control.Insisting.{
  is_before_login, asks_login, asks_login-append, IsHeldBack, HoldsBack, queued-keeps, put-same,
  asking, session_cmdq_newf-queues,
}

module _ (lion : Lion) (call : Call) (side : Side) where
  -- Each case on its own, at a session that is open, insists on TLS and has no login asked for.
  module _ (s : Session) (w : World) (h : session side w ≡ some s)
      (insists : s.site.control_tls ≡ yna_yes) (up : s.online ≡ true)
      (unasked : asks_login s.cmdq ≡ false) where
    pub stays : is_before_login s.state ≡ true → HoldsBack call side w (some w)
    stays early = inr (s, ap some (sym (put-same side s w h)), inr (early, unasked))

    pub refused-holds : HoldsBack call side w (refused lion call side w)
    unfolding refused
    refused-holds = inl (codes "AUTH TLS/SSL Failed during challenge", ground arith)

    pub connecting-holds :
        (reply : Answer)
        → is_before_login s.state ≡ true
        → HoldsBack call side w (process_connecting lion call side reply w)
    unfolding process_connecting change
    connecting-holds secure_enabled early = inr (tls_session s, ground arith, inl refl)
    connecting-holds secure_failed early = refused-holds
    connecting-holds (code r) early = stays early

    pub connected-holds : HoldsBack call side w (process_connected lion call side w)
    unfolding process_connected change
    connected-holds =
        inr (record s { isidle = true; state = st_await_220 }, ground arith, inr (refl, unasked))

    pub tls_init-holds : HoldsBack call side w (process_tls_init lion call side w)
    unfolding process_tls_init move_to change
    tls_init-holds = inr (record s { state = st_tls_wait }, ground arith, inr (refl, unasked))

    auth_tls : Cmd
    auth_tls = asking (internally no_flags) no_event (codes "AUTH TLS") []

    pub tls_start-holds : HoldsBack call side w (process_tls_start lion call side w)
    unfolding process_tls_start move_to change auth_tls
    tls_start-holds = inr (
      record (queued s auth_tls) { state = st_tls_phase_tls },
      ground (
        arith,
        session_cmdq_newf-queues call side (internally no_flags) no_event (codes "AUTH TLS") [] w s,
      ),
      inr (
        refl,
        ground (arith, ap asks_login (queued_cmdq s auth_tls), asks_login-append s.cmdq auth_tls),
      ),
    )

    unfoldable pub user_cmd : Cmd
    user_cmd =
        asking (internally no_flags) (state_event st_login_sent_user) (codes "USER ") s.site.user

    -- What the two ways on from 220 lead to.
    tls_begun : Session
    tls_begun = record (queued (record s { state = st_tls_start }) auth_tls) {
      state = st_tls_phase_tls;
    }

    unfoldable pub login_begun : Session
    login_begun = record (queued (record s { state = st_login_start }) user_cmd) {
      state = st_sent_cmd;
    }

    tls_start-enters :
        same_state s.state st_tls_start ≡ false
        → enter call side st_tls_start (process_tls_start lion call side) w
          ≡ some (put_session side tls_begun w)
    unfolding enter process_tls_start move_to change tls_begun auth_tls
    tls_start-enters new =
        let s' = record s { state = st_tls_start } in
        ground (
          arith,
          session_cmdq_newf-queues call side (internally no_flags) no_event (codes "AUTH TLS") []
              (put_session side s' w) s',
        )

    pub login_start-enters :
        same_state s.state st_login_start ≡ false
        → enter call side st_login_start (process_login_start lion call side) w
          ≡ some (put_session side login_begun w)
    unfolding enter process_login_start move_to change login_begun user_cmd
    login_start-enters new =
        let s' = record s { state = st_login_start } in
        ground (
          arith,
          session_cmdq_newf-queues call side (internally no_flags) (state_event st_login_sent_user)
              (codes "USER ") s.site.user (put_session side s' w) s',
        )

    tls_begun-IsHeldBack : IsHeldBack tls_begun
    unfolding tls_begun auth_tls
    tls_begun-IsHeldBack =
        let s' = record s { state = st_tls_start } in
        inr (
          refl,
          ground
              (arith, ap asks_login (queued_cmdq s' auth_tls), asks_login-append s.cmdq auth_tls),
        )

    pub login_begun-secured : s.status.on_ssl ≡ true → login_begun.status.on_ssl ≡ true
    unfolding login_begun user_cmd
    login_begun-secured on =
        let s' = record s { state = st_login_start } in
        ap (λ (t : Status). t.on_ssl) (queued-keeps s' user_cmd).1 ∙ on

    pub await_220-holds :
        (reply : Answer)
        → s.state ≡ st_await_220
        → HoldsBack call side w (process_await_220 lion call side reply w)
    unfolding process_await_220 state_number
    await_220-holds reply e = elim (Bool-cases (is_code reply 220)) [
      | inr other ↦ inl_some (ground (arith, other, h))
      | inl ok ↦ elim (Bool-cases s.status.on_ssl) [
        | inl on ↦ inr (
          login_begun,
          ground (arith, h, ok, on, insists, login_start-enters (ground (arith, e))),
          inl (login_begun-secured on),
        )
        | inr off ↦ inr (
          tls_begun,
          ground (arith, h, ok, off, insists, tls_start-enters (ground (arith, e))),
          tls_begun-IsHeldBack,
        )
      ]
    ]
      where
        inl_some :
            process_await_220 lion call side reply w ≡ some w
            → HoldsBack call side w (process_await_220 lion call side reply w)
        inl_some p =
            inr (s, p ∙ ap some (sym (put-same side s w h)), inr (ground (arith, e), unasked))

    auth_ssl : Cmd
    auth_ssl = asking (internally no_flags) (state_event st_tls_phase_ssl) (codes "AUTH SSL") []

    pub tls_phase_tls-holds :
        (reply : Answer)
        → s.state ≡ st_tls_phase_tls
        → HoldsBack call side w (process_tls_phase_tls lion call side reply w)
    unfolding process_tls_phase_tls process_tls_init enter move_to change state_number auth_ssl
    tls_phase_tls-holds reply e = elim (Bool-cases (is_code reply 234)) [
      | inl ok ↦ inr (
        record s { forcebusy = true; state = st_tls_wait },
        ground (arith, h, ok, e),
        inr (refl, unasked),
      )
      | inr other ↦ elim (Bool-cases (is_answer reply)) [
        | inl answer ↦ inr (
          queued s auth_ssl,
          ground (
            arith,
            other,
            answer,
            session_cmdq_newf-queues call side (internally no_flags) (state_event st_tls_phase_ssl)
                (codes "AUTH SSL") [] w s,
          ),
          inr (
            ground (arith, e, (queued-keeps s auth_ssl).0),
            ground
                (arith, ap asks_login (queued_cmdq s auth_ssl), asks_login-append s.cmdq auth_ssl),
          ),
        )
        | inr silent ↦ inr (
          s,
          ground (arith, other, silent, put-same side s w h),
          inr (ground (arith, e), unasked),
        )
      ]
    ]

    pub tls_phase_ssl-holds :
        (reply : Answer)
        → s.state ≡ st_tls_phase_ssl
        → HoldsBack call side w (process_tls_phase_ssl lion call side reply w)
    unfolding process_tls_phase_ssl process_tls_init enter move_to change state_number
    tls_phase_ssl-holds reply e = elim (Bool-cases (is_code reply 234)) [
      | inl ok ↦
          inr (record s { state = st_tls_wait }, ground (arith, h, ok, e), inr (refl, unasked))
      | inr other ↦ elim (Bool-cases (is_answer reply)) [
        | inl answer ↦ inl (codes "AUTH TLS/SSL Failed", ground (arith, h, other, answer, insists))
        | inr silent ↦ inr (
          s,
          ground (arith, h, other, silent, put-same side s w h),
          inr (ground (arith, e), unasked),
        )
      ]
    ]
