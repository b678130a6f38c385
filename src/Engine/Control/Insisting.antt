-- ===== src/Engine/Control/Insisting.antt =====
-- A site that insists on TLS: what it means that a login is held back, and what giving a session a
-- command does to it.
pub mod Cases
pub mod Challenge
use fxp_one.Prelude.{
  ℕ, Bool, true, false, not, ◌&&◌, ◌||◌, List, [], ◌∷◌, ◌++◌, Option, none, some, Text, ◌≡◌, refl,
  arith, ◌>>=◌, ℤ, pos, negsuc, codes, ◌⊎◌, inl, inr, ap, ◌∙◌, sym, Bool-cases, ◌==◌,
}
use fxp_one.Lion.{Lion}
use fxp_one.Site.{Site, yna_yes, Yna}
use fxp_one.Queue.Types.{Side, north, south}
use fxp_one.Session.Events.{
  SessionState, st_connecting, st_connected, st_await_220, st_tls_start, st_tls_phase_tls,
  st_tls_phase_ssl, st_tls_init, st_tls_wait, st_login_start, st_login_sent_user,
  st_login_sent_pass, st_sent_cmd, Event, state_event, no_event,
}
use fxp_one.Session.{Session, Cmd, Flags, no_flags, internally, Status, no_commands}
use fxp_one.Engine.World.{World, Call, session, put_session}
use fxp_one.Engine.Commands.{
  session_setclose, session_cmdq_newf, add_command, session_cmdq_restart, settle, restart,
  settle-silent, crlf, format_line,
}
use fxp_one.Engine.Commands.Pending.{queued, queued_cmdq, restart-silent, append-some}
use fxp_one.Engine.Control.Moves.{
  Answer, code, secure_enabled, secure_failed, change, state_number, same_state, is_code, is_answer,
  enter, move_to, release,
}
use fxp_one.Engine.Control.Login.{
  process_connecting, process_connected, process_tls_start, process_await_220, process_tls_init,
  process_tls_phase_tls, process_tls_phase_ssl, process_tls_wait, refused, process_login_start,
  tls_session,
}
use fxp_one.Engine.Control.Laws.{session-put, put-put}
use fxp_one.Engine.Control.Machine.{session_state_process, process_state}

-- The states from the connection to the end of the challenge.
abbrev pub is_before_login : SessionState → Bool
is_before_login st_connecting = true
is_before_login st_connected = true
is_before_login st_await_220 = true
is_before_login st_tls_start = true
is_before_login st_tls_phase_tls = true
is_before_login st_tls_phase_ssl = true
is_before_login st_tls_init = true
is_before_login st_tls_wait = true
is_before_login _ = false

-- The ids of USER and PASS.
abbrev pub is_login_id : Event → Bool
is_login_id (state_event st_login_sent_user) = true
is_login_id (state_event st_login_sent_pass) = true
is_login_id _ = false

abbrev pub asks_login : List Cmd → Bool
asks_login [] = false
asks_login (c ∷ cs) = is_login_id c.id || asks_login cs

pub asks_login-append :
    (cs : List Cmd) (c : Cmd) → asks_login (cs ++ c ∷ []) ≡ (asks_login cs || is_login_id c.id)
asks_login-append [] c = ground arith
asks_login-append (d ∷ cs) c = ground (arith, asks_login-append cs c)

-- The session is secured, or has not come to the login and has no command of it.
abbrev pub IsHeldBack : Session → Type 0
IsHeldBack s =
    (s.status.on_ssl ≡ true) ⊎ ((is_before_login s.state ≡ true) × (asks_login s.cmdq ≡ false))

-- The step closes the session, or leads to one that is held back.
abbrev pub HoldsBack : Call → Side → World → Option World → Type 0
HoldsBack call side w o =
    ((reason : Text) × (o ≡ session_setclose call side reason w))
    ⊎ ((s : Session) × (o ≡ some (put_session side s w)) × IsHeldBack s)

pub restart-keeps :
    (s : Session) (c : Cmd) (cs : List Cmd)
    → let r = (restart (record s { cmdq = c ∷ cs })).0 in
      (r.state ≡ s.state) × (r.status ≡ s.status)
unfolding restart
restart-keeps s c cs = (ground arith, ground arith)

pub queued-keeps :
    (s : Session) (c : Cmd) → ((queued s c).state ≡ s.state) × ((queued s c).status ≡ s.status)
unfolding queued
queued-keeps s c = by_list s.cmdq
  where
    by_list :
        (cs : List Cmd)
        → let r = (restart (record s { cmdq = cs ++ c ∷ [] })).0 in
          (r.state ≡ s.state) × (r.status ≡ s.status)
    by_list [] = restart-keeps s c []
    by_list (d ∷ ds) = restart-keeps s d (ds ++ c ∷ [])

pub put-same :
    (side : Side) (s : Session) (w : World) → session side w ≡ some s → put_session side s w ≡ w
put-same north s w h = ground (arith, h)
put-same south s w h = ground (arith, h)

abbrev pub asking : Flags → Event → Text → Text → Cmd
asking flags id word arg = record {
  cmd = format_line word arg;
  id = id;
  subid = none;
  flags = flags;
}

pub session_cmdq_newf-queues :
    (call : Call) (side : Side) (flags : Flags) (id : Event) (word arg : Text) (w : World)
    (s : Session)
    → session side w ≡ some s
    → s.online ≡ true
    → session_cmdq_newf call side flags id word arg w
      ≡ some (put_session side (queued s (asking flags id word arg)) w)
unfolding session_cmdq_newf add_command session_cmdq_restart queued
session_cmdq_newf-queues call side flags id word arg w s h up =
    let c = asking flags id word arg in
    ground (
      arith,
      settle-silent call side w (restart (record s { cmdq = s.cmdq ++ c ∷ [] }))
          (restart-silent (record s { cmdq = s.cmdq ++ c ∷ [] }) (append-some s.cmdq c)),
    )
