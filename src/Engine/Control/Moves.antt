-- ===== src/Engine/Control/Moves.antt =====
-- engine/session_states.h, session.c: the numbers of the states, session_set_state, and what the
-- state machine of a session is told.
use fxp_one.Prelude.{
  ℕ, Bool, true, false, Option, none, some, Text, codes, ℤ, pos, negsuc, ltb, ◌==◌, if◌then◌else◌,
}
use fxp_one.Session.Events.{
  SessionState, st_none, st_sent_cmd, st_connecting, st_connected, st_await_220, st_tls_start,
  st_tls_phase_tls, st_tls_phase_ssl, st_tls_init, st_tls_wait, st_login_start, st_login_sent_user,
  st_login_sent_pass, st_reply_pbsz, st_misc, st_misc_reply_syst, st_misc_reply_clnt,
  st_misc_reply_feat, st_misc_reply_xdupe, st_type_reply, st_prot_reply, st_pret_reply,
  st_pasv_reply, st_port_reply, st_data_transfer, st_data_finish, st_idle, st_relay_type_ascii,
  st_relay_type_binary, st_relay_ccsn_off, st_relay_ccsn_on, st_relay_sscn_off, st_relay_sscn_on,
  st_relay_privacy_off, st_relay_privacy_on, st_relay_cwd, st_relay_size, st_relay_rest_on,
  st_relay_rest_off, st_relay_stor, st_relay_retr, st_relay_226, st_pwd_internal, st_test,
}
use fxp_one.Session.{Session}
use fxp_one.Queue.Types.{Side}
use fxp_one.Engine.World.{World, Call, session, put_session, at_session}
use fxp_one.Engine.Commands.{session_cmdq_restart}

unfoldable pub state_number : SessionState → ℕ
state_number st_none = 0
state_number st_sent_cmd = 1
state_number st_connecting = 2
state_number st_connected = 3
state_number st_await_220 = 4
state_number st_tls_start = 5
state_number st_tls_phase_tls = 6
state_number st_tls_phase_ssl = 7
state_number st_tls_init = 8
state_number st_tls_wait = 9
state_number st_login_start = 10
state_number st_login_sent_user = 11
state_number st_login_sent_pass = 12
state_number st_reply_pbsz = 13
state_number st_misc = 14
state_number st_misc_reply_syst = 15
state_number st_misc_reply_clnt = 16
state_number st_misc_reply_feat = 17
state_number st_misc_reply_xdupe = 18
state_number st_type_reply = 19
state_number st_prot_reply = 20
state_number st_pret_reply = 21
state_number st_pasv_reply = 22
state_number st_port_reply = 23
state_number st_data_transfer = 24
state_number st_data_finish = 25
state_number st_idle = 26
state_number st_relay_type_ascii = 27
state_number st_relay_type_binary = 28
state_number st_relay_ccsn_off = 29
state_number st_relay_ccsn_on = 30
state_number st_relay_sscn_off = 31
state_number st_relay_sscn_on = 32
state_number st_relay_privacy_off = 33
state_number st_relay_privacy_on = 34
state_number st_relay_cwd = 35
state_number st_relay_size = 36
state_number st_relay_rest_on = 37
state_number st_relay_rest_off = 38
state_number st_relay_stor = 39
state_number st_relay_retr = 40
state_number st_relay_226 = 41
state_number st_pwd_internal = 42
state_number st_test = 43

abbrev pub same_state : SessionState → SessionState → Bool
same_state a b = state_number a == state_number b

-- What is passed on as `reply`: a reply code, -1 for a line before the last, or the lion status that
-- says how TLS went, which is a number above 0 that is no reply code of a server.
pub data Answer : Type 0 where
  code : ℤ → Answer
  secure_enabled secure_failed : Answer

abbrev pub interim : Answer
interim = code (negsuc 0)

abbrev pub is_code : Answer → ℕ → Bool
is_code (code (pos r)) n = r == n
is_code (code (negsuc m)) n = false
is_code secure_enabled n = false
is_code secure_failed n = false

-- reply > 0
abbrev pub is_answer : Answer → Bool
is_answer (code (pos r)) = ltb 0 r
is_answer (code (negsuc m)) = false
is_answer secure_enabled = true
is_answer secure_failed = true

-- A line that may be NULL, as it is printed.
abbrev pub printed_line : Option Text → Text
printed_line none = codes "(null)"
printed_line (some line) = line

module _ (call : Call) (side : Side) where
  unfoldable pub change : (Session → Session) → World → Option World
  change f w = at_session side w (λ s. some (put_session side (f s) w))

  -- The same behind a call of a handler. A session that the manager gave up meanwhile is closed,
  -- and what is still written into it is not seen again.
  unfoldable pub touch : (Session → Session) → World → Option World
  touch f w = elim (session side w) [ none ↦ some w | some s ↦ some (put_session side (f s) w) ]

  -- session_set_state with skip
  unfoldable pub move_to : SessionState → World → Option World
  unfolding change
  move_to st w = change (λ s. record s { state = st }) w

  -- session_set_state without skip: a state that is new is processed, with reply -1 and no line.
  unfoldable pub enter : SessionState → (World → Option World) → World → Option World
  enter st process w = at_session side w λ s.
      if same_state s.state st
      then some w
      else process (put_session side (record s { state = st }) w)

  -- session->forcebusy = 0; session_cmdq_restart(session)
  unfoldable pub release : World → Option World
  release w =
      at_session side w λ s. session_cmdq_restart call side (record s { forcebusy = false }) w
