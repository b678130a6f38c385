-- ===== src/Engine/Control/Machine.antt =====
-- session_state_process, session_cmdq_reply, session_handler.
use fxp_one.Prelude.{
  ℕ, Bool, true, false, not, ◌&&◌, List, [], ◌∷◌, Option, none, some, Text, codes, ℤ, pos, negsuc,
  ◌==◌, ltb, length, ◌++◌, if◌then◌else◌, ◌>>=◌, is_digit, atoi, starts_with,
}
use fxp_one.Lion.{Lion}
use fxp_one.Session.Events.{
  SessionState, st_connecting, st_connected, st_await_220, st_tls_start, st_tls_phase_tls,
  st_tls_phase_ssl, st_tls_init, st_tls_wait, st_login_start, st_login_sent_user,
  st_login_sent_pass, st_misc, st_misc_reply_feat, st_misc_reply_xdupe, st_type_reply,
  st_prot_reply, st_pasv_reply, st_port_reply, st_data_transfer, st_data_finish,
  st_relay_type_ascii, st_relay_type_binary, st_relay_ccsn_off, st_relay_ccsn_on, st_relay_sscn_off,
  st_relay_sscn_on, st_relay_privacy_off, st_relay_privacy_on, st_relay_cwd, st_relay_size,
  st_relay_rest_on, st_relay_rest_off, st_relay_stor, st_relay_retr, st_relay_226, st_pwd_internal,
  Event, state_event, ev_cmd, ev_lost, ev_log,
}
use fxp_one.Session.{Session, Cmd}
use fxp_one.Queue.Types.{Side}
use fxp_one.Engine.World.{World, Call, session, put_session, at_session}
use fxp_one.Engine.Commands.{session_cmdq_restart, session_setclose, raise}
use fxp_one.Engine.Control.Moves.{
  Answer, code, interim, secure_enabled, secure_failed, same_state, change, enter, state_number,
}
use fxp_one.Engine.Control.Login.{
  process_connecting, process_connected, process_tls_start, process_login_start, process_await_220,
  process_tls_init, process_tls_phase_tls, process_tls_phase_ssl, process_tls_wait,
  process_login_sent_user, process_login_sent_pass, process_misc, process_misc_reply_feat,
  process_misc_reply_xdupe,
}
use fxp_one.Engine.Control.Listing.{
  process_type_reply, process_prot_reply, process_pasv_reply, process_port_reply,
  process_data_transfer, process_data_finish,
}
use fxp_one.Engine.Control.Relays.{
  call_handler, relay_mode, process_relay_cwd, process_relay_size, process_relay_rest,
  process_relay_transfer, process_relay_226, process_pwd_internal,
}

-- The state that the id of a command stands for, if the id is above 0. Only commands of the session's
-- own are asked, whose ids are states.
unfoldable pub state_of : Event → Option SessionState
state_of (state_event st) = if state_number st == 0 then none else some st
state_of id = none

-- What the first place of the command queue holds, whether or not a command waits there.
abbrev pub first_place : Session → Option Cmd
first_place s = elim s.cmdq [ [] ↦ s.answered | c ∷ cs ↦ some c ]

-- Three digits and a space.
unfoldable pub is_reply_line : Text → Bool
is_reply_line (a ∷ b ∷ c ∷ d ∷ rest) = is_digit a && (is_digit b && (is_digit c && d == b' '))
is_reply_line line = false

module _ (lion : Lion) (call : Call) (side : Side) where
  unfoldable pub process_state : SessionState → Answer → Option Text → World → Option World
  process_state st_connecting reply line w = process_connecting lion call side reply w
  process_state st_connected reply line w = process_connected lion call side w
  process_state st_await_220 reply line w = process_await_220 lion call side reply w
  process_state st_tls_start reply line w = process_tls_start lion call side w
  process_state st_tls_phase_tls reply line w = process_tls_phase_tls lion call side reply w
  process_state st_tls_phase_ssl reply line w = process_tls_phase_ssl lion call side reply w
  process_state st_tls_init reply line w = process_tls_init lion call side w
  process_state st_tls_wait reply line w = process_tls_wait lion call side reply w
  process_state st_login_start reply line w = process_login_start lion call side w
  process_state st_login_sent_user reply line w =
      process_login_sent_user lion call side reply line w
  process_state st_login_sent_pass reply line w =
      process_login_sent_pass lion call side reply line w
  process_state st_misc reply line w = process_misc lion call side w
  process_state st_misc_reply_feat reply line w = process_misc_reply_feat lion call side line w
  process_state st_misc_reply_xdupe reply line w = process_misc_reply_xdupe lion call side reply w
  process_state st_type_reply reply line w = process_type_reply lion call side reply w
  process_state st_prot_reply reply line w = process_prot_reply lion call side reply w
  process_state st_pasv_reply reply line w = process_pasv_reply lion call side reply line w
  process_state st_port_reply reply line w = process_port_reply lion call side reply line w
  process_state st_data_transfer reply line w = process_data_transfer lion call side reply line w
  process_state st_data_finish reply line w = process_data_finish lion call side reply line w
  process_state st_relay_type_ascii reply line w =
      relay_mode lion call side (λ m. record m { on_binary = false }) reply w
  process_state st_relay_type_binary reply line w =
      relay_mode lion call side (λ m. record m { on_binary = true }) reply w
  process_state st_relay_ccsn_off reply line w =
      relay_mode lion call side (λ m. record m { on_ccsn = false }) reply w
  process_state st_relay_ccsn_on reply line w =
      relay_mode lion call side (λ m. record m { on_ccsn = true }) reply w
  process_state st_relay_sscn_off reply line w =
      relay_mode lion call side (λ m. record m { on_sscn = false }) reply w
  process_state st_relay_sscn_on reply line w =
      relay_mode lion call side (λ m. record m { on_sscn = true }) reply w
  process_state st_relay_privacy_off reply line w =
      relay_mode lion call side (λ m. record m { on_privacy = false }) reply w
  process_state st_relay_privacy_on reply line w =
      relay_mode lion call side (λ m. record m { on_privacy = true }) reply w
  process_state st_relay_cwd reply line w = process_relay_cwd lion call side reply w
  process_state st_relay_size reply line w = process_relay_size lion call side reply w
  process_state st_relay_rest_on reply line w = process_relay_rest lion call side true reply w
  process_state st_relay_rest_off reply line w = process_relay_rest lion call side false reply w
  process_state st_relay_stor reply line w = process_relay_transfer lion call side reply w
  process_state st_relay_retr reply line w = process_relay_transfer lion call side reply w
  process_state st_relay_226 reply line w = process_relay_226 lion call side reply line w
  process_state st_pwd_internal reply line w = process_pwd_internal lion call side line w
  process_state st reply line w = some w

  unfoldable pub session_state_process : Answer → Option Text → World → Option World
  unfolding process_state
  session_state_process reply line w = at_session side w λ s. process_state s.state reply line w

  -- session_set_state(session, cmd.id, 1), if the id is above 0
  unfoldable pub follow_id : Event → World → Option World
  unfolding state_of change
  follow_id id w = elim (state_of id) [
    | none ↦ some w
    | some st ↦ change call side (λ s. record s { state = st }) w
  ]

  -- The event under the second id, if there is one.
  unfoldable pub relay : Option Event → ℤ → Text → World → Option World
  unfolding call_handler
  relay none reply line w = some w
  relay (some id) reply line w = call_handler call side (ev_cmd id reply line) w

  unfoldable pub answer_command : Cmd → ℕ → Text → World → Option World
  unfolding follow_id session_state_process relay call_handler
  answer_command c reply line w =
      if c.flags.flag_internal
      then (do
        w ← follow_id c.id w
        w ← session_state_process (code (pos reply)) (some line) w
        relay c.subid (pos reply) line w)
      else call_handler call side (ev_cmd c.id (pos reply) line) w

  -- The session waits for its next command, and sends it if nothing holds it back.
  unfoldable pub after_reply : World → Option World
  after_reply w = elim (session side w) [
    | none ↦ some w
    | some s ↦ session_cmdq_restart call side (record s { isidle = true }) w
  ]

  unfoldable pub take_reply : Session → List Cmd → ℕ → Text → World → Option World
  unfolding answer_command after_reply
  take_reply s [] reply line w = some w
  take_reply s (c ∷ cs) reply line w = do
    w ← answer_command c reply line (put_session side (record s { cmdq = cs; answered = some c }) w)
    after_reply w

  unfoldable pub session_cmdq_reply : ℕ → Text → World → Option World
  unfolding take_reply
  session_cmdq_reply reply line w = at_session side w λ s. take_reply s s.cmdq reply line w

  -- The reply goes to the command that waits for it, or to the state.
  unfoldable pub reply_line : Session → Text → World → Option World
  unfolding session_cmdq_reply session_state_process
  reply_line s line w =
      if not s.isidle
      then session_cmdq_reply (atoi line) line w
      else session_state_process (code (pos (atoi line))) (some line) w

  -- A line that is no reply goes to the command in the first place, which asked for it.
  unfoldable pub follow_internal : Cmd → Text → World → Option World
  unfolding follow_id session_state_process relay
  follow_internal c line w = at_session side w λ s. do
    w ← if same_state s.state st_relay_226 then some w else follow_id c.id w
    w ← session_state_process interim (some line) w
    relay c.subid (negsuc 0) line w

  unfoldable pub follow_line : Cmd → Text → World → Option World
  unfolding follow_internal call_handler
  follow_line c line w =
      if c.flags.flag_internal
      then follow_internal c line w
      else call_handler call side (ev_cmd c.id (negsuc 0) line) w

  -- if (session->handler) session->handler(..., LOG, ...)
  unfoldable pub log_event : Text → World → Option World
  log_event line w = elim (session side w) [
    | none ↦ some w
    | some s ↦ raise call s.handler side (ev_log line) w
  ]

  unfoldable pub other_line : Option Cmd → Text → World → Option World
  unfolding log_event follow_line
  other_line none line w = log_event line w
  other_line (some c) line w =
      if c.flags.flag_log then follow_line c (lion.url_encode line) w else log_event line w

  unfoldable pub is_ssh : Session → Text → Bool
  is_ssh s line =
      same_state s.state st_await_220 && (ltb 4 (length line) && starts_with (codes "SSH-") line)

  unfoldable pub session_input : Text → World → Option World
  unfolding reply_line other_line is_reply_line is_ssh
  session_input line w = at_session side w λ s.
      if is_reply_line line
      then (do w ← reply_line s line w; log_event line w)
      else if is_ssh s line
      then session_setclose call side
          (codes "FTP over SSH not supported. (FTP with SSL is supported)" ++ 10 ∷ []) w
      else other_line (first_place s) line w

-- What lion tells of the control connection.
pub data Signal : Type 0 where
  connected enabled failed : Signal
  closed : Text → Signal
  input : Text → Signal

module _ (lion : Lion) (call : Call) (side : Side) where
  -- session_handler
  unfoldable pub session_handler : Signal → World → Option World
  unfolding enter change process_connected session_state_process session_input call_handler
  session_handler connected w = enter call side st_connected (process_connected lion call side) w
  session_handler enabled w = session_state_process lion call side secure_enabled none w
  session_handler failed w = session_state_process lion call side secure_failed none w
  session_handler (closed line) w = do
    w ← change call side (λ s. record s { online = false }) w
    call_handler call side (ev_lost line) w
  session_handler (input line) w = session_input lion call side line w
