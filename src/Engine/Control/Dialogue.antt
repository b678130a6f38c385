-- ===== src/Engine/Control/Dialogue.antt =====
-- Dialogues with a server: AUTH SSL, a transfer that is refused, a mode that is set twice.
use fxp_one.Prelude.{
  ℕ, Bool, true, false, [], ◌∷◌, Option, none, some, Text, ◌≡◌, arith, pos, ◌||◌, ◌==◌,
}
use fxp_one.Lion.{Lion}
use fxp_one.Queue.Types.{Side}
use fxp_one.Session.Events.{
  SessionState, st_idle, st_tls_phase_ssl, st_relay_stor, st_relay_type_ascii, st_relay_type_binary,
  st_relay_privacy_on, st_relay_privacy_off, Event, state_event, ev_idle,
}
use fxp_one.Session.{Session, Flags, no_flags, internally, Handler}
use fxp_one.Engine.World.{World, Call, session, put_session}
use fxp_one.Engine.Commands.{
  session_set_handler, given_handler, session_cmdq_restart, settle, restart, raise, session_type,
  session_prot, switch_mode, cached_reply, type_switch, prot_switch,
}
use fxp_one.Engine.Control.Moves.{change, state_number, code, enter, move_to}
use fxp_one.Engine.Control.Login.{process_tls_phase_ssl, process_tls_init}
use fxp_one.Engine.Control.Relays.{process_relay_transfer, relay_mode}
use fxp_one.Engine.Control.Machine.{
  session_cmdq_reply, take_reply, answer_command, after_reply, follow_id, state_of, relay,
  session_state_process, process_state, session_handler, enabled,
}

-- A session that waits for the answer to AUTH SSL, with nothing else to send.
abbrev pub asked_ssl : Session → Handler → Text → Session
asked_ssl s h cmd = record s {
  online = true;
  forcebusy = false;
  isidle = false;
  handler = some h;
  cmdq =
      record {
        cmd = cmd;
        id = state_event st_tls_phase_ssl;
        subid = none;
        flags = internally no_flags;
      }
      ∷ [];
}

-- The same session, idle.
abbrev pub idled : Session → Handler → Text → Session
idled s h cmd = record (asked_ssl s h cmd) {
  cmdq = [];
  answered = some (record {
    cmd = cmd;
    id = state_event st_tls_phase_ssl;
    subid = none;
    flags = internally no_flags;
  });
  isidle = true;
  state = st_idle;
}

module _ (lion : Lion) (call : Call) (side : Side) where
  -- When AUTH SSL is accepted, the session is reported idle at once, before the challenge and before a
  -- login, and the end of the challenge, which would begin the login, changes nothing any more.
  pub session_cmdq_reply-ssl :
      (s : Session) (h : Handler) (cmd line : Text) (w : World)
      → session side w ≡ some (asked_ssl s h cmd)
      → let v = put_session side (idled s h cmd) w in
        (session_cmdq_reply lion call side 234 line w ≡ call side ev_idle v)
        × (session_handler lion call side enabled v ≡ some v)
  unfolding session_cmdq_reply take_reply answer_command after_reply follow_id state_of state_number
      session_state_process process_state relay process_tls_phase_ssl process_tls_init enter move_to
      change session_cmdq_restart settle restart raise session_handler
  session_cmdq_reply-ssl s h cmd line w e = (ground arith, ground arith)

abbrev pub type_state : Bool → SessionState
type_state true = st_relay_type_binary
type_state false = st_relay_type_ascii

abbrev pub prot_state : Bool → SessionState
prot_state true = st_relay_privacy_on
prot_state false = st_relay_privacy_off

-- The session once TYPE is accepted, and once PROT is.
abbrev pub typed : Bool → Session → Session
typed want s = record s { status = record s.status { on_binary = want }; state = st_idle }

abbrev pub protected : Bool → Session → Session
protected want s = record s { status = record s.status { on_privacy = want }; state = st_idle }

module _ (lion : Lion) (call : Call) (side : Side) where
  -- A transfer that the server refuses, with a reply other than 150, 130 and 125, leaves the id of its
  -- end behind, so a handler that is set afterwards is not told that the session is idle.
  pub session_set_handler-refused :
      (s : Session) (r : ℕ) (id : Event) (line : Option Text) (h : Option Handler) (w : World)
      → session side w ≡ some (record s { state = st_relay_stor; files_reply_id = some id })
      → (r == 150 || (r == 130 || r == 125)) ≡ false
      → (session_state_process lion call side (code (pos r)) line w ≡ some w)
        × (session_set_handler call side h w
            ≡ some (
                put_session side
                  (record s { state = st_relay_stor; files_reply_id = some id; handler = h })
                  w))
  unfolding session_state_process process_state process_relay_transfer session_set_handler
      given_handler
  session_set_handler-refused s r id line h w e other = (ground arith, ground arith)

  -- After TYPE is accepted, the same TYPE is not sent again: the reply is made up.
  pub session_type-cached :
      (s : Session) (want : Bool) (flags : Flags) (id : Option Event) (line : Option Text)
      (w : World)
      → session side w ≡ some (record s { state = type_state want })
      → flags.flag_force ≡ false
      → let v = put_session side (typed want s) w in
        (session_state_process lion call side (code (pos 200)) line w ≡ some v)
        × (session_type call side flags id want v
            ≡ cached_reply call id (typed want s) side (pos 200) (type_switch want).cached v)
  unfolding session_state_process process_state relay_mode change session_type switch_mode
  session_type-cached s true flags id line w e f = (ground arith, ground arith)
  session_type-cached s false flags id line w e f = (ground arith, ground arith)

  -- After PROT is accepted, the same PROT is not sent again: the reply is made up.
  pub session_prot-cached :
      (s : Session) (want : Bool) (flags : Flags) (id : Option Event) (line : Option Text)
      (w : World)
      → session side w ≡ some (record s { state = prot_state want })
      → flags.flag_force ≡ false
      → let v = put_session side (protected want s) w in
        (session_state_process lion call side (code (pos 200)) line w ≡ some v)
        × (session_prot call side flags id want v
            ≡ cached_reply call id (protected want s) side (pos 200) (prot_switch want).cached v)
  unfolding session_state_process process_state relay_mode change session_prot switch_mode
  session_prot-cached s true flags id line w e f = (ground arith, ground arith)
  session_prot-cached s false flags id line w e f = (ground arith, ground arith)
