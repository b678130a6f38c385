-- ===== src/Engine/Control/Relays.antt =====
-- session_state_process, the cases that pass a reply on to the handler under a second id.
use fxp_one.Prelude.{
  Bool, true, false, ◌||◌, ◌++◌, [], Option, none, some, Text, codes, ℤ, pos, if◌then◌else◌, ◌>>=◌,
}
use fxp_one.Lion.{Lion}
use fxp_one.Session.Events.{
  st_idle, st_pwd_internal, st_relay_226, Event, state_event, no_event, ev_cmd, SessionEvent,
}
use fxp_one.Session.{Status, no_flags, internally}
use fxp_one.Queue.Types.{Side}
use fxp_one.Engine.World.{World, Call, at_session}
use fxp_one.Engine.Commands.{session_cmdq_new, crlf, session_pwd_reply}
use fxp_one.Engine.Control.Moves.{
  Answer, code, secure_enabled, secure_failed, is_code, is_answer, printed_line, change, touch,
}

-- SAFE_COPY(pwd, saved_cwd), if there is one
abbrev arrived : Option Text → Option Text → Option Text
arrived none pwd = pwd
arrived (some saved) pwd = some saved

-- The number that an event carries.
abbrev pub reply_number : Lion → Answer → ℤ
reply_number lion (code r) = r
reply_number lion secure_enabled = pos (lion.secure_status true)
reply_number lion secure_failed = pos (lion.secure_status false)

abbrev pub id_or_none : Option Event → Event
id_or_none none = no_event
id_or_none (some id) = id

-- session->handler(...), which is not tested here: NULL is a fault.
unfoldable pub call_handler : Call → Side → SessionEvent → World → Option World
call_handler call side ev w =
    at_session side w λ s. elim s.handler [ none ↦ none | some h ↦ call side ev w ]

module _ (lion : Lion) (call : Call) (side : Side) where
  -- TYPE, CCSN, SSCN, PROT: the bit follows the mode that was asked for, if the server agreed.
  unfoldable pub relay_mode : (Status → Status) → Answer → World → Option World
  unfolding change
  relay_mode set reply w =
      change call side
        (λ s. record s {
          status = if is_code reply 200 then set s.status else s.status;
          state = st_idle;
        })
        w

  -- The directory changed: what is known of the old one is dropped, and PWD asks for its path.
  relay_cwd_done : World → Option World
  unfolding change
  relay_cwd_done w = do
    w ← change call side (λ s. record s { pwd = arrived s.saved_cwd s.pwd; files = [] }) w
    session_cmdq_new call side (internally no_flags) (state_event st_pwd_internal)
        (codes "PWD" ++ crlf) w

  unfoldable pub process_relay_cwd : Answer → World → Option World
  unfolding change relay_cwd_done
  process_relay_cwd reply w =
      if is_code reply 250
      then relay_cwd_done w
      else change call side (λ s. record s { saved_cwd = none; state = st_idle }) w

  -- Once a server has answered 500, the state stays as it is.
  unfoldable pub process_relay_size : Answer → World → Option World
  unfolding change
  process_relay_size reply w =
      if is_code reply 500
      then change call side (λ s. record s { features = record s.features { has_size = false } }) w
      else change call side
          (λ s. record s { status = record s.status { on_size = true }; state = st_idle }) w

  -- An accepted REST leaves the state as it is.
  unfoldable pub process_relay_rest : Bool → Answer → World → Option World
  unfolding change
  process_relay_rest on reply w =
      if is_code reply 350
      then change call side (λ s. record s { status = record s.status { on_rest = on } }) w
      else change call side (λ s. record s { state = st_idle }) w

  unfoldable pub process_relay_transfer : Answer → World → Option World
  unfolding change
  process_relay_transfer reply w =
      if is_code reply 150 || (is_code reply 130 || is_code reply 125)
      then change call side (λ s. record s { forcebusy = true; state = st_relay_226 }) w
      else some w

  -- The end of a transfer is reported under the id that STOR or RETR left.
  finish_transfer : Answer → Option Text → World → Option World
  unfolding change touch call_handler
  finish_transfer reply line w = at_session side w λ s. do
    w ← change call side (λ s. record s { forcebusy = false }) w
    w ←
        call_handler call side
          (ev_cmd (id_or_none s.files_reply_id) (reply_number lion reply) (printed_line line)) w
    touch call side (λ s. record s { files_reply_id = none; state = st_idle }) w

  unfoldable pub process_relay_226 : Answer → Option Text → World → Option World
  unfolding finish_transfer
  process_relay_226 reply line w = if is_answer reply then finish_transfer reply line w else some w

  unfoldable pub process_pwd_internal : Option Text → World → Option World
  unfolding change session_pwd_reply
  process_pwd_internal line w =
      change call side (λ s. record (session_pwd_reply lion s line) { state = st_idle }) w
