-- ===== src/Engine/Control/Laws.antt =====
-- How the state machine of a session behaves: transfers, listings and modes.
use fxp_one.Prelude.{true, false, [], none, some, Text, ◌≡◌, refl, arith, ◌>>=◌, atoi}
use fxp_one.Lion.{Lion}
use fxp_one.Queue.Types.{Side, north, south}
use fxp_one.Session.Events.{st_data_transfer, st_data_finish, state_event}
use fxp_one.Session.{Session, Flags}
use fxp_one.Engine.World.{World, Call, session, put_session}
use fxp_one.Engine.Commands.{session_setclose}
use fxp_one.Engine.Control.Moves.{change, state_number}
use fxp_one.Engine.Control.Listing.{process_data_transfer}
use fxp_one.Engine.Control.Machine.{
  is_ssh, is_reply_line, session_input, log_event, reply_line, other_line, follow_line,
  follow_internal, follow_id, state_of, session_state_process, process_state, relay,
}

-- Storing a session and reading it again.
pub session-put :
    (side : Side) (s : Session) (w : World) → session side (put_session side s w) ≡ some s
session-put north s w = refl
session-put south s w = refl

pub put-put :
    (side : Side) (s t : Session) (w : World)
    → put_session side t (put_session side s w) ≡ put_session side t w
put-put north s t w = refl
put-put south s t w = refl

-- A session whose last command was a LIST with the log flag, and that waits for the 226.
abbrev pub listing_sent : Session → Text → Flags → Session
listing_sent s cmd flags = record s {
  state = st_data_finish;
  isidle = true;
  cmdq = [];
  answered = some (record {
    cmd = cmd;
    id = state_event st_data_transfer;
    subid = none;
    flags = record flags { flag_log = true; flag_internal = true };
  });
}

module _ (lion : Lion) (call : Call) (side : Side) where
  -- While a listing ends that was asked for with the log flag, a line that is no reply puts the session
  -- back to where it waits for the 150, and the 226 that follows closes the session.
  pub session_input-multi_line :
      (s : Session) (cmd : Text) (flags : Flags) (line last : Text) (w : World)
      → session side w ≡ some (listing_sent s cmd flags)
      → is_reply_line line ≡ false
      → is_reply_line last ≡ true
      → atoi last ≡ 226
      → let v =
          put_session side (record (listing_sent s cmd flags) { state = st_data_transfer }) w in
        (session_input lion call side line w ≡ some v)
        × (session_input lion call side last v
            ≡ (session_setclose call side last v >>= log_event lion call side last))
  unfolding session_input is_ssh other_line follow_line follow_internal follow_id state_of
      state_number session_state_process process_state relay change process_data_transfer reply_line
  session_input-multi_line s cmd flags line last w h plain final e = (ground arith, ground arith)
