-- ===== src/Engine/Control/Data.antt =====
-- engine/data.c: data_handler, what a session does with its data connection.
use fxp_one.Prelude.{
  Bool, true, false, [], Option, none, some, Text, codes, pos, length, if◌then◌else◌, ◌>>=◌,
}
use fxp_one.Lion.{Lion}
use fxp_one.Site.{is_yes}
use fxp_one.File.Listing.{session_parse}
use fxp_one.Session.Events.{ev_cmd}
use fxp_one.Session.{Cmd}
use fxp_one.Queue.Types.{Side}
use fxp_one.Engine.World.{World, Call, at_session}
use fxp_one.Engine.Commands.{session_setclose, raise}
use fxp_one.Engine.Control.Moves.{change, touch}
use fxp_one.Engine.Control.Relays.{id_or_none}
use fxp_one.Engine.Control.Machine.{first_place}

-- What lion tells of the data connection.
pub data DataSignal : Type 0 where
  data_connected data_new data_lost data_closed data_enabled data_failed : DataSignal
  data_line : Text → DataSignal

abbrev wants_raw : Option Cmd → Bool
wants_raw none = false
wants_raw (some c) = c.flags.flag_rawlist

module _ (lion : Lion) (call : Call) (side : Side) where
  -- session->data_handle = NULL
  unfoldable pub forget_link : World → Option World
  unfolding touch
  forget_link w = touch call side (λ s. record s { link = none }) w

  unfoldable pub lose_data : World → Option World
  unfolding forget_link
  lose_data w = do w ← session_setclose call side (codes "data connection lost") w; forget_link w

  -- The handler is given the listing.
  unfoldable pub end_data : World → Option World
  unfolding forget_link
  end_data w = at_session side w λ s. do
    w ← raise call s.handler side (ev_cmd (id_or_none s.files_reply_id) (pos (length s.files)) []) w
    forget_link w

  -- A connection that the server opened is secured as the session says.
  unfoldable pub accept_data : World → Option World
  unfolding change
  accept_data w =
      change call side
        (λ s. record s { link = some (record { secured = s.status.on_privacy; reading = true }) }) w

  unfoldable pub data_handler : DataSignal → World → Option World
  unfolding lose_data end_data accept_data change session_parse
  data_handler data_connected w = some w
  data_handler data_new w = accept_data w
  data_handler data_lost w = lose_data w
  data_handler data_closed w = end_data w
  data_handler data_enabled w = some w
  data_handler data_failed w = at_session side w λ s.
      if is_yes s.site.data_tls
      then session_setclose call side (codes "Secure DATA failed -- aborting per user option") w
      else some w
  data_handler (data_line line) w =
      change call side
        (λ s. record s {
          files = session_parse lion s.files s.pwd (wants_raw (first_place s)) line;
        })
        w
