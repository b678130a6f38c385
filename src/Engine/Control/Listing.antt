-- ===== src/Engine/Control/Listing.antt =====
-- session_state_process, the cases of a directory listing.
use fxp_one.Prelude.{true, false, Option, none, some, Text, codes, if◌then◌else◌, ◌>>=◌, ◌&&◌}
use fxp_one.Lion.{Lion}
use fxp_one.Site.{is_yes}
use fxp_one.Session.Events.{st_data_finish, st_idle}
use fxp_one.Session.{Session, Link}
use fxp_one.Queue.Types.{Side}
use fxp_one.Engine.World.{World, Call, at_session}
use fxp_one.Engine.Commands.{session_setclose}
use fxp_one.Engine.Control.Moves.{Answer, is_code, is_answer, printed_line, change, release}

module _ (lion : Lion) (call : Call) (side : Side) where
  -- The mode bit is cleared whichever TYPE was asked for.
  unfoldable pub process_type_reply : Answer → World → Option World
  unfolding change
  process_type_reply reply w =
      if is_code reply 200
      then change call side (λ s. record s { status = record s.status { on_binary = false } }) w
      else some w

  unfoldable pub process_prot_reply : Answer → World → Option World
  process_prot_reply reply w = at_session side w λ s.
      if is_code reply 200
      then some w
      else if is_answer reply && is_yes s.site.data_tls
      then session_setclose call side (codes "Could not set TLS PRIVACY when forced") w
      else some w

  -- The connection is made at once, and is read from when the listing begins.
  abbrev connect_data : Session → Session
  connect_data s = record s {
    link = some (record { secured = s.status.on_privacy; reading = false });
  }

  unfoldable pub passive_at : Text → World → Option World
  unfolding change
  passive_at line w = elim (lion.ftp_pasv line) [
    | none ↦ session_setclose call side (codes "PASV reply parse error") w
    | some at ↦ change call side connect_data w
  ]

  unfoldable pub process_pasv_reply : Answer → Option Text → World → Option World
  unfolding passive_at
  process_pasv_reply reply line w =
      if is_code reply 227
      then passive_at (printed_line line) w
      else if is_answer reply
      then session_setclose call side (printed_line line) w
      else some w

  unfoldable pub process_port_reply : Answer → Option Text → World → Option World
  process_port_reply reply line w =
      if is_code reply 200 then some w else session_setclose call side (printed_line line) w

  abbrev read_link : Option Link → Option Link
  read_link none = none
  read_link (some l) = some (record l { reading = true })

  -- No command is sent until the transfer is over.
  abbrev begin_listing : Session → Session
  begin_listing s = record s { state = st_data_finish; forcebusy = true; link = read_link s.link }

  unfoldable pub process_data_transfer : Answer → Option Text → World → Option World
  unfolding change
  process_data_transfer reply line w =
      if is_code reply 150
      then change call side begin_listing w
      else if is_answer reply
      then session_setclose call side (printed_line line) w
      else some w

  end_listing : World → Option World
  unfolding change release
  end_listing w = do
    w ← change call side (λ s. record s { forcebusy = false; state = st_idle }) w
    release call side w

  unfoldable pub process_data_finish : Answer → Option Text → World → Option World
  unfolding end_listing
  process_data_finish reply line w =
      if is_code reply 226
      then end_listing w
      else if is_answer reply
      then session_setclose call side (printed_line line) w
      else some w
