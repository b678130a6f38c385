-- ===== src/Engine/Commands/Transfers.antt =====
-- session_cwd, session_size, session_rest, session_stor, session_retr, session_dirlist.
use Prim.Native.Nat.{bit_and}
use fxp_one.Prelude.{
  print_number, ℕ, Bool, true, false, not, ◌&&◌, ◌||◌, [], ◌∷◌, ◌++◌, Option, none, some, Text,
  codes, pos, if◌then◌else◌, ◌>>=◌, text_eq, ◌==◌,
}
use fxp_one.Lion.{Lion}
use fxp_one.Site.{Site, is_yes, is_no, is_auto, is_local}
use fxp_one.Session.Events.{
  SessionState, st_relay_cwd, st_relay_size, st_relay_rest_on, st_relay_rest_off, st_relay_stor,
  st_relay_retr, st_type_reply, st_prot_reply, st_pret_reply, st_port_reply, st_pasv_reply,
  st_data_transfer, Event, state_event,
}
use fxp_one.Session.{Flags, no_flags, internally, Session, Features, features_word, session_feat}
use fxp_one.Queue.Types.{Side}
use fxp_one.Engine.World.{World, Call, session, put_session}
use fxp_one.Engine.Commands.Queueing.{
  cmdq_new_internal, session_cmdq_new, session_cmdq_newf, session_setclose, crlf, format_line,
}
use fxp_one.Engine.Commands.Toggles.{
  cached_reply, session_type, session_ccsn, session_sscn, session_prot,
}

abbrev is_path : Text → Bool
is_path [] = false
is_path (c ∷ cs) = c == b'/'

abbrev same_path : Text → Option Text → Bool
same_path want none = false
same_path want (some p) = text_eq want p

-- `!features & FEATURE_SIZE`: the negation comes first.
unfoldable pub lacks_size : Features → Bool
unfolding features_word
lacks_size f = not (bit_and (if features_word f == 0 then 1 else 0) 8 == 0)

-- session->data_handle = lion_listen(...)
unfoldable pub listen : Side → World → World
listen side w = elim (session side w) [
  | none ↦ w
  | some s ↦
      put_session side (record s { link = some (record { secured = false; reading = true }) }) w
]

module _ (call : Call) where
  unfoldable pub known_cwd : Side → Session → Flags → Option Event → Text → World → Option World
  known_cwd side s flags id want w =
      if not flags.flag_force
        && (is_path want && (same_path want s.pwd || same_path want s.saved_cwd))
      then cached_reply call id s side (pos 250) (codes "250 CWD command successful. (cached)") w
      else cmdq_new_internal call side (internally flags) (state_event st_relay_cwd) id
          (format_line (codes "CWD ") want)
          (put_session side (record s { saved_cwd = some want }) w)

  unfoldable pub session_cwd : Side → Flags → Option Event → Option Text → World → Option World
  unfolding known_cwd
  session_cwd side flags id none w = some w
  session_cwd side flags id (some want) w = elim (session side w) [
    | none ↦ none
    | some s ↦ known_cwd side s flags id want w
  ]

  unfoldable pub session_size : Side → Flags → Event → Text → World → Option World
  session_size side flags id want w = elim (session side w) [
    | none ↦ none
    | some s ↦
        if not flags.flag_force && lacks_size s.features
        then cached_reply call (some id) s side (pos 500)
            (codes "500 'SIZE': command not understood. (cached)") w
        else if not s.status.on_size
        then cmdq_new_internal call side (internally flags) (state_event st_relay_size) (some id)
            (format_line (codes "SIZE ") want) w
        else session_cmdq_newf call side flags id (codes "SIZE ") want w
  ]

  unfoldable pub session_rest : Side → Flags → Option Event → ℕ → World → Option World
  unfolding print_number
  session_rest side flags id want w = elim (session side w) [
    | none ↦ none
    | some s ↦
        if not flags.flag_force && (want == 0 && not s.status.on_rest)
        then cached_reply call id s side (pos 350)
            (codes "350 Restarting at 0. Send STORE or RETRIEVE to initiate transfer. (cached)") w
        else if want == 0
        then cmdq_new_internal call side (internally flags) (state_event st_relay_rest_off) id
            (codes "REST 0" ++ crlf) w
        else cmdq_new_internal call side (internally flags) (state_event st_relay_rest_on) id
            (format_line (codes "REST ") (print_number want)) w
  ]

  transfer : SessionState → Text → Side → Flags → Event → Event → Text → World → Option World
  transfer st word side flags start_event end_event file w = elim (session side w) [
    | none ↦ none
    | some s ↦
        cmdq_new_internal call side (internally flags) (state_event st) (some start_event)
          (format_line word file)
          (put_session side (record s { files_reply_id = some end_event }) w)
  ]

  unfoldable pub session_stor : Side → Flags → Event → Event → Text → World → Option World
  unfolding transfer
  session_stor = transfer st_relay_stor (codes "STOR ")

  unfoldable pub session_retr : Side → Flags → Event → Event → Text → World → Option World
  unfolding transfer
  session_retr = transfer st_relay_retr (codes "RETR ")

  -- TYPE for the listing: binary only if the site's desired type is YES.
  list_type : Site → Side → World → Option World
  list_type site side w =
      session_type call side (internally no_flags) (some (state_event st_type_reply))
        (is_yes site.desired_type) w

  -- PROT for the listing: private unless the site says NO, and never on the local machine.
  list_prot : Lion → Site → Side → World → Option World
  list_prot lion site side w =
      if is_local lion site
      then session_prot call side (internally no_flags) (some (state_event st_prot_reply)) false w
      else if (session_feat (session side w)).has_ssl
      then session_prot call side (internally no_flags) (some (state_event st_prot_reply))
          (not (is_no site.data_tls)) w
      else some w

  list_pret : Site → Side → World → Option World
  list_pret site side w =
      if is_yes site.pret || is_auto site.pret && (session_feat (session side w)).has_pret
      then session_cmdq_new call side (internally no_flags) (state_event st_pret_reply)
          (codes "PRET LIST" ++ crlf) w
      else some w

  send_list : Text → Flags → Side → World → Option World
  send_list args flags side w =
      session_cmdq_newf call side (internally flags) (state_event st_data_transfer) (codes "LIST ")
        args w

  unfoldable pub send_port : Option Text → Text → Flags → Side → World → Option World
  unfolding send_list
  send_port none args flags side w =
      session_setclose call side (codes "Failed to open socket for PORT") w
  send_port (some port) args flags side w = do
    w ←
        session_cmdq_newf call side (internally no_flags) (state_event st_port_reply)
          (codes "PORT ") port (listen side w)
    send_list args flags side w

  list_data : Lion → Site → Text → Flags → Side → World → Option World
  unfolding send_port send_list
  list_data lion site args flags side w =
      if is_no site.passive then send_port (lion.listen_port site.host) args flags side w else do
        w ←
            session_cmdq_new call side (internally no_flags) (state_event st_pasv_reply)
              (codes "PASV" ++ crlf) w
        send_list args flags side w

  list_session : Lion → Side → Session → Text → Flags → Event → World → Option World
  unfolding list_type list_prot list_pret list_data
  list_session lion side s args flags id w = do
    w ←
        list_type s.site side
          (put_session side (record s { files = []; files_reply_id = some id }) w)
    w ← session_ccsn call side (internally no_flags) none false w
    w ← session_sscn call side (internally no_flags) none false w
    w ← session_rest side (internally no_flags) none 0 w
    w ← list_prot lion s.site side w
    w ← list_pret s.site side w
    list_data lion s.site args flags side w

  -- session_dirlist with its arguments given, `args ? args : DEFAULT_LISTARGS` taken
  unfoldable pub session_dirlist : Lion → Side → Text → Flags → Event → World → Option World
  unfolding list_session
  session_dirlist lion side args flags id w = elim (session side w) [
    | none ↦ none
    | some s ↦ list_session lion side s args flags id w
  ]
