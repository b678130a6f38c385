-- ===== src/Engine/Commands/Queueing.antt =====
-- session_cmdq_restart, session_cmdq_new_internal, session_cmdq_new, session_cmdq_newf,
-- session_set_handler, session_setclose, session_new.
use fxp_one.Prelude.{
  Bool, true, false, not, List, [], ◌∷◌, ◌++◌, Option, none, some, Text, codes, take, if◌then◌else◌,
  ◌>>=◌, ◌≡◌, refl, ◌∙◌, if_false, not-true,
}
use fxp_one.Lion.{Lion}
use fxp_one.Site.{Site, is_local}
use fxp_one.Session.Events.{st_idle, st_connecting, Event, SessionEvent, ev_idle, ev_lost}
use fxp_one.Session.{Flags, Cmd, no_features, Handler, Session, no_commands, session_isidle}
use fxp_one.Queue.Types.{Side}
use fxp_one.Engine.World.{World, Call, session, put_session}

-- The first command of the queue goes to the server, which is then busy.
send_first : List Cmd → Session → Session
send_first [] s = s
send_first (c ∷ cs) s = record s { isidle = false; sent = s.sent ++ c.cmd ∷ [] }

-- session_cmdq_restart up to the event, with whether IDLE is to be reported.
unfoldable pub restart : Session → Session × Bool
unfolding send_first
restart s =
    if not s.online
    then (s, false)
    else if s.forcebusy
    then (s, false)
    else if not s.isidle
    then (s, false)
    else if no_commands s.cmdq
    then (record s { isidle = true; state = st_idle }, true)
    else (send_first s.cmdq s, false)

-- The buffer of 1024 bytes that session_cmdq_newf prints into.
abbrev pub crlf : Text
crlf = 13 ∷ 10 ∷ []

unfoldable pub format_line : Text → Text → Text
format_line word arg = take 1023 (word ++ (arg ++ crlf))

-- What session_new makes of a site; lion_connect and local_spawn give a handle in every case.
unfoldable pub session_new : Lion → Bool → Handler → Site → Session
session_new lion server_ssl h site =
    let own = is_local lion site in
    record {
      site = site;
      online = true;
      handler = some h;
      cmdq = [];
      answered = none;
      pwd = some (if own then codes "/" else codes "./");
      saved_cwd = none;
      state = st_connecting;
      isidle = false;
      forcebusy = false;
      features = record no_features {
        has_ssl = own;
        has_ccsn = if own then server_ssl else false;
        has_size = true;
      };
      status = record {
        on_ssl = own;
        on_binary = false;
        on_sscn = false;
        on_ccsn = false;
        on_privacy = false;
        on_size = false;
        on_rest = false;
        on_xdupe = false;
      };
      link = none;
      files = [];
      files_reply_id = none;
      sent = [];
    }

module _ (call : Call) where
  -- session->handler(...), if there is one
  unfoldable pub raise : Option Handler → Side → SessionEvent → World → Option World
  raise none side ev w = some w
  raise (some h) side ev w = call side ev w

  unfoldable pub settle : Side → Session × Bool → World → Option World
  unfolding raise
  settle side (s, false) w = some (put_session side s w)
  settle side (s, true) w = raise s.handler side ev_idle (put_session side s w)

  unfoldable pub session_cmdq_restart : Side → Session → World → Option World
  unfolding settle
  session_cmdq_restart side s w = settle side (restart s) w

  unfoldable pub add_command : Side → Session → Cmd → World → Option World
  unfolding session_cmdq_restart
  add_command side s c w =
      if not s.online
      then some w
      else session_cmdq_restart side (record s { cmdq = s.cmdq ++ c ∷ [] }) w

  -- session_cmdq_new_internal; a session that is NULL is a fault
  unfoldable pub cmdq_new_internal :
      Side → Flags → Event → Option Event → Text → World → Option World
  unfolding add_command
  cmdq_new_internal side flags id subid line w = elim (session side w) [
    | none ↦ none
    | some s ↦ add_command side s (record { cmd = line; id = id; subid = subid; flags = flags }) w
  ]

  unfoldable pub session_cmdq_new : Side → Flags → Event → Text → World → Option World
  unfolding cmdq_new_internal
  session_cmdq_new side flags id line w = cmdq_new_internal side flags id none line w

  -- session_cmdq_newf does nothing without a session.
  unfoldable pub session_cmdq_newf : Side → Flags → Event → Text → Text → World → Option World
  unfolding add_command
  session_cmdq_newf side flags id word arg w = elim (session side w) [
    | none ↦ some w
    | some s ↦
        add_command side s
          (record { cmd = format_line word arg; id = id; subid = none; flags = flags }) w
  ]

  -- Sets the handler, and reports IDLE to it if the session waits and no listing is under way.
  unfoldable pub given_handler : Side → Session → World → Option World
  unfolding raise
  given_handler side s w = elim s.files_reply_id [
    | some id ↦ some (put_session side s w)
    | none ↦
        if session_isidle (some s)
        then raise s.handler side ev_idle (put_session side s w)
        else some (put_session side s w)
  ]

  unfoldable pub session_set_handler : Side → Option Handler → World → Option World
  unfolding given_handler
  session_set_handler side h w = elim (session side w) [
    | none ↦ none
    | some s ↦ given_handler side (record s { handler = h }) w
  ]

  -- After LOST the manager may have let go of the session.
  unfoldable pub detach : Side → World → Option World
  detach side w = elim (session side w) [
    | none ↦ some w
    | some s ↦ some (put_session side (record s { handler = none; files = [] }) w)
  ]

  unfoldable pub close_session : Side → Session → Text → World → Option World
  unfolding raise detach
  close_session side s reason w = if not s.online then detach side w else do
    w ← raise s.handler side (ev_lost reason) (put_session side (record s { online = false }) w)
    detach side w

  unfoldable pub session_setclose : Side → Text → World → Option World
  unfolding close_session
  session_setclose side reason w = elim (session side w) [
    | none ↦ none
    | some s ↦ close_session side s reason w
  ]

pub settle-silent :
    (call : Call) (side : Side) (w : World) (r : Session × Bool)
    → r.1 ≡ false
    → settle call side r w ≡ some (put_session side r.0 w)
unfolding settle
settle-silent call side w (s, false) h = refl
settle-silent call side w (s, true) h = cc

pub cmdq_new-settles :
    (call : Call) (side : Side) (flags : Flags) (id : Event) (subid : Option Event) (line : Text)
    (w : World) (s : Session)
    → session side w ≡ some s
    → s.online ≡ true
    → let c : Cmd = record { cmd = line; id = id; subid = subid; flags = flags } in
      let r = restart (record s { cmdq = s.cmdq ++ c ∷ [] }) in
      r.1 ≡ false
      → cmdq_new_internal call side flags id subid line w ≡ some (put_session side r.0 w)
unfolding cmdq_new_internal
cmdq_new-settles call side flags id subid line w s h up silent =
    let c : Cmd = record { cmd = line; id = id; subid = subid; flags = flags } in
    let s' = record s { cmdq = s.cmdq ++ c ∷ [] } in
    rw (h, cmdq_new_internal)
      (if_false (some w) (settle call side (restart s') w) (not-true up)
        ∙ settle-silent call side w (restart s') silent)

-- session_abor does nothing yet.
unfoldable pub session_abor : Side → World → World
session_abor side w = w
