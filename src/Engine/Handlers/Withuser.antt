-- ===== src/Engine/Handlers/Withuser.antt =====
-- engine/handler.c: handler_codeok and handler_withuser, the handler while a user owns the session.
-- Of a line that is printed its values are kept; the entries of a listing are not.
use fxp_one.Prelude.{
  ℕ, Bool, true, false, ◌&&◌, Option, none, some, Text, ℤ, pos, negsuc, ltb, ◌==◌, if◌then◌else◌,
}
use fxp_one.Lion.{Lion}
use fxp_one.Site.{is_no}
use fxp_one.Queue.Types.{Side}
use fxp_one.Session.Events.{
  Event, quote_reply, cwd_reply, pwd_reply, size_reply, dele_reply, mkd_reply, rmd_reply,
  site_reply, rnfr_reply, rnto_reply, mdtm_reply, dirlist_sendto_user, SessionEvent, ev_idle,
  ev_log, ev_cmd, ev_lost,
}
use fxp_one.Session.{Session, session_feat}
use fxp_one.Engine.World.{
  Manager, disconnect, connect, idle, command_reply, log_line, path_reply, put_session, World,
  manager, set_manager, tell, drop_session,
}
use fxp_one.Engine.Commands.{session_pwd_reply}
use fxp_one.Engine.Handlers.Replies.{scan_size}

-- A reply with no fixed success code is fine below 300.
unfoldable pub handler_codeok : ℤ → ℕ → ℤ
handler_codeok (negsuc n) okcode = negsuc n
handler_codeok (pos r) okcode =
    if okcode == 0
    then (if ltb r 300 then pos 0 else pos r)
    else (if r == okcode then pos 0 else pos r)

abbrev is_code : ℤ → ℕ → Bool
is_code (pos r) n = r == n
is_code (negsuc m) n = false

-- The code that is printed for each id, or nothing.
unfoldable pub okcode_of : Event → Option ℕ
okcode_of quote_reply = some 0
okcode_of cwd_reply = some 250
okcode_of dele_reply = some 257
okcode_of mkd_reply = some 257
okcode_of rmd_reply = some 257
okcode_of site_reply = some 0
okcode_of mdtm_reply = some 213
okcode_of _ = none

module _ (lion : Lion) where
  unfoldable pub user_lost : Side → Text → World → World
  user_lost side line w = told m.user (set_manager side (drop_session m) w)
    where
      m : Manager
      m = manager side w

      told : Option ℕ → World → World
      told none v = v
      told (some u) v = if w.online u && is_no m.locked then tell u (disconnect m.id line) v else v

  unfoldable pub greeted : Manager → ℕ → World → World
  greeted m u w =
      if m.connected then w else tell u (connect m.id (session_feat m.session).has_ssl) w

  unfoldable pub idle_told : Side → Option ℕ → World → World
  unfolding greeted
  idle_told side none w = w
  idle_told side (some u) w =
      let m = manager side w in
      if w.online u && is_no m.locked
      then tell u (idle m.id) (set_manager side (record m { connected = true }) (greeted m u w))
      else w

  unfoldable pub user_idle : Side → World → World
  unfolding idle_told
  user_idle side w = idle_told side (manager side w).user w

  unfoldable pub tell_reply : Side → Event → ℤ → Text → World → World
  tell_reply side id code line w = told m.user
    where
      m : Manager
      m = manager side w

      told : Option ℕ → World
      told none = w
      told (some u) = if w.online u then tell u (command_reply m.id id code line) w else w

  unfoldable pub user_reply : Option ℕ → Side → Event → ℤ → Text → World → World
  unfolding handler_codeok tell_reply
  user_reply none side id reply line w = w
  user_reply (some okcode) side id reply line w =
      tell_reply side id (handler_codeok reply okcode) line w

  -- The session learns its directory from the reply; an event comes from a session.
  unfoldable pub tell_path : Side → ℤ → Text → World → World
  unfolding session_pwd_reply handler_codeok
  tell_path side reply line w = told m.user
    where
      m : Manager
      m = manager side w

      learn : ℕ → Option Session → World
      learn u none = w
      learn u (some s) =
          let s' = session_pwd_reply lion s (some line) in
          tell u (path_reply m.id (handler_codeok reply 257) s'.pwd line) (put_session side s' w)

      told : Option ℕ → World
      told none = w
      told (some u) = if w.online u then learn u m.session else w

  -- RNFR is remembered, and RNTO answered if RNFR went well.
  unfoldable pub user_cmd : Event → Side → ℤ → Text → World → World
  unfolding user_reply okcode_of tell_path
  user_cmd rnfr_reply side reply line w =
      if is_code reply 350
      then set_manager side (record (manager side w) { userflag_rnfr_ok = true }) w
      else tell_reply side rnfr_reply (handler_codeok reply 350) line w
  user_cmd rnto_reply side reply line w =
      if (manager side w).userflag_rnfr_ok
      then tell_reply side rnto_reply (handler_codeok reply 250) line w
      else w
  user_cmd dirlist_sendto_user side reply line w = tell_reply side dirlist_sendto_user reply line w
  user_cmd pwd_reply side reply line w = tell_path side reply line w
  user_cmd size_reply side reply line w = elim (scan_size line) [
    | none ↦ tell_reply side size_reply reply line w
    | some n ↦ tell_reply side size_reply (handler_codeok reply 213) line w
  ]
  user_cmd id side reply line w = user_reply (okcode_of id) side id reply line w

  unfoldable pub user_log : Side → Text → World → World
  user_log side line w = told m.user
    where
      m : Manager
      m = manager side w

      told : Option ℕ → World
      told none = w
      told (some u) =
          if w.online u && m.userflag_log
          then tell u (log_line m.id (lion.url_encode line)) w
          else w

  unfoldable pub on_withuser : Side → SessionEvent → World → World
  unfolding user_lost user_idle user_cmd user_log
  on_withuser side ev_idle w = user_idle side w
  on_withuser side (ev_log line) w = user_log side line w
  on_withuser side (ev_cmd id reply line) w = user_cmd id side reply line w
  on_withuser side (ev_lost line) w = user_lost side line w
