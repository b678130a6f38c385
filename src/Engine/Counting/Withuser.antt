-- ===== src/Engine/Counting/Withuser.antt =====
-- The handler of a session that a user owns does not touch the queue.
use fxp_one.Prelude.{ℕ, true, Option, none, some, Text, ◌≡◌, refl, ℤ, arith}
use fxp_one.Lion.{Lion}
use fxp_one.Queue.Types.{Side, north, south}
use fxp_one.Session.Events.{
  SessionEvent, ev_idle, ev_log, ev_cmd, ev_lost, Event, dirlist_sendto_user, rnfr_reply,
  rnto_reply, size_reply, pwd_reply,
}
use fxp_one.Engine.World.{World, Manager, manager, drop_session}
use fxp_one.Engine.Handlers.{
  user_lost, greeted, idle_told, user_idle, tell_reply, tell_path, user_reply, user_cmd, user_log,
  handler_codeok, okcode_of, on_withuser,
}
use fxp_one.Engine.Counting.{set_manager-queue}

user_lost-queue :
    (lion : Lion) (side : Side) (line : Text) (w : World)
    → (user_lost lion side line w).queue ≡ w.queue
unfolding user_lost
user_lost-queue lion side line w =
    ground (arith, set_manager-queue side (drop_session (manager side w)) w)

greeted-queue :
    (lion : Lion) (m : Manager) (u : ℕ) (w : World) → (greeted lion m u w).queue ≡ w.queue
unfolding greeted
greeted-queue lion m u w = ground arith

idle_told-queue :
    (lion : Lion) (side : Side) (o : Option ℕ) (w : World)
    → (idle_told lion side o w).queue ≡ w.queue
unfolding idle_told
idle_told-queue lion side none w = refl
idle_told-queue lion side (some u) w =
    let m = manager side w in
    ground (
      arith,
      set_manager-queue side (record m { connected = true }) (greeted lion m u w),
      greeted-queue lion m u w,
    )

user_idle-queue : (lion : Lion) (side : Side) (w : World) → (user_idle lion side w).queue ≡ w.queue
unfolding user_idle
user_idle-queue lion side w = idle_told-queue lion side (manager side w).user w

tell_reply-queue :
    (lion : Lion) (side : Side) (id : Event) (code : ℤ) (line : Text) (w : World)
    → (tell_reply lion side id code line w).queue ≡ w.queue
unfolding tell_reply
tell_reply-queue lion side id code line w = ground arith

user_reply-queue :
    (lion : Lion) (o : Option ℕ) (side : Side) (id : Event) (reply : ℤ) (line : Text) (w : World)
    → (user_reply lion o side id reply line w).queue ≡ w.queue
unfolding user_reply
user_reply-queue lion none side id reply line w = refl
user_reply-queue lion (some k) side id reply line w = tell_reply-queue lion side id _ line w

tell_path-queue :
    (lion : Lion) (side : Side) (reply : ℤ) (line : Text) (w : World)
    → (tell_path lion side reply line w).queue ≡ w.queue
unfolding tell_path
tell_path-queue lion north reply line w = ground arith
tell_path-queue lion south reply line w = ground arith

user_cmd-queue :
    (lion : Lion) (id : Event) (side : Side) (reply : ℤ) (line : Text) (w : World)
    → (user_cmd lion id side reply line w).queue ≡ w.queue
unfolding user_cmd
user_cmd-queue lion rnfr_reply side reply line w = ground (
  arith,
  set_manager-queue side (record (manager side w) { userflag_rnfr_ok = true }) w,
  tell_reply-queue lion side rnfr_reply (handler_codeok reply 350) line w,
)
user_cmd-queue lion rnto_reply side reply line w =
    ground (arith, tell_reply-queue lion side rnto_reply (handler_codeok reply 250) line w)
user_cmd-queue lion dirlist_sendto_user side reply line w =
    tell_reply-queue lion side dirlist_sendto_user reply line w
user_cmd-queue lion pwd_reply side reply line w = tell_path-queue lion side reply line w
user_cmd-queue lion size_reply side reply line w = ground (
  arith,
  tell_reply-queue lion side size_reply reply line w,
  tell_reply-queue lion side size_reply (handler_codeok reply 213) line w,
)
user_cmd-queue lion id side reply line w = user_reply-queue lion (okcode_of id) side id reply line w

user_log-queue :
    (lion : Lion) (side : Side) (line : Text) (w : World)
    → (user_log lion side line w).queue ≡ w.queue
unfolding user_log
user_log-queue lion side line w = ground arith

pub on_withuser-queue :
    (lion : Lion) (side : Side) (ev : SessionEvent) (w : World)
    → (on_withuser lion side ev w).queue ≡ w.queue
unfolding on_withuser
on_withuser-queue lion side ev_idle w = user_idle-queue lion side w
on_withuser-queue lion side (ev_log line) w = user_log-queue lion side line w
on_withuser-queue lion side (ev_lost line) w = user_lost-queue lion side line w
on_withuser-queue lion side (ev_cmd id reply line) w = user_cmd-queue lion id side reply line w
