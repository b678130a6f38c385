-- ===== src/Engine/Counting/Events.antt =====
-- The handlers of session events keep the counters, and so does the handler that takes the events that
-- its own commands raise.
use fxp_one.Engine.Counting.Mkd.{mkdname_decrease-counted}
use fxp_one.Engine.Counting.Withuser.{on_withuser-queue}
use fxp_one.Prelude.{ℕ, zero, suc, Option, none, some, Text, ◌≡◌, refl, ℤ, ◌>>=◌, codes, ◌==◌}
use fxp_one.Lion.{Lion}
use fxp_one.Queue.Types.{Side}
use fxp_one.Session.Events.{
  SessionEvent, ev_idle, ev_log, ev_cmd, ev_lost, Event, phase_1_dst_mkd, phase_1_dst_cwd,
  phase_1_dst_cwd2,
}
use fxp_one.Session.{no_flags, Handler, handler_withuser, handler_queue}
use fxp_one.Engine.World.{World, Call, manager}
use fxp_one.Engine.Commands.{session_cmdq_newf}
use fxp_one.Engine.Handlers.{
  send_mkd, cwd_again, dst_cwd, dst_cwd2, on_queue_cmd, mkdname_decrease, mkdname_same, queue_event,
  to_handler, handle, deliver, queue_lost,
}
use fxp_one.Engine.Counting.{
  IsCountedWorld, Keeps, IsKeeping, keeps_rules, counted_like, Keeps-some, Keeps-none, Keeps-if,
  Keeps-if_session,
}
use fxp_one.Engine.Counting.Sessions.{session_cmdq_newf-Keeps}
use fxp_one.Engine.Counting.Commands.{session_cwd-Keeps}
use fxp_one.Engine.Counting.Replies.{replied_rules, made_dir_or_fail-Keeps}

module _ (lion : Lion) (call : Call) (good : IsKeeping call) where
  send_mkd-Keeps : (side : Side) (w : World) → IsCountedWorld w → Keeps (send_mkd lion call side w)
  unfolding send_mkd
  send_mkd-Keeps side w c = by_name (mkdname_decrease lion w) refl
    where
      by_name :
          (o : Option (Text × World))
          → mkdname_decrease lion w ≡ o
          → Keeps (
              o >>= (λ p.
                session_cmdq_newf call side no_flags phase_1_dst_mkd (codes "MKD ") p.0 p.1))
      by_name none e = Keeps-none
      by_name (some (t, v)) e =
          session_cmdq_newf-Keeps call good side no_flags phase_1_dst_mkd (codes "MKD ") t v
            (mkdname_decrease-counted lion w v t e c)

  cwd_again-Keeps :
      (side : Side) (w : World) → IsCountedWorld w → Keeps (cwd_again lion call side w)
  unfolding cwd_again
  cwd_again-Keeps side w c = session_cwd-Keeps call good side no_flags _ (mkdname_same w) w c

  dst_cwd-Keeps :
      (reply : ℤ) (line : Text) (side : Side) (w : World)
      → IsCountedWorld w
      → Keeps (dst_cwd lion call reply line side w)
  unfolding dst_cwd
  dst_cwd-Keeps reply line side w c = search (replied_rules, send_mkd-Keeps)

  dst_cwd2-Keeps :
      (reply : ℤ) (line : Text) (side : Side) (w : World)
      → IsCountedWorld w
      → Keeps (dst_cwd2 lion call reply line side w)
  unfolding dst_cwd2
  dst_cwd2-Keeps reply line side w c = search (replied_rules, send_mkd-Keeps)

  on_queue_cmd-Keeps :
      (id : Event) (reply : ℤ) (line : Text) (side : Side) (w : World)
      → IsCountedWorld w
      → Keeps (on_queue_cmd lion call id reply line side w)
  unfolding on_queue_cmd
  on_queue_cmd-Keeps phase_1_dst_mkd reply line side w c =
      made_dir_or_fail-Keeps (cwd_again lion call side) reply line w (cwd_again-Keeps side) c
  on_queue_cmd-Keeps phase_1_dst_cwd reply line side w c = dst_cwd-Keeps reply line side w c
  on_queue_cmd-Keeps phase_1_dst_cwd2 reply line side w c = dst_cwd2-Keeps reply line side w c
  on_queue_cmd-Keeps _ reply line side w c = search replied_rules

queue_lost-counted :
    (side : Side) (w : World) → IsCountedWorld w → IsCountedWorld (queue_lost side w)
unfolding queue_lost
queue_lost-counted side w c = search counted_like

queue_event-Keeps :
    (lion : Lion) (call : Call)
    → IsKeeping call
    → (side : Side) (ev : SessionEvent) (w : World) → IsCountedWorld w
    → Keeps (queue_event lion call side ev w)
unfolding queue_event
queue_event-Keeps lion call good side ev_idle w c = search keeps_rules
queue_event-Keeps lion call good side (ev_log line) w c = search keeps_rules
queue_event-Keeps lion call good side (ev_lost line) w c =
    Keeps-some _ (queue_lost-counted side w c)
queue_event-Keeps lion call good side (ev_cmd id reply line) w c =
    on_queue_cmd-Keeps lion call good id reply line side w c

to_handler-Keeps :
    (lion : Lion) (call : Call)
    → IsKeeping call
    → (h : Option Handler) (side : Side) (ev : SessionEvent) (w : World) → IsCountedWorld w
    → Keeps (to_handler lion call h side ev w)
unfolding to_handler
to_handler-Keeps lion call good none side ev w c = Keeps-some w c
to_handler-Keeps lion call good (some handler_withuser) side ev w c =
    Keeps-some _ (record { counted = rw (on_withuser-queue lion side ev w) c.counted })
to_handler-Keeps lion call good (some handler_queue) side ev w c =
    Keeps-if ((manager side w).qid == w.queue.id) _ _ (queue_event-Keeps lion call good side ev w c)
      (Keeps-some w c)

handle-Keeps :
    (lion : Lion) (call : Call)
    → IsKeeping call
    → (side : Side) (ev : SessionEvent) (w : World) → IsCountedWorld w
    → Keeps (handle lion call side ev w)
unfolding handle
handle-Keeps lion call good side ev w c =
    Keeps-if_session side w _ c (λ s. to_handler-Keeps lion call good s.handler side ev w c)

-- Whatever the event and to whatever depth commands raise events in turn, handling it keeps num_items
-- and num_errors equal to the lengths of the two lists.
pub deliver-IsKeeping : (lion : Lion) (depth : ℕ) → IsKeeping (deliver lion depth)
unfolding deliver
deliver-IsKeeping lion zero = record { keeps = λ side ev w c. Keeps-none }
deliver-IsKeeping lion (suc n) = record {
  keeps = λ side ev w c. handle-Keeps lion (deliver lion n) (deliver-IsKeeping lion n) side ev w c;
}
