-- ===== src/Engine/Process/Transfer.antt =====
-- engine/queue.c, queue_process: phases ten to twelve, the transfer itself. The speed of a transfer
-- is computed in floating point and is left out.
use fxp_one.Prelude.{Bool, not, ◌&&◌, ◌++◌, Option, some, codes, ◌==◌, if◌then◌else◌, ◌>>=◌}
use fxp_one.Lion.{Lion}
use fxp_one.Queue.Types.{
  Side, queue_idle, queue_item_failed, queue_remove_item, phase_10_wait, phase_11_start,
  phase_11_wait, phase_12_start, Qitem,
}
use fxp_one.Session.Events.{
  phase_10_stor, phase_11_retr, phase_11_abor, phase_12_src_226, phase_12_dst_226, phase_12_noop,
}
use fxp_one.Session.{Flags, no_flags}
use fxp_one.Engine.World.{
  World, Call, set_state, hurry, notify, on_head, when_idle, at_item, at_src, at_dst, at_session,
  has_failed,
}
use fxp_one.Engine.Commands.{session_cmdq_new, session_stor, session_retr, crlf}
use fxp_one.Engine.World.{qs_xfract, qs_xfrend}
use fxp_one.Engine.Process.Prepare.{printed}

module _ (lion : Lion) (call : Call) where
  abbrev log_flags : Bool → Flags
  log_flags b = record no_flags { flag_log = b }

  unfoldable pub begin_stor : Side → World → Option World
  begin_stor dst w = do
    w ← on_head (λ x. record x { src_transfer = 0; dst_transfer = 0 }) (set_state phase_10_wait w)
    at_session dst w λ s. at_item w λ x.
        session_stor call dst (log_flags s.status.on_xdupe) phase_10_stor phase_12_dst_226
          (printed x.dst.name) w

  unfoldable pub process_phase_10_start : World → Option World
  unfolding begin_stor
  process_phase_10_start w =
      when_idle w
        (if w.queue.stop then some (set_state queue_idle w) else at_dst w λ dst. begin_stor dst w)

  unfoldable pub process_phase_10_wait : World → Option World
  process_phase_10_wait w = when_idle w (
      at_item w λ x.
        some (hurry (set_state (if has_failed x then queue_item_failed else phase_11_start) w)))

  unfoldable pub process_phase_11_start : World → Option World
  process_phase_11_start w = when_idle w (
      at_src w λ src. at_item w λ x.
        session_retr call src no_flags phase_11_retr phase_12_src_226 (printed x.src.name)
          (set_state phase_11_wait w))

  -- The destination already waits for data, so it is told to abort.
  unfoldable pub abort_stor : World → Option World
  abort_stor w = at_dst w λ dst. do
    w ← session_cmdq_new call dst no_flags phase_11_abor (codes "ABOR" ++ crlf) w
    some (set_state queue_item_failed w)

  unfoldable pub process_phase_11_wait : World → Option World
  unfolding abort_stor
  process_phase_11_wait w = when_idle w (
      at_item w λ x.
        if has_failed x
        then abort_stor w
        else some (
            hurry (
              set_state phase_12_start
                (notify (qs_xfract w.queue.secure_data w.queue.srcpasv x.src.rest x.src.size) w))))

  unfoldable pub finish_transfer : Qitem → World → Option World
  finish_transfer x w = at_src w λ src. at_dst w λ dst. do
    w ← session_cmdq_new call src no_flags phase_12_noop (codes "NOOP" ++ crlf) (hurry w)
    w ← session_cmdq_new call dst no_flags phase_12_noop (codes "NOOP" ++ crlf) w
    some (set_state queue_remove_item (notify (qs_xfrend x.src_is_north) w))

  unfoldable pub process_phase_12_start : World → Option World
  unfolding finish_transfer
  process_phase_12_start w = when_idle w (
      at_item w λ x.
        if not (x.src_transfer == 2 && x.dst_transfer == 2)
        then some w
        else if has_failed x
        then some (hurry (set_state queue_item_failed w))
        else finish_transfer x w)
