-- ===== src/Engine/Process/Secure.antt =====
-- engine/queue.c, queue_process: phases one to three, the directories and the protection of the data.
use fxp_one.Prelude.{Bool, true, false, not, ◌||◌, Option, some, codes, if◌then◌else◌, ◌>>=◌}
use fxp_one.Lion.{Lion}
use fxp_one.Site.{Site, is_yes, is_no, is_local, extra_yna}
use fxp_one.Queue.Types.{
  Side, north, south, queue_item_failed, phase_1_idle, phase_2_start, phase_2_wait, phase_2_disable,
  phase_3_start, phase_3_wait, phase_4_start, Qitem,
}
use fxp_one.Session.Events.{
  phase_1_src_cwd, phase_1_dst_cwd, phase_2_src_secure, phase_2_dst_secure, phase_2_off,
  phase_3_src_prot, phase_3_dst_prot,
}
use fxp_one.Session.{no_flags, session_feat}
use fxp_one.Engine.World.{
  World, Call, manager, session, set_queue, set_state, hurry, on_head, when_idle, at_item, at_src,
  at_dst, has_failed,
}
use fxp_one.Engine.Commands.{session_ccsn, session_sscn, session_prot, session_cwd}
use fxp_one.Queue.Errors.{queue_adderr_src, queue_adderr_dst}

module _ (lion : Lion) (call : Call) where
  unfoldable pub process_phase_1_start : World → Option World
  process_phase_1_start w = at_item w λ x. at_src w λ src. at_dst w λ dst. do
    w ←
        session_cwd call src no_flags (some phase_1_src_cwd) x.src.dirname
          (set_state phase_1_idle w)
    at_item w λ y. session_cwd call dst no_flags (some phase_1_dst_cwd) y.dst.dirname w

  unfoldable pub process_phase_1_idle : World → Option World
  process_phase_1_idle w = when_idle w (
      at_item w
        λ x. some (hurry (set_state (if has_failed x then queue_item_failed else phase_2_start) w)))

  -- Both methods are turned off where the server has them.
  ccsn_off : Side → World → Option World
  ccsn_off side w =
      if (session_feat (session side w)).has_ccsn
      then session_ccsn call side no_flags (some phase_2_off) false w
      else some w

  sscn_off : Side → World → Option World
  sscn_off side w =
      if (session_feat (session side w)).has_sscn
      then session_sscn call side no_flags (some phase_2_off) false w
      else some w

  unfoldable pub secure_off : World → Option World
  unfolding ccsn_off sscn_off
  secure_off w = do
    w ← ccsn_off north w
    w ← sscn_off north w
    w ← ccsn_off south w
    sscn_off south w

  unfoldable pub wants_no_tls : World → Side → Bool
  wants_no_tls w side = is_no (extra_yna lion (manager side w).site (codes "FXP_TLS"))

  -- One of the two sites gets CCSN or SSCN, the source first.
  unfoldable pub ask_secure : Side → Side → World → Option World
  ask_secure src dst w =
      if (session_feat (session src w)).has_ccsn
      then session_ccsn call src no_flags (some phase_2_src_secure) true w
      else if (session_feat (session src w)).has_sscn
      then session_sscn call src no_flags (some phase_2_src_secure) true w
      else if (session_feat (session dst w)).has_ccsn
      then session_ccsn call dst no_flags (some phase_2_dst_secure) true w
      else if (session_feat (session dst w)).has_sscn
      then session_sscn call dst no_flags (some phase_2_dst_secure) true w
      else some (hurry (set_state phase_2_disable w))

  -- On the local machine no method is needed.
  unfoldable pub local_secure : World → Option World
  unfolding secure_off
  local_secure w = do
    w ← secure_off (set_queue (record w.queue { secure_data = true; state = phase_3_start }) w)
    some (hurry w)

  unfoldable pub choose_secure : Side → Side → World → Option World
  unfolding local_secure wants_no_tls ask_secure
  choose_secure src dst w =
      if not (session_feat (session north w)).has_ssl
        || not (session_feat (session south w)).has_ssl
      then some (hurry (set_state phase_2_disable w))
      else if wants_no_tls w north || wants_no_tls w south
      then some (hurry (set_state phase_2_disable w))
      else if is_local lion (manager src w).site || is_local lion (manager dst w).site
      then local_secure w
      else ask_secure src dst
          (set_queue (record w.queue { secure_data = false; state = phase_2_wait }) w)

  unfoldable pub process_phase_2_start : World → Option World
  unfolding choose_secure
  process_phase_2_start w = when_idle w (at_src w λ src. at_dst w λ dst. choose_secure src dst w)

  unfoldable pub process_phase_2_wait : World → Option World
  process_phase_2_wait w = when_idle w (
      at_item w
        λ x. some (hurry (set_state (if has_failed x then phase_2_disable else phase_3_start) w)))

  -- The site insists on secure data, by its setting or by FXP_TLS.
  unfoldable pub insists : Site → Bool
  insists site = is_yes site.data_tls || is_yes (extra_yna lion site (codes "FXP_TLS"))

  unfoldable pub fail_insisting : Bool → (Qitem → Qitem) → World → Option World
  fail_insisting false f w = some w
  fail_insisting true f w = on_head f (set_state queue_item_failed w)

  unfoldable pub process_phase_2_disable : World → Option World
  unfolding secure_off insists fail_insisting
  process_phase_2_disable w = do
    w ← secure_off (set_queue (record w.queue { secure_data = false; state = phase_3_start }) w)
    w ← at_src w λ src.
        fail_insisting (insists (manager src w).site)
          (λ x. queue_adderr_src x (codes "Secure DATA not possible and source forced to Secure."))
          w
    w ← at_dst w λ dst.
        fail_insisting (insists (manager dst w).site)
          (λ x.
            queue_adderr_dst x (codes "Secure DATA not possible and destination forced to Secure."))
          w
    some (hurry w)

  unfoldable pub process_phase_3_start : World → Option World
  process_phase_3_start w = when_idle w (
      at_src w λ src. at_dst w λ dst. do
        let secure = w.queue.secure_data
        w ← session_prot call src no_flags (some phase_3_src_prot) secure (set_state phase_3_wait w)
        session_prot call dst no_flags (some phase_3_dst_prot) secure w)

  unfoldable pub process_phase_3_wait : World → Option World
  process_phase_3_wait w = when_idle w (
      if not w.queue.secure_data
      then some (hurry (set_state phase_4_start w))
      else at_item w
          λ x. some (hurry (set_state (if has_failed x then phase_2_disable else phase_4_start) w)))
