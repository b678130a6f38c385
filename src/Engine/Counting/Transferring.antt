-- ===== src/Engine/Counting/Transferring.antt =====
-- Phases ten to twelve and the states of a directory keep the counters.
use fxp_one.Prelude.{List, [], ◌∷◌, is_neg, if◌then◌else◌, true, false, refl}
use fxp_one.Lion.{Lion}
use fxp_one.Queue.Types.{Qitem, Side}
use fxp_one.Session.{Session}
use fxp_one.Queue.Insert.{queue_poptop}
use fxp_one.Queue.Skiplist.{queue_skiplist}
use fxp_one.Queue.Accounting.{poptop-IsCounted}
use fxp_one.Queue.Think.{queue_directory_think}
use fxp_one.Queue.Think.Laws.{think-perm}
use fxp_one.File.{File}
use fxp_one.Engine.World.{World, Call, notify, set_queue, manager, set_manager, qc_remove}
use fxp_one.Engine.Process.{
  finish_transfer, refresh, expand, is_north, process_phase_10_start, process_phase_10_wait,
  process_phase_11_start, process_phase_11_wait, process_phase_12_start, process_directory_start,
  process_directory_phase_1_idle, process_directory_phase_2_start, process_directory_phase_2_mkd,
  process_directory_phase_2_compare,
}
use fxp_one.Engine.Counting.{IsCountedWorld, Keeps, IsKeeping, counted_like, set_manager-counted}
use fxp_one.Engine.Counting.Rules.{step_rules}

refresh-counted :
    (lion : Lion) (call : Call) (fs : List File) (w : World)
    → IsCountedWorld w
    → IsCountedWorld (refresh lion call fs w)
unfolding refresh notify
refresh-counted lion call [] w c = c
refresh-counted lion call (f ∷ fs) w c = search counted_like

expand-counted :
    (lion : Lion) (call : Call) (src dst : Side) (x : Qitem) (s d : Session) (w : World)
    → IsCountedWorld w
    → IsCountedWorld (expand lion call src dst x s d w)
unfolding expand
expand-counted lion call src dst x s d w c =
    let m = manager dst w in
    let first = if is_neg (queue_skiplist lion m.site x.src) then true else m.is_dmovefirst in
    let q =
      queue_directory_think lion m.site first d.files x.dst.fullpath (is_north src)
        (queue_poptop w.queue) s.files in
    let thought =
      (think-perm lion m.site first d.files x.dst.fullpath (is_north src) s.files
          (queue_poptop w.queue)).1
        (poptop-IsCounted w.queue c.counted) in
    let filled : World = set_queue q (notify qc_remove w) in
    let v : World = refresh lion call s.files filled in
    let refreshed : IsCountedWorld v =
      refresh-counted lion call s.files filled (record { counted = thought }) in
    let done : World = set_manager dst (record m { is_dmovefirst = false }) v in
    counted_like done _ (set_manager-counted dst (record m { is_dmovefirst = false }) v refreshed)
      refl refl refl refl

module _ (lion : Lion) (call : Call) (good : IsKeeping call) where
  pub phase_10_start-Keeps :
      (w : World) → IsCountedWorld w → Keeps (process_phase_10_start lion call w)
  unfolding process_phase_10_start
  phase_10_start-Keeps w c = search step_rules depth 12 fits 3000

  pub phase_10_wait-Keeps :
      (w : World) → IsCountedWorld w → Keeps (process_phase_10_wait lion call w)
  unfolding process_phase_10_wait
  phase_10_wait-Keeps w c = search step_rules depth 12 fits 3000

  pub phase_11_start-Keeps :
      (w : World) → IsCountedWorld w → Keeps (process_phase_11_start lion call w)
  unfolding process_phase_11_start
  phase_11_start-Keeps w c = search step_rules depth 12 fits 3000

  pub phase_11_wait-Keeps :
      (w : World) → IsCountedWorld w → Keeps (process_phase_11_wait lion call w)
  unfolding process_phase_11_wait notify
  phase_11_wait-Keeps w c = search step_rules depth 12 fits 3000

  finish_transfer-Keeps :
      (x : Qitem) (w : World) → IsCountedWorld w → Keeps (finish_transfer lion call x w)
  unfolding finish_transfer notify
  finish_transfer-Keeps x w c = search step_rules depth 9 fits 3000

  pub phase_12_start-Keeps :
      (w : World) → IsCountedWorld w → Keeps (process_phase_12_start lion call w)
  unfolding process_phase_12_start
  phase_12_start-Keeps w c = search (step_rules, finish_transfer-Keeps) depth 12 fits 3000

  pub directory_start-Keeps :
      (w : World) → IsCountedWorld w → Keeps (process_directory_start lion call w)
  unfolding process_directory_start
  directory_start-Keeps w c = search step_rules depth 12 fits 3000

  pub directory_phase_1_idle-Keeps :
      (w : World) → IsCountedWorld w → Keeps (process_directory_phase_1_idle lion call w)
  unfolding process_directory_phase_1_idle
  directory_phase_1_idle-Keeps w c = search step_rules depth 12 fits 3000

  pub directory_phase_2_start-Keeps :
      (w : World) → IsCountedWorld w → Keeps (process_directory_phase_2_start lion call w)
  unfolding process_directory_phase_2_start
  directory_phase_2_start-Keeps w c = search step_rules depth 12 fits 3000

  pub directory_phase_2_mkd-Keeps :
      (w : World) → IsCountedWorld w → Keeps (process_directory_phase_2_mkd lion call w)
  unfolding process_directory_phase_2_mkd
  directory_phase_2_mkd-Keeps w c = search step_rules depth 12 fits 3000

  pub directory_phase_2_compare-Keeps :
      (w : World) → IsCountedWorld w → Keeps (process_directory_phase_2_compare lion call w)
  unfolding process_directory_phase_2_compare
  directory_phase_2_compare-Keeps w c = search (step_rules, expand-counted) depth 12 fits 3000
