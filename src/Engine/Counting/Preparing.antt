-- ===== src/Engine/Counting/Preparing.antt =====
-- Phases one to nine keep the counters.
use fxp_one.Lion.{Lion}
use fxp_one.Engine.World.{World, Call}
use fxp_one.Engine.Process.{
  process_phase_1_start, process_phase_1_idle, process_phase_2_start, process_phase_2_wait,
  process_phase_2_disable, process_phase_3_start, process_phase_3_wait, process_phase_4_start,
  process_phase_5_start, process_phase_5_rest_wait, process_phase_6_start, process_phase_7_start,
  process_phase_7_wait, process_phase_8_start, process_phase_8_wait, process_phase_9_start,
  process_phase_9_rest,
}
use fxp_one.Engine.Counting.{IsCountedWorld, Keeps, IsKeeping}
use fxp_one.Engine.Counting.Rules.{step_rules}

module _ (lion : Lion) (call : Call) (good : IsKeeping call) where
  pub phase_1_start-Keeps :
      (w : World) → IsCountedWorld w → Keeps (process_phase_1_start lion call w)
  unfolding process_phase_1_start
  phase_1_start-Keeps w c = search step_rules depth 12 fits 3000

  pub phase_1_idle-Keeps : (w : World) → IsCountedWorld w → Keeps (process_phase_1_idle lion call w)
  unfolding process_phase_1_idle
  phase_1_idle-Keeps w c = search step_rules depth 12 fits 3000

  pub phase_2_start-Keeps :
      (w : World) → IsCountedWorld w → Keeps (process_phase_2_start lion call w)
  unfolding process_phase_2_start
  phase_2_start-Keeps w c = search step_rules depth 12 fits 3000

  pub phase_2_wait-Keeps : (w : World) → IsCountedWorld w → Keeps (process_phase_2_wait lion call w)
  unfolding process_phase_2_wait
  phase_2_wait-Keeps w c = search step_rules depth 12 fits 3000

  pub phase_2_disable-Keeps :
      (w : World) → IsCountedWorld w → Keeps (process_phase_2_disable lion call w)
  unfolding process_phase_2_disable
  phase_2_disable-Keeps w c = search step_rules depth 12 fits 3000

  pub phase_3_start-Keeps :
      (w : World) → IsCountedWorld w → Keeps (process_phase_3_start lion call w)
  unfolding process_phase_3_start
  phase_3_start-Keeps w c = search step_rules depth 12 fits 3000

  pub phase_3_wait-Keeps : (w : World) → IsCountedWorld w → Keeps (process_phase_3_wait lion call w)
  unfolding process_phase_3_wait
  phase_3_wait-Keeps w c = search step_rules depth 12 fits 3000

  pub phase_4_start-Keeps :
      (w : World) → IsCountedWorld w → Keeps (process_phase_4_start lion call w)
  unfolding process_phase_4_start
  phase_4_start-Keeps w c = search step_rules depth 12 fits 3000

  pub phase_5_start-Keeps :
      (w : World) → IsCountedWorld w → Keeps (process_phase_5_start lion call w)
  unfolding process_phase_5_start
  phase_5_start-Keeps w c = search step_rules depth 12 fits 3000

  pub phase_5_rest_wait-Keeps :
      (w : World) → IsCountedWorld w → Keeps (process_phase_5_rest_wait lion call w)
  unfolding process_phase_5_rest_wait
  phase_5_rest_wait-Keeps w c = search step_rules depth 12 fits 3000

  pub phase_6_start-Keeps :
      (w : World) → IsCountedWorld w → Keeps (process_phase_6_start lion call w)
  unfolding process_phase_6_start
  phase_6_start-Keeps w c = search step_rules depth 12 fits 3000

  pub phase_7_start-Keeps :
      (w : World) → IsCountedWorld w → Keeps (process_phase_7_start lion call w)
  unfolding process_phase_7_start
  phase_7_start-Keeps w c = search step_rules depth 12 fits 3000

  pub phase_7_wait-Keeps : (w : World) → IsCountedWorld w → Keeps (process_phase_7_wait lion call w)
  unfolding process_phase_7_wait
  phase_7_wait-Keeps w c = search step_rules depth 12 fits 3000

  pub phase_8_start-Keeps :
      (w : World) → IsCountedWorld w → Keeps (process_phase_8_start lion call w)
  unfolding process_phase_8_start
  phase_8_start-Keeps w c = search step_rules depth 12 fits 3000

  pub phase_8_wait-Keeps : (w : World) → IsCountedWorld w → Keeps (process_phase_8_wait lion call w)
  unfolding process_phase_8_wait
  phase_8_wait-Keeps w c = search step_rules depth 12 fits 3000

  pub phase_9_start-Keeps :
      (w : World) → IsCountedWorld w → Keeps (process_phase_9_start lion call w)
  unfolding process_phase_9_start
  phase_9_start-Keeps w c = search step_rules depth 12 fits 3000

  pub phase_9_rest-Keeps : (w : World) → IsCountedWorld w → Keeps (process_phase_9_rest lion call w)
  unfolding process_phase_9_rest
  phase_9_rest-Keeps w c = search step_rules depth 12 fits 3000
