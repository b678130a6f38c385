-- ===== src/Engine/Stopping.antt =====
-- The request to stop, where a session is gone: what the steps of the queue do, and what a GO does.
use fxp_one.Prelude.{ℕ, zero, suc, Option, some, ◌>>=◌}
use fxp_one.Lion.{Lion}
use fxp_one.Engine.World.{World, Call}
use fxp_one.Engine.Process.{queue_process}

module _ (lion : Lion) (call : Call) where
  -- A number of steps of the queue, one after the other.
  unfoldable pub steps : ℕ → World → Option World
  steps zero w = some w
  steps (suc n) w = queue_process lion call w >>= steps n
