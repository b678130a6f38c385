-- ===== src/Protocol/Loop.antt =====
-- engine/queue.c: queue_run, which makes one step of every queue in turn.
use fxp_one.Prelude.{ℕ, List, [], ◌∷◌, Option, none, some, ◌>>=◌, Option-cases, inl, inr}
use fxp_one.Lion.{Lion}
use fxp_one.Queue.Types.{Queue}
use fxp_one.Engine.World.{Call}
use fxp_one.Engine.Process.{queue_process}
use fxp_one.Engine.Handlers.{deliver}
use fxp_one.Engine.Counting.Events.{deliver-IsKeeping}
use fxp_one.Engine.Counting.Steps.{queue_process-Keeps}
use fxp_one.Protocol.State.{Daemon, managers_of, world_of, put_back, on_queue_of, queue_findbyqid}
use fxp_one.Protocol.Counted.{AllCounted, found-IsCounted}
use fxp_one.Protocol.Written.{KeepsAll, known-KeepsAll, bind-KeepsAll, on_managers-KeepsAll}

module _ (lion : Lion) (call : Call) where
  -- A queue is looked up again, as the steps before it may have changed it.
  unfoldable pub step_of : Daemon → ℕ → Option Daemon
  unfolding managers_of world_of put_back
  step_of d qid = elim (queue_findbyqid d.queues qid) [
    | none ↦ some d
    | some q ↦ on_queue_of d q (queue_process lion call)
  ]

  unfoldable pub run_queues : List Queue → Daemon → Option Daemon
  unfolding step_of
  run_queues [] d = some d
  run_queues (q ∷ qs) d = do d ← step_of d q.id; run_queues qs d

  unfoldable pub queue_run : Daemon → Option Daemon
  unfolding run_queues
  queue_run d = run_queues d.queues d

module _ (lion : Lion) (depth : ℕ) where
  step_of-KeepsAll :
      (d : Daemon) (qid : ℕ)
      → AllCounted d.queues
      → KeepsAll (step_of lion (deliver lion depth) d qid)
  unfolding step_of
  step_of-KeepsAll d qid h = elim (Option-cases (queue_findbyqid d.queues qid)) [
    | inl e ↦ rw (step_of, e) (known-KeepsAll d h)
    | inr (q, e) ↦
        rw (step_of, e)
          (on_managers-KeepsAll d q (queue_process lion (deliver lion depth)) (managers_of d q) h
            (found-IsCounted d.queues qid q h e)
            (λ w c.
              queue_process-Keeps lion (deliver lion depth) (deliver-IsKeeping lion depth) w c))
  ]

  run_queues-KeepsAll :
      (qs : List Queue) (d : Daemon)
      → AllCounted d.queues
      → KeepsAll (run_queues lion (deliver lion depth) qs d)
  unfolding run_queues
  run_queues-KeepsAll [] d h = known-KeepsAll d h
  run_queues-KeepsAll (q ∷ qs) d h =
      bind-KeepsAll (step_of lion (deliver lion depth) d q.id) _ (step_of-KeepsAll d q.id h)
        (λ d' h'. run_queues-KeepsAll qs d' h')

  -- A step of every queue leaves the counters of every queue right.
  pub queue_run-KeepsAll :
      (d : Daemon) → AllCounted d.queues → KeepsAll (queue_run lion (deliver lion depth) d)
  unfolding queue_run
  queue_run-KeepsAll d h = run_queues-KeepsAll d.queues d h
