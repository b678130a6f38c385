-- ===== src/Protocol/Runs.antt =====
-- engine/engine.c: the main loop, over all that reaches the engine: users, servers, and the queues' steps.
use fxp_one.Prelude.{
  if◌then◌else◌, ℕ, zero, suc, Bool, false, List, [], ◌∷◌, Option, none, some, codes, ◌≡◌, ◌>>=◌,
}
use fxp_one.Lion.{Lion}
use fxp_one.Site.{findkey}
use fxp_one.Engine.Handlers.{deliver}
use fxp_one.Engine.World.{World}
use fxp_one.Queue.Types.{Side}
use fxp_one.Site.{Yna}
use fxp_one.Engine.Managers.Registry.{manager_find_fromsid, manager_cleanup}
use fxp_one.Engine.Control.Machine.{Signal, session_handler}
use fxp_one.Engine.Control.Data.{DataSignal, data_handler}
use fxp_one.Engine.Counting.Control.Signals.{session_handler-Keeps, data_handler-Keeps}
use fxp_one.Engine.Counting.Events.{deliver-IsKeeping}
use fxp_one.Engine.Counting.{IsCountedWorld}
use fxp_one.Engine.Counting as Counting
use fxp_one.Protocol.State.{Daemon, Keys, say, managers, set_managers, on_manager}
use fxp_one.Protocol.Table.{ClientSignal, command2_handler, command_cmd_auth, command2_register}
use fxp_one.Protocol.Counted.{AllCounted}
use fxp_one.Protocol.Written.{KeepsAll, known-KeepsAll, none-KeepsAll, bind-KeepsAll}
use fxp_one.Protocol.Keeping.{if-KeepsAll, option-KeepsAll, key-KeepsAll, on_manager-KeepsAll}
use fxp_one.Protocol.Loop.{queue_run, queue_run-KeepsAll}
use fxp_one.Protocol.Dispatch.{handler-KeepsAll}

-- What reaches the engine: a signal of a user's connection, a login, what a server sends on the control
-- or the data connection of a session, and a turn of the main loop.
pub data EngineEvent : Type 0 where
  client : ℕ → ClientSignal → EngineEvent
  login : Yna → Bool → ℕ → Keys → EngineEvent
  server : ℕ → Signal → EngineEvent
  transfer : ℕ → DataSignal → EngineEvent
  turn : ℕ → EngineEvent

module _ (lion : Lion) (depth : ℕ) where
  -- A session is reached through its manager; without one it is gone.
  unfoldable pub at_manager : ℕ → (Side → World → Option World) → Daemon → Option Daemon
  at_manager sid op d = elim (manager_find_fromsid (managers d) sid) [
    | none ↦ some d
    | some m ↦ on_manager m op d
  ]

  -- The main loop steps every queue, again as long as a step asks for it with engine_nodelay. A turn of
  -- more rounds than the fuel has no result.
  unfoldable pub queue_rounds : ℕ → Daemon → Option Daemon
  queue_rounds zero d = none
  queue_rounds (suc n) d =
      queue_run lion (deliver lion depth) (record d { nodelay = false })
      >>= (λ d. let rest = queue_rounds n d in if d.nodelay then rest else some d)

  unfoldable pub engine_turn : ℕ → Daemon → Option Daemon
  unfolding queue_rounds
  engine_turn rounds d = do
    d ← queue_rounds rounds d
    some (set_managers (manager_cleanup (managers d)) d)

  unfoldable pub engine_step : EngineEvent → Daemon → Option Daemon
  unfolding at_manager engine_turn
  engine_step (client user signal) d = command2_handler lion (deliver lion depth) user signal d
  engine_step (login ssl_only secured user keys) d =
      command_cmd_auth lion ssl_only user secured keys d
  engine_step (server sid signal) d =
      at_manager sid (λ side. session_handler lion (deliver lion depth) side signal) d
  engine_step (transfer sid signal) d =
      at_manager sid (λ side. data_handler lion (deliver lion depth) side signal) d
  engine_step (turn rounds) d = engine_turn rounds d

  unfoldable pub engine_run : List EngineEvent → Daemon → Option Daemon
  unfolding engine_step
  engine_run [] d = some d
  engine_run (e ∷ es) d = engine_step e d >>= engine_run es

at_manager-KeepsAll :
    (lion : Lion) (depth sid : ℕ) (op : Side → World → Option World) (d : Daemon)
    → AllCounted d.queues
    → ((side : Side) (w : World) → IsCountedWorld w → Counting.Keeps (op side w))
    → KeepsAll (at_manager lion depth sid op d)
unfolding at_manager
at_manager-KeepsAll lion depth sid op d h k =
    option-KeepsAll (manager_find_fromsid (managers d) sid) _ _ (known-KeepsAll d h)
      (λ m. on_manager-KeepsAll d h m op k)

rounds-KeepsAll :
    (lion : Lion) (depth n : ℕ) (d : Daemon)
    → AllCounted d.queues
    → KeepsAll (queue_rounds lion depth n d)
unfolding queue_rounds
rounds-KeepsAll lion depth zero d h = none-KeepsAll
rounds-KeepsAll lion depth (suc n) d h =
    bind-KeepsAll (queue_run lion (deliver lion depth) (record d { nodelay = false })) _
      (queue_run-KeepsAll lion depth (record d { nodelay = false }) h)
      (λ d' h'.
        if-KeepsAll d'.nodelay _ _ (rounds-KeepsAll lion depth n d' h') (known-KeepsAll d' h'))

turn-KeepsAll :
    (lion : Lion) (depth rounds : ℕ) (d : Daemon)
    → AllCounted d.queues
    → KeepsAll (engine_turn lion depth rounds d)
unfolding engine_turn
turn-KeepsAll lion depth rounds d h =
    bind-KeepsAll (queue_rounds lion depth rounds d) _ (rounds-KeepsAll lion depth rounds d h)
      (λ d' h'. known-KeepsAll _ h')

login-KeepsAll :
    (lion : Lion) (ssl_only : Yna) (secured : Bool) (user : ℕ) (keys : Keys) (d : Daemon)
    → AllCounted d.queues
    → KeepsAll (command_cmd_auth lion ssl_only user secured keys d)
unfolding command_cmd_auth command2_register say
login-KeepsAll lion ssl_only secured user keys d h = if-KeepsAll _ _ _ (known-KeepsAll _ h) (
    key-KeepsAll d h user (codes "AUTH") 1501 (findkey keys (codes "USER")) _ λ name.
      key-KeepsAll d h user (codes "AUTH") 1501 (findkey keys (codes "PASS")) _
        λ pass. if-KeepsAll _ _ _ (known-KeepsAll _ h) (known-KeepsAll _ h))

step-KeepsAll :
    (lion : Lion) (depth : ℕ) (e : EngineEvent) (d : Daemon)
    → AllCounted d.queues
    → KeepsAll (engine_step lion depth e d)
unfolding engine_step
step-KeepsAll lion depth (client user signal) d h = handler-KeepsAll lion depth user d h signal
step-KeepsAll lion depth (login ssl_only secured user keys) d h =
    login-KeepsAll lion ssl_only secured user keys d h
step-KeepsAll lion depth (server sid signal) d h =
    at_manager-KeepsAll lion depth sid _ d h (λ side w c.
      session_handler-Keeps lion (deliver lion depth) (deliver-IsKeeping lion depth) side signal w
        c)
step-KeepsAll lion depth (transfer sid signal) d h =
    at_manager-KeepsAll lion depth sid _ d h (λ side w c.
      data_handler-Keeps lion (deliver lion depth) (deliver-IsKeeping lion depth) side signal w c)
step-KeepsAll lion depth (turn rounds) d h = turn-KeepsAll lion depth rounds d h

run-KeepsAll :
    (lion : Lion) (depth : ℕ) (es : List EngineEvent) (d : Daemon)
    → AllCounted d.queues
    → KeepsAll (engine_run lion depth es d)
unfolding engine_run
run-KeepsAll lion depth [] d h = known-KeepsAll d h
run-KeepsAll lion depth (e ∷ es) d h =
    bind-KeepsAll (engine_step lion depth e d) _ (step-KeepsAll lion depth e d h)
      (λ d' h'. run-KeepsAll lion depth es d' h')

-- Whatever users send, whoever logs in and goes, whatever the servers send, and whenever the main loop
-- takes its turn, in whatever order, num_items and num_errors of every queue are the lengths of its two
-- lists, if they were so at the start and the run has a result.
pub engine_run-AllCounted :
    (lion : Lion) (depth : ℕ) (es : List EngineEvent) (d v : Daemon)
    → AllCounted d.queues
    → engine_run lion depth es d ≡ some v
    → AllCounted v.queues
engine_run-AllCounted lion depth es d v h e = (run-KeepsAll lion depth es d h).at v e
