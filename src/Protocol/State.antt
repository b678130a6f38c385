-- ===== src/Protocol/State.antt =====
-- The state of the engine that a request of engine/command2.c works on, and the tests that most
-- requests begin with. The managers of a queue are found by their ids; a user is told by a number.
use fxp_one.Prelude.{
  ℕ, Bool, ◌++◌, List, [], ◌∷◌, Option, none, some, Text, codes, atoi, ◌==◌, if◌then◌else◌, ◌>>=◌,
}
use fxp_one.Site.{findkey}
use fxp_one.Site.Table.{SiteTable}
use fxp_one.Users.{Users}
use fxp_one.Queue.Types.{Queue, queue_newnode, Side, north, south}
use fxp_one.Engine.World.{World, Manager, Notice, Store, answered}
use fxp_one.Engine.Managers.Registry.{Registry, manager_find_fromsid, is_user}

-- `queues` is queue_head with its next pointers; `names` gives the name that a user logged in with;
-- `closed` are the users whose handle is closed; the other fields that are no lists of the engine's own
-- are as in World.
pub record Daemon : Type 0 where
  pub table : SiteTable
  pub users : Users
  pub registry : Registry
  pub queues : List Queue
  pub queue_counter : ℕ
  pub num_clients : ℕ
  pub engine_running : Bool
  pub names : ℕ → Text
  pub closed : List ℕ
  pub nodelay : Bool
  pub server_ssl : Bool
  pub online : ℕ → Bool
  pub store : Option Store
  pub notices : List (ℕ × Notice)

-- keys and values of a request
abbrev pub Keys : Type 0
Keys = List (Option Text × Text)

abbrev pub managers : Daemon → List Manager
managers d = d.registry.managers

-- lion_printf(node->handle, ...)
unfoldable pub say : ℕ → Notice → Daemon → Daemon
say user n d = record d { notices = d.notices ++ (user, n) ∷ [] }

abbrev pub answer : ℕ → Text → ℕ → Daemon → Option Daemon
answer user request code d = some (say user (answered request code []) d)

unfoldable pub queue_findbyqid : List Queue → ℕ → Option Queue
queue_findbyqid [] qid = none
queue_findbyqid (q ∷ qs) qid = if q.id == qid then some q else queue_findbyqid qs qid

-- What is reached through a pointer is written back where it stands.
unfoldable pub put_manager : Manager → List Manager → List Manager
put_manager m [] = []
put_manager m (x ∷ xs) = let rest = put_manager m xs in if x.id == m.id then m ∷ xs else x ∷ rest

unfoldable pub put_queue : Queue → List Queue → List Queue
put_queue q [] = []
put_queue q (x ∷ xs) = let rest = put_queue q xs in if x.id == q.id then q ∷ xs else x ∷ rest

abbrev pub set_managers : List Manager → Daemon → Daemon
set_managers ms d = record d { registry = record d.registry { managers = ms } }

abbrev pub set_queue_of : Queue → Daemon → Daemon
set_queue_of q d = record d { queues = put_queue q d.queues }

-- The world of a queue with its two managers.
unfoldable pub world_of : Daemon → Queue → Manager → Manager → World
world_of d q m1 m2 = record {
  queue = q;
  north_mgr = m1;
  south_mgr = m2;
  nodelay = d.nodelay;
  server_ssl = d.server_ssl;
  online = d.online;
  store = d.store;
  notices = d.notices;
}

unfoldable pub take_world : World → Daemon → Daemon
take_world w d = record d { nodelay = w.nodelay; store = w.store; notices = w.notices }

unfoldable pub put_back : World → Daemon → Daemon
unfolding take_world put_manager put_queue
put_back w d =
    set_queue_of w.queue (
      set_managers (put_manager w.south_mgr (put_manager w.north_mgr (managers d)))
        (take_world w d))

-- queue->north_mgr and queue->south_mgr, which stay when a session is lost
unfoldable pub managers_of : Daemon → Queue → Option (Manager × Manager)
unfolding manager_find_fromsid
managers_of d q = do
  m1 ← manager_find_fromsid (managers d) q.north_mgr
  m2 ← manager_find_fromsid (managers d) q.south_mgr
  some (m1, m2)

-- Something that is done to a queue and its managers.
abbrev pub on_queue_of : Daemon → Queue → (World → Option World) → Option Daemon
on_queue_of d q op = do (m1, m2) ← managers_of d q; w ← op (world_of d q m1 m2); some (put_back w d)

abbrev side_of : Queue → Manager → Side
side_of q m = if q.north_mgr == m.id then north else south

-- Something that is done to a manager: at its side of its queue, or alone, which uses one side only.
unfoldable pub on_manager : Manager → (Side → World → Option World) → Daemon → Option Daemon
unfolding put_back managers_of world_of take_world put_manager queue_findbyqid
on_manager m op d = elim (if m.qid == 0 then none else queue_findbyqid d.queues m.qid) [
  | some q ↦ on_queue_of d q (op (side_of q m))
  | none ↦ do
    w ← op north (world_of d (queue_newnode 0) m m)
    some (set_managers (put_manager w.north_mgr (managers d)) (take_world w d))
]

module _ (user : ℕ) where
  -- 1506 without a session of that id, 1508 if another user has it
  unfoldable pub with_sid : Text → Text → Daemon → (Manager → Option Daemon) → Option Daemon
  with_sid request sid d k = elim (manager_find_fromsid (managers d) (atoi sid)) [
    | none ↦ answer user request 1506 d
    | some m ↦ if is_user m.user user then k m else answer user request 1508 d
  ]

  -- 1501 without a QID, 1512 without a queue of that id
  unfoldable pub with_qid : Text → Keys → Daemon → (Queue → Option Daemon) → Option Daemon
  with_qid request keys d k = elim (findkey keys (codes "QID")) [
    | none ↦ answer user request 1501 d
    | some qid ↦ elim (queue_findbyqid d.queues (atoi qid)) [
      | none ↦ answer user request 1512 d
      | some q ↦ k q
    ]
  ]

  -- A required argument.
  abbrev pub with_key : Text → ℕ → Option Text → Daemon → (Text → Option Daemon) → Option Daemon
  with_key request code value d k = elim value [ none ↦ answer user request code d | some v ↦ k v ]
