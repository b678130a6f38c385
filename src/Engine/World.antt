-- ===== src/Engine/World.antt =====
-- The state that a running queue works on: the queue, its two managers (engine/manager.h) with their
-- sessions, and what is printed to users. A function into `Option World` gives `none` where the code
-- would follow a NULL pointer or write past a buffer.
use fxp_one.Prelude.{
  ℕ, Bool, true, false, List, [], ◌∷◌, ◌++◌, Option, none, some, Text, ℤ, if◌then◌else◌, not, ◌||◌,
  ◌==◌,
}
use fxp_one.Site.{Site, Yna}
use fxp_one.Queue.Types.{Side, north, south, Qitem, Queue, QueueState}
use fxp_one.Session.Events.{Event, SessionEvent}
use fxp_one.Session.{Session, session_isidle}

-- MANAGER_USERFLAG_LOG and MANAGER_USERFLAG_RNFR_OK are the last two fields.
pub record Manager : Type 0 where
  pub site : Site
  pub session : Option Session
  pub old_session : Option Session
  pub id : ℕ
  pub connected : Bool
  pub user : Option ℕ
  pub locked : Yna
  pub qid : ℕ
  pub is_dmovefirst : Bool
  pub userflag_log : Bool
  pub userflag_rnfr_ok : Bool

-- The lines that are printed to a user, with the values that are printed.
pub data Notice : Type 0 where
  disconnect : ℕ → Text → Notice
  connect : ℕ → Bool → Notice
  idle : ℕ → Notice
  command_reply : ℕ → Event → ℤ → Text → Notice
  path_reply : ℕ → ℤ → Option Text → Text → Notice
  log_line : ℕ → Text → Notice
  qs_start : Bool → Option Text → Notice
  qs_start_directory : Option Text → Option Text → Notice
  qs_srccwd : Option Text → Notice
  qs_dstcwd : Option Text → Notice
  qs_mkd : Text → Notice
  qs_equalsize : Notice
  qs_xfract : Bool → Bool → ℕ → ℕ → Notice
  qs_xfrend : Bool → Notice
  qs_failed_src : Option Text → ℕ → Notice
  qs_failed_dst : Option Text → ℕ → Notice
  qc_remove : Notice
  qc_move : ℕ → Notice
  qc_empty : ℕ → Notice
  qc_idle : Notice
  qs_refresh : Notice
  request_done : ℕ → Notice
  grab_refused : ℕ → Bool → Notice
  request_refused : Event → ℕ → ℕ → Notice
  -- the answer to a request: its name, its code, and the numbers that are printed
  answered : Text → ℕ → List ℕ → Notice
  compared : ℕ → List ℕ → List ℕ → Notice
  told_item : ℕ → ℕ → Qitem → Notice
  told_error : ℕ → Qitem → Notice
  told_queue : ℕ → Option Text → Option Text → Bool → ℕ → Bool → ℕ → Notice
  told_site : Bool → Site → Notice
  grabbed : ℕ → ℕ → Site → Site → ℕ → ℕ → Notice

-- The static buffer of get_mkdname_by_depth: how many bytes it has room for, and its text.
pub record Store : Type 0 where
  pub room : ℕ
  pub text : Text

-- `online` says which users have a handle; `nodelay` is engine_nodelay; `server_ssl` is
-- net_server_SSL.
pub record World : Type 0 where
  pub queue : Queue
  pub north_mgr : Manager
  pub south_mgr : Manager
  pub nodelay : Bool
  pub server_ssl : Bool
  pub online : ℕ → Bool
  pub store : Option Store
  pub notices : List (ℕ × Notice)

-- How the events of a session reach its handler.
abbrev pub Call : Type 0
Call = Side → SessionEvent → World → Option World

abbrev pub manager : Side → World → Manager
manager north w = w.north_mgr
manager south w = w.south_mgr

abbrev pub set_manager : Side → Manager → World → World
set_manager north m w = record w { north_mgr = m }
set_manager south m w = record w { south_mgr = m }

abbrev pub session : Side → World → Option Session
session side w = (manager side w).session

abbrev pub put_session : Side → Session → World → World
put_session side s w = set_manager side (record (manager side w) { session = some s }) w

-- node->old_session = node->session; node->session = NULL
abbrev pub drop_session : Manager → Manager
drop_session m = record m { old_session = m.session; session = none }

abbrev pub set_queue : Queue → World → World
set_queue q w = record w { queue = q }

abbrev pub set_state : QueueState → World → World
set_state st w = record w { queue = record w.queue { state = st } }

abbrev pub hurry : World → World
hurry w = record w { nodelay = true }

-- lion_printf to one user, and to every subscriber that has a handle.
abbrev pub tell : ℕ → Notice → World → World
tell user n w = record w { notices = w.notices ++ (user, n) ∷ [] }

subscribers : (ℕ → Bool) → Notice → List (Option ℕ) → List (ℕ × Notice)
subscribers online n [] = []
subscribers online n (none ∷ us) = subscribers online n us
subscribers online n (some u ∷ us) =
    let rest = subscribers online n us in if online u then (u, n) ∷ rest else rest

unfoldable pub notify : Notice → World → World
unfolding subscribers
notify n w = record w { notices = w.notices ++ subscribers w.online n w.queue.users }

-- The first item of the queue, which the code reaches through a pointer.
abbrev pub head_item : List Qitem → Option Qitem
head_item [] = none
head_item (x ∷ xs) = some x

abbrev pub replace_head : List Qitem → Qitem → List Qitem
replace_head [] x = []
replace_head (y ∷ ys) x = x ∷ ys

abbrev pub on_head : (Qitem → Qitem) → World → Option World
on_head f w = elim (head_item w.queue.items) [
  | none ↦ none
  | some x ↦ some (set_queue (record w.queue { items = replace_head w.queue.items (f x) }) w)
]

-- Both sessions are there and wait for a command.
unfoldable pub both_idle : World → Bool
both_idle w = if session_isidle (session north w) then session_isidle (session south w) else false

abbrev pub when_idle : World → Option World → Option World
when_idle w k = if both_idle w then k else some w

-- queue->items->..., a fault if there is no item
abbrev pub at_item : World → (Qitem → Option World) → Option World
at_item w k = elim (head_item w.queue.items) [ none ↦ none | some x ↦ k x ]

-- queue->src_mgr->... and queue->dst_mgr->...
abbrev pub at_src : World → (Side → Option World) → Option World
at_src w k = elim w.queue.src_mgr [ none ↦ none | some side ↦ k side ]

abbrev pub at_dst : World → (Side → Option World) → Option World
at_dst w k = elim w.queue.dst_mgr [ none ↦ none | some side ↦ k side ]

-- A pointer that is read through a session.
abbrev pub at_session : Side → World → (Session → Option World) → Option World
at_session side w k = elim (session side w) [ none ↦ none | some s ↦ k s ]

-- src_failure || dst_failure of the item in work
abbrev pub has_failed : Qitem → Bool
has_failed x = not (x.src_failure == 0) || not (x.dst_failure == 0)
