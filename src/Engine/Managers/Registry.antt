-- ===== src/Engine/Managers/Registry.antt =====
-- engine/manager.c: manager_new, manager_release, manager_unlink_user, manager_unlink_all_user,
-- manager_cleanup, manager_find_fromsid, manager_queuenew. The list of managers is manager_head with
-- its next pointers; a manager is written back in its place. Running out of memory is not modelled.
pub mod Laws
use fxp_one.Prelude.{
  ℕ, suc, ◌+◌, ◌%◌, ◌^◌, Bool, true, false, not, ◌&&◌, List, [], ◌∷◌, Option, none, some, ◌==◌,
  if◌then◌else◌,
}
use fxp_one.Lion.{Lion}
use fxp_one.Site.{Site, yna_no}
use fxp_one.Queue.Types.{Queue, queue_newnode, north, south}
use fxp_one.Session.{Session, handler_withuser}
use fxp_one.Engine.World.{Manager}
use fxp_one.Engine.Commands.{session_new}

-- The managers, and manager_id.
pub record Registry : Type 0 where
  pub managers : List Manager
  pub next_id : ℕ

-- What a user asks for is told by two bits.
pub record UserFlags : Type 0 where
  pub wants_log : Bool
  pub rnfr_ok : Bool

unfoldable pub manager_new :
    Lion → Bool → Option ℕ → Site → UserFlags → Registry → Registry × Manager
manager_new lion server_ssl user site flags r =
    let m : Manager = record {
      site = site;
      session = some (session_new lion server_ssl handler_withuser site);
      old_session = none;
      id = r.next_id;
      connected = false;
      user = user;
      locked = yna_no;
      qid = 0;
      is_dmovefirst = false;
      userflag_log = flags.wants_log;
      userflag_rnfr_ok = flags.rnfr_ok;
    } in
    (record { managers = m ∷ r.managers; next_id = suc r.next_id % 2 ^ 32 }, m)

-- The session is closed after the manager has let go of it, so its handler finds no manager and does
-- nothing.
unfoldable pub give_up : Session → Session
give_up s = record s { online = false; handler = none; files = [] }

abbrev released_session : Option Session → Option Session → Option Session
released_session none old = old
released_session (some s) old = some (give_up s)

-- site is NULL as well afterwards; nothing reads it again.
unfoldable pub manager_release : Manager → Manager
manager_release m = record m {
  user = none;
  old_session = released_session m.session m.old_session;
  session = none;
  id = 0;
  qid = 0;
}

abbrev pub is_user : Option ℕ → ℕ → Bool
is_user none user = false
is_user (some u) user = u == user

-- node->user = NULL, and without a queue the manager goes.
unfoldable pub unlink : ℕ → Manager → Manager
unfolding manager_release
unlink user m =
    if is_user m.user user
    then (if m.qid == 0
        then manager_release (record m { user = none })
        else record m { user = none })
    else m

unfoldable pub manager_unlink_all_user : ℕ → List Manager → List Manager
unfolding unlink
manager_unlink_all_user user [] = []
manager_unlink_all_user user (m ∷ ms) = unlink user m ∷ manager_unlink_all_user user ms

-- The old session is freed, and the pointer to a session is cleared with it.
unfoldable pub free_old : Manager → Manager
free_old m = elim m.old_session [
  | none ↦ m
  | some s ↦ record m { old_session = none; session = none }
]

-- One released manager is taken out, and the rest of the list is left for the next time.
unfoldable pub manager_cleanup : List Manager → List Manager
unfolding free_old
manager_cleanup [] = []
manager_cleanup (m ∷ ms) =
    let rest = manager_cleanup ms in if m.id == 0 then ms else free_old m ∷ rest

unfoldable pub manager_find_fromsid : List Manager → ℕ → Option Manager
manager_find_fromsid [] sid = none
manager_find_fromsid (m ∷ ms) sid = if m.id == sid then some m else manager_find_fromsid ms sid

-- What QUEUENEW gives: the manager that has a queue already, or the queue with its two managers.
pub data NewQueue : Type 0 where
  taken : Manager → NewQueue
  created : Queue → Manager → Manager → NewQueue

-- The new queue with its two managers.
unfoldable pub queue_of : ℕ → ℕ → ℕ → Queue
queue_of qid id1 id2 = record (queue_newnode qid) {
  north_sid = id1;
  south_sid = id2;
  north_mgr = id1;
  south_mgr = id2;
}

unfoldable pub manager_queuenew : ℕ → Manager → Manager → NewQueue
unfolding queue_of
manager_queuenew qid m1 m2 =
    if not (m1.qid == 0)
    then taken m1
    else if not (m2.qid == 0)
    then taken m2
    else created (queue_of qid m1.id m2.id) (record m1 { qid = qid }) (record m2 { qid = qid })
