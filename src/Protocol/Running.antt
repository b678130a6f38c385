-- ===== src/Protocol/Running.antt =====
-- engine/command2.c: the requests that set a queue to work or look at its sessions: QGRAB, QCOMPARE,
-- QCLONE, GO, STOP; engine/queue.c: queue_clone.
use fxp_one.Prelude.{
  ℕ, Bool, true, false, not, ◌&&◌, ◌||◌, List, [], ◌∷◌, Option, none, some, Text, codes,
  if◌then◌else◌, ◌>>=◌,
}
use fxp_one.Lion.{Lion}
use fxp_one.Site.{Yna, findkey, str2yna, is_yes, is_auto}
use fxp_one.Queue.Types.{Qitem, Queue, is_idle}
use fxp_one.Queue.Clone.{clone_items}
use fxp_one.Queue.Subscribers.{queue_subscribe}
use fxp_one.Engine.World.{World, Call, Manager, answered, compared, tell}
use fxp_one.Engine.Process.{queue_go, queue_stop}
use fxp_one.Engine.Requests.{queue_grab, queue_compare}
use fxp_one.Engine.Managers.Registry.{UserFlags}
use fxp_one.Protocol.State.{
  Daemon, Keys, say, answer, put_queue, set_queue_of, managers_of, on_queue_of, put_back, world_of,
  with_qid,
}
use fxp_one.Protocol.Sites.{new_manager}
use fxp_one.Protocol.Queues.{new_queue}

abbrev pub has : Keys → Text → Bool
has keys key = elim (findkey keys key) [ none ↦ false | some t ↦ true ]

abbrev no_user_flags : UserFlags
no_user_flags = record { wants_log = false; rnfr_ok = false }

unfoldable pub fill_queue : List Qitem → Daemon × Option Queue → Daemon × Option Queue
unfolding put_queue
fill_queue items (d, none) = (d, none)
fill_queue items (d, some q) =
    let filled = clone_items q items in (set_queue_of filled d, some filled)

-- Two new sessions to the same sites, and a queue of copies.
unfoldable pub queue_clone : Lion → ℕ → Queue → Manager → Manager → Daemon → Daemon × Option Queue
unfolding fill_queue new_manager new_queue
queue_clone lion user src m1 m2 d =
    let first = new_manager lion user m1.site no_user_flags d in
    let second = new_manager lion user m2.site no_user_flags first.0 in
    fill_queue src.items (new_queue user first.1 second.1 second.0)

module _ (lion : Lion) (call : Call) (user : ℕ) where
  -- 1514 without both managers
  abbrev with_managers : Text → Queue → Daemon → (World → Option World) → Option Daemon
  with_managers request q d op = elim (managers_of d q) [
    | none ↦ answer user request 1514 d
    | some (m1, m2) ↦ do w ← op (world_of d q m1 m2); some (put_back w d)
  ]

  unfoldable pub command2_cmd_qgrab : Keys → Daemon → Option Daemon
  unfolding with_qid managers_of world_of put_back
  command2_cmd_qgrab keys d =
      with_qid user (codes "QGRAB") keys d
        λ q. on_queue_of d q λ w. queue_grab call user (has keys (codes "SUBSCRIBE")) w

  unfoldable pub tell_compared : World → List ℕ × List ℕ → World
  tell_compared w (north_fids, south_fids) = tell user (compared w.queue.id north_fids south_fids) w

  unfoldable pub command2_cmd_qcompare : Keys → Daemon → Option Daemon
  unfolding with_qid managers_of world_of put_back tell_compared
  command2_cmd_qcompare keys d =
      with_qid user (codes "QCOMPARE") keys d
        λ q. on_queue_of d q λ w. do fids ← queue_compare lion w; some (tell_compared w fids)

  -- Whoever has the sessions, the queue starts from its beginning, in whatever state it is.
  unfoldable pub command2_cmd_go : Keys → Daemon → Option Daemon
  unfolding with_qid managers_of world_of put_back put_queue
  command2_cmd_go keys d = with_qid user (codes "GO") keys d λ q.
      let sub = if has keys (codes "SUBSCRIBE") then queue_subscribe q user else q in
      with_managers (codes "GO") sub (set_queue_of sub d) λ w. some (queue_go user w)

  unfoldable pub stop_level_of : Keys → ℕ
  stop_level_of keys =
      if has keys (codes "DROP") then 2 else if has keys (codes "HARD") then 1 else 0

  unfoldable pub command2_cmd_stop : Keys → Daemon → Option Daemon
  unfolding with_qid managers_of world_of put_back stop_level_of
  command2_cmd_stop keys d =
      with_qid user (codes "STOP") keys d
        λ q. with_managers (codes "STOP") q d λ w. queue_stop lion call user (stop_level_of keys) w

  -- The copy starts if START says so, or if nothing is said and the queue was at work.
  unfoldable pub starts : Yna → Bool → Bool
  starts xstart active = is_yes xstart || (is_auto xstart && active)

  unfoldable pub cloned : Keys → Bool → ℕ → Daemon × Option Queue → Option Daemon
  unfolding say put_queue managers_of world_of put_back starts
  cloned keys active qid (d, none) = some (say user (answered (codes "QCLONE") 1234 (qid ∷ [])) d)
  cloned keys active qid (d, some q) =
      let sub = if has keys (codes "SUBSCRIBE") then queue_subscribe q user else q in
      let told = say user (answered (codes "QCLONE") 0 (qid ∷ sub.id ∷ [])) (set_queue_of sub d) in
      if starts (str2yna lion (findkey keys (codes "START"))) active
      then with_managers (codes "GO") sub told (λ w. some (queue_go user w))
      else some told

  -- A refusal of QCLONE has the name of QUEUEFREE.
  unfoldable pub command2_cmd_qclone : Keys → Daemon → Option Daemon
  unfolding with_qid managers_of cloned queue_clone
  command2_cmd_qclone keys d = with_qid user (codes "QUEUEFREE") keys d λ q. do
    (m1, m2) ← managers_of d q
    cloned keys (not (is_idle q.state)) q.id (queue_clone lion user q m1 m2 d)
