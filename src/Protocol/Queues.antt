-- ===== src/Protocol/Queues.antt =====
-- engine/command2.c: the requests on queues: QUEUENEW, QLIST, QGET, QERR, QGRAB, QDEL, QMOVE, QCOMPARE,
-- QUEUEFREE, QCLONE, GO, STOP, SUBSCRIBE, UNSUBSCRIBE; engine/queue.c: queue_list, queue_get, queue_err,
-- queue_unlink with queue_freenode. Speeds are left out.
use fxp_one.Prelude.{
  ℕ, zero, suc, ◌%◌, ◌^◌, Bool, true, false, not, ◌&&◌, List, [], ◌∷◌, Option, none, some, Text,
  codes, atoi, ◌==◌, if◌then◌else◌, ◌>>=◌, length,
}
use fxp_one.Lion.{Lion}
use fxp_one.Site.{findkey}
use fxp_one.Queue.Types.{Qitem, Queue, is_idle, Reply, done, active_item, no_such_item}
use fxp_one.Queue.Requests.{queue_del, queue_move}
use fxp_one.Queue.Subscribers.{queue_is_subscriber, queue_subscribe, queue_unsubscribe}
use fxp_one.Engine.World.{Manager, answered, told_item, told_error, told_queue}
use fxp_one.Engine.Managers.Registry.{
  manager_find_fromsid, manager_queuenew, manager_release, is_user, NewQueue, taken, created,
}
use fxp_one.Protocol.State.{
  Daemon, Keys, say, answer, managers, set_managers, put_manager, put_queue, set_queue_of,
  managers_of, with_qid, with_key,
}

abbrev has : Keys → Text → Bool
has keys key = elim (findkey keys key) [ none ↦ false | some t ↦ true ]

-- queue_unlink, and what queue_freenode leaves of the managers: one that no user has goes.
unfoldable pub queue_unlink : ℕ → List Queue → List Queue
queue_unlink qid [] = []
queue_unlink qid (q ∷ qs) = let rest = queue_unlink qid qs in if q.id == qid then qs else q ∷ rest

has_user : Option ℕ → Bool
has_user none = false
has_user (some u) = true

leave_queue : Manager → Manager
unfolding manager_release has_user
leave_queue m =
    if has_user m.user then record m { qid = 0 } else manager_release (record m { qid = 0 })

unfoldable pub leave_at : ℕ → List Manager → List Manager
unfolding leave_queue
leave_at sid [] = []
leave_at sid (m ∷ ms) =
    let rest = leave_at sid ms in if m.id == sid then leave_queue m ∷ ms else m ∷ rest

unfoldable pub queue_freenode : Queue → Daemon → Daemon
unfolding queue_unlink leave_at
queue_freenode q d =
    set_managers (leave_at q.south_mgr (leave_at q.north_mgr (managers d)))
      (record d { queues = queue_unlink q.id d.queues })

-- The lines of QGET, QERR and QLIST.
unfoldable pub tell_items : ℕ → ℕ → ℕ → List Qitem → Daemon → Daemon
unfolding say
tell_items user qid n [] d = d
tell_items user qid n (x ∷ xs) d = tell_items user qid (suc n) xs (say user (told_item qid n x) d)

unfoldable pub tell_errors : ℕ → ℕ → List Qitem → Daemon → Daemon
unfolding say
tell_errors user qid [] d = d
tell_errors user qid (x ∷ xs) d = tell_errors user qid xs (say user (told_error qid x) d)

unfoldable pub queue_get : ℕ → Queue → Daemon → Daemon
unfolding tell_items say
queue_get user q d = say user (answered (codes "QGET") 0 (q.id ∷ [])) (
    tell_items user q.id 0 q.items
      (say user (answered (codes "QGET") 0 (q.id ∷ q.num_items ∷ [])) d))

unfoldable pub queue_err : ℕ → Queue → Daemon → Daemon
unfolding tell_errors say
queue_err user q d = say user (answered (codes "QERR") 0 (q.id ∷ [])) (
    tell_errors user q.id q.err_items
      (say user (answered (codes "QERR") 0 (q.id ∷ q.num_errors ∷ [])) d))

unfoldable pub tell_queue : ℕ → Queue → Daemon → Option Daemon
unfolding managers_of say
tell_queue user q d = do
  (m1, m2) ← managers_of d q
  some (
      say user
        (told_queue q.id m1.site.name m2.site.name (queue_is_subscriber q user) q.num_items
          (is_idle q.state) q.num_errors)
        d)

unfoldable pub tell_queues : ℕ → List Queue → Daemon → Option Daemon
unfolding tell_queue
tell_queues user [] d = some d
tell_queues user (q ∷ qs) d = do d ← tell_queue user q d; tell_queues user qs d

-- The end of the list has the answer's name alone, as its beginning has.
unfoldable pub queue_list : ℕ → Daemon → Option Daemon
unfolding tell_queues say
queue_list user d = do
  d ← tell_queues user d.queues (say user (answered (codes "QLIST") 0 []) d)
  answer user (codes "QLIST") 0 d

-- manager_queuenew with what it prints
unfoldable pub made_queue : ℕ → ℕ → ℕ → NewQueue → Daemon → Daemon × Option Queue
unfolding say put_manager
made_queue user sid1 sid2 (taken m) d =
    (say user (answered (codes "QUEUENEW") 1510 (sid1 ∷ sid2 ∷ m.id ∷ m.qid ∷ [])) d, none)
made_queue user sid1 sid2 (created q m1 m2) d = (
  say user (answered (codes "QUEUENEW") 0 (q.id ∷ q.north_sid ∷ q.south_sid ∷ [])) (
      set_managers (put_manager m2 (put_manager m1 (managers d)))
        (record d { queues = q ∷ d.queues; queue_counter = suc d.queue_counter % 2 ^ 32 })),
  some q,
)

unfoldable pub new_queue : ℕ → Manager → Manager → Daemon → Daemon × Option Queue
unfolding made_queue
new_queue user m1 m2 d = made_queue user m1.id m2.id (manager_queuenew d.queue_counter m1 m2) d

module _ (user : ℕ) where
  -- The sessions are told apart before anybody asks whose they are.
  unfoldable pub owned_pair : Manager → Manager → Daemon → Option Daemon
  unfolding new_queue
  owned_pair m1 m2 d =
      if m1.id == m2.id
      then answer user (codes "QUEUENEW") 1511 d
      else if not (is_user m1.user user)
      then answer user (codes "QUEUENEW") 1508 d
      else if not (is_user m2.user user)
      then answer user (codes "QUEUENEW") 1508 d
      else some (new_queue user m1 m2 d).0

  unfoldable pub command2_cmd_queuenew : Keys → Daemon → Option Daemon
  unfolding owned_pair
  command2_cmd_queuenew keys d =
      with_key user (codes "QUEUENEW") 1501 (findkey keys (codes "NORTH_SID")) d λ sid1.
        with_key user (codes "QUEUENEW") 1501 (findkey keys (codes "SOUTH_SID")) d λ sid2.
          elim (manager_find_fromsid (managers d) (atoi sid1)) [
            | none ↦ answer user (codes "QUEUENEW") 1506 d
            | some m1 ↦ elim (manager_find_fromsid (managers d) (atoi sid2)) [
              | none ↦ answer user (codes "QUEUENEW") 1506 d
              | some m2 ↦ owned_pair m1 m2 d
            ]
          ]

  unfoldable pub command2_cmd_qlist : Daemon → Option Daemon
  unfolding queue_list
  command2_cmd_qlist d = queue_list user d

  unfoldable pub command2_cmd_qget : Keys → Daemon → Option Daemon
  unfolding with_qid queue_get
  command2_cmd_qget keys d = with_qid user (codes "QGET") keys d λ q. some (queue_get user q d)

  unfoldable pub command2_cmd_qerr : Keys → Daemon → Option Daemon
  unfolding with_qid queue_err
  command2_cmd_qerr keys d = with_qid user (codes "QERR") keys d λ q. some (queue_err user q d)

  abbrev reply_code : Reply → ℕ
  reply_code done = 0
  reply_code active_item = 1404
  reply_code no_such_item = 1517

  unfoldable pub changed : Text → Queue × Reply → Daemon → Option Daemon
  unfolding say put_queue
  changed request (q, reply) d =
      some (
        say user (answered request (reply_code reply) (q.id ∷ q.num_items ∷ [])) (set_queue_of q d))

  unfoldable pub command2_cmd_qmove : Lion → Keys → Daemon → Option Daemon
  unfolding with_qid changed
  command2_cmd_qmove lion keys d =
      with_key user (codes "QMOVE") 1501 (findkey keys (codes "FROM")) d λ from.
        with_key user (codes "QMOVE") 1501 (findkey keys (codes "TO")) d λ to.
          with_qid user (codes "QMOVE") keys d
            λ q. changed (codes "QMOVE") (queue_move lion q from to) d

  -- One after the other; a text has no more tokens than bytes.
  unfoldable pub del_tokens : Lion → ℕ → Text → Queue → Daemon → Option Daemon
  unfolding changed
  del_tokens lion zero at q d = some d
  del_tokens lion (suc n) at q d = elim (lion.digtoken (b',' ∷ 13 ∷ 10 ∷ []) at) [
    | none ↦ some d
    | some (pos, rest) ↦ do
      d ← changed (codes "QDEL") (queue_del q pos) d
      del_tokens lion n rest (queue_del q pos).0 d
  ]

  unfoldable pub command2_cmd_qdel : Lion → Keys → Daemon → Option Daemon
  unfolding with_qid del_tokens
  command2_cmd_qdel lion keys d =
      with_key user (codes "QDEL") 1501 (findkey keys (codes "@")) d
        λ at. with_qid user (codes "QDEL") keys d λ q. del_tokens lion (length at) at q d

  -- A queue is freed in whatever state it is, unless IFIDLE is given.
  unfoldable pub command2_cmd_queuefree : Keys → Daemon → Option Daemon
  unfolding with_qid queue_freenode say
  command2_cmd_queuefree keys d = with_qid user (codes "QUEUEFREE") keys d λ q.
      if has keys (codes "IFIDLE") && not (is_idle q.state)
      then answer user (codes "QUEUEFREE") 1402 d
      else answer user (codes "QUEUEFREE") 0 (queue_freenode q d)

  unfoldable pub toggled : Keys → Queue → Daemon → Option Daemon
  unfolding put_queue say
  toggled keys q d =
      if has keys (codes "TOGGLE") && queue_is_subscriber q user
      then answer user (codes "SUBSCRIBE") 0 (set_queue_of (queue_unsubscribe q user) d)
      else answer user (codes "SUBSCRIBE") 0 (set_queue_of (queue_subscribe q user) d)

  unfoldable pub command2_cmd_subscribe : Keys → Daemon → Option Daemon
  unfolding with_qid toggled
  command2_cmd_subscribe keys d = with_qid user (codes "SUBSCRIBE") keys d λ q. toggled keys q d

  unfoldable pub command2_cmd_unsubscribe : Keys → Daemon → Option Daemon
  unfolding with_qid put_queue
  command2_cmd_unsubscribe keys d = with_qid user (codes "UNSUBSCRIBE") keys d λ q.
      answer user (codes "UNSUBSCRIBE") 0
        (if queue_is_subscriber q user then set_queue_of (queue_unsubscribe q user) d else d)
