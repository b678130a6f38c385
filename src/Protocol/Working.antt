-- ===== src/Protocol/Working.antt =====
-- The counters of every queue under QUEUENEW, the listing requests, and those that set a queue to work:
-- GO, STOP, QGRAB, QCOMPARE, QCLONE.
use fxp_one.Prelude.{
  ℕ, Bool, true, false, not, List, Option, none, some, Text, codes, atoi, if◌then◌else◌, ◌>>=◌,
  Option-cases, inl, inr,
}
use fxp_one.Lion.{Lion}
use fxp_one.Site.{findkey, str2yna}
use fxp_one.Queue.Types.{Queue, is_idle}
use fxp_one.Queue.Subscribers.{queue_subscribe}
use fxp_one.Queue.Accounting.{IsCounted}
use fxp_one.Engine.World.{World, Manager}
use fxp_one.Engine.Managers.Registry.{manager_find_fromsid}
use fxp_one.Engine.Process.{queue_go, queue_stop}
use fxp_one.Engine.Requests.{queue_grab, queue_compare}
use fxp_one.Engine.Handlers.{deliver}
use fxp_one.Engine.Counting.{IsCountedWorld, Keeps-some, Keeps-none}
use fxp_one.Engine.Counting as Counting
use fxp_one.Engine.Counting.Events.{deliver-IsKeeping}
use fxp_one.Engine.Counting.Grabs.{queue_grab-Keeps}
use fxp_one.Engine.Counting.Steps.{queue_stop-Keeps, queue_go-counted}
use fxp_one.Protocol.State.{
  Daemon, Keys, answer, say, managers, managers_of, world_of, put_back, with_qid, queue_findbyqid,
}
use fxp_one.Protocol.Queues.{
  tell_queues, queue_list, queue_get, queue_err, owned_pair, command2_cmd_queuenew,
  command2_cmd_qlist, command2_cmd_qget, command2_cmd_qerr,
}
use fxp_one.Protocol.Running.{
  command2_cmd_qgrab, command2_cmd_qcompare, command2_cmd_qclone, command2_cmd_go,
  command2_cmd_stop, queue_clone, cloned, tell_compared, stop_level_of, starts, has,
}
use fxp_one.Protocol.Counted.{AllCounted, found-IsCounted, put_queue-AllCounted}
use fxp_one.Protocol.Counted.Changes.{subscribe-IsCounted}
use fxp_one.Protocol.Written.{
  KeepsAll, known-KeepsAll, none-KeepsAll, bind-KeepsAll, on_managers-KeepsAll,
}
use fxp_one.Protocol.Keeping.{if-KeepsAll, option-KeepsAll, answer-KeepsAll, key-KeepsAll}
use fxp_one.Protocol.Making.{
  tell_items-counted, tell_errors-counted, tell_queues-KeepsAll, new_queue-counted,
  queue_clone-counted, BothCounted,
}

module _ (d : Daemon) (h : AllCounted d.queues) (user : ℕ) where
  -- The queue's managers, or 1514.
  managers-KeepsAll :
      (request : Text) (q : Queue) (o : Option (Manager × Manager)) (op : World → Option World)
      → IsCounted q
      → ((w : World) → IsCountedWorld w → Counting.Keeps (op w))
      → KeepsAll (elim o [
        | none ↦ answer user request 1514 d
        | some (m1, m2) ↦ op (world_of d q m1 m2) >>= (λ w. some (put_back w d))
      ])
  managers-KeepsAll request q none op c k = answer-KeepsAll d h user request 1514
  managers-KeepsAll request q (some m) op c k = on_managers-KeepsAll d q op (some m) h c k

module _ (d : Daemon) (h : AllCounted d.queues) (user : ℕ) (keys : Keys) where
  qid-KeepsAll :
      (request : Text) (k : Queue → Option Daemon)
      → ((q : Queue) → IsCounted q → KeepsAll (k q))
      → KeepsAll (with_qid user request keys d k)
  unfolding with_qid
  qid-KeepsAll request k f = elim (Option-cases (findkey keys (codes "QID"))) [
    | inl e ↦ rw (with_qid, e) (answer-KeepsAll d h user request 1501)
    | inr (qid, e) ↦ elim (Option-cases (queue_findbyqid d.queues (atoi qid))) [
      | inl e' ↦ rw (with_qid, e, e') (answer-KeepsAll d h user request 1512)
      | inr (q, e') ↦ rw (with_qid, e, e') (f q (found-IsCounted d.queues (atoi qid) q h e'))
    ]
  ]

  pub qlist-KeepsAll : KeepsAll (command2_cmd_qlist user d)
  unfolding command2_cmd_qlist queue_list say
  qlist-KeepsAll =
      bind-KeepsAll (tell_queues user d.queues _) _ (tell_queues-KeepsAll user d.queues _ h)
        λ d' h'. known-KeepsAll _ h'

  pub qget-KeepsAll : KeepsAll (command2_cmd_qget user keys d)
  unfolding command2_cmd_qget queue_get say
  qget-KeepsAll =
      qid-KeepsAll (codes "QGET") _
        λ q c. known-KeepsAll _ (tell_items-counted user q.id 0 q.items _ h)

  pub qerr-KeepsAll : KeepsAll (command2_cmd_qerr user keys d)
  unfolding command2_cmd_qerr queue_err say
  qerr-KeepsAll =
      qid-KeepsAll (codes "QERR") _
        λ q c. known-KeepsAll _ (tell_errors-counted user q.id q.err_items _ h)

  owned_pair-KeepsAll : (m1 m2 : Manager) → KeepsAll (owned_pair user m1 m2 d)
  unfolding owned_pair
  owned_pair-KeepsAll m1 m2 = if-KeepsAll _ _ _ (answer-KeepsAll d h user (codes "QUEUENEW") 1511) (
      if-KeepsAll _ _ _ (answer-KeepsAll d h user (codes "QUEUENEW") 1508) (
        if-KeepsAll _ _ _ (answer-KeepsAll d h user (codes "QUEUENEW") 1508)
          (known-KeepsAll _ (new_queue-counted user m1 m2 d h).0)))

  pub queuenew-KeepsAll : KeepsAll (command2_cmd_queuenew user keys d)
  unfolding command2_cmd_queuenew
  queuenew-KeepsAll =
      key-KeepsAll d h user (codes "QUEUENEW") 1501 (findkey keys (codes "NORTH_SID")) _ λ sid1.
        key-KeepsAll d h user (codes "QUEUENEW") 1501 (findkey keys (codes "SOUTH_SID")) _ λ sid2.
          option-KeepsAll (manager_find_fromsid (managers d) (atoi sid1)) _ _
            (answer-KeepsAll d h user (codes "QUEUENEW") 1506)
            λ m1.
              option-KeepsAll (manager_find_fromsid (managers d) (atoi sid2)) _ _
                (answer-KeepsAll d h user (codes "QUEUENEW") 1506) λ m2. owned_pair-KeepsAll m1 m2

  module _ (lion : Lion) (depth : ℕ) where
    pub qgrab-KeepsAll : KeepsAll (command2_cmd_qgrab lion (deliver lion depth) user keys d)
    unfolding command2_cmd_qgrab
    qgrab-KeepsAll = qid-KeepsAll (codes "QGRAB") _ λ q c.
        on_managers-KeepsAll d q
          (queue_grab (deliver lion depth) user (has keys (codes "SUBSCRIBE"))) (managers_of d q) h
          c
          (queue_grab-Keeps (deliver lion depth) (deliver-IsKeeping lion depth) user
            (has keys (codes "SUBSCRIBE")))

    pub stop-KeepsAll : KeepsAll (command2_cmd_stop lion (deliver lion depth) user keys d)
    unfolding command2_cmd_stop
    stop-KeepsAll = qid-KeepsAll (codes "STOP") _ λ q c.
        managers-KeepsAll d h user (codes "STOP") q (managers_of d q)
          (queue_stop lion (deliver lion depth) user
            (stop_level_of lion (deliver lion depth) user keys))
          c
          (queue_stop-Keeps lion (deliver lion depth) (deliver-IsKeeping lion depth) user
            (stop_level_of lion (deliver lion depth) user keys))

    compared-Keeps :
        (w : World) (o : Option (List ℕ × List ℕ))
        → IsCountedWorld w
        → Counting.Keeps
            (o >>= (λ fids. some (tell_compared lion (deliver lion depth) user w fids)))
    unfolding tell_compared
    compared-Keeps w none c = Keeps-none
    compared-Keeps w (some (a, b)) c = Keeps-some _ (record { counted = c.counted })

    pub qcompare-KeepsAll : KeepsAll (command2_cmd_qcompare lion (deliver lion depth) user keys d)
    unfolding command2_cmd_qcompare
    qcompare-KeepsAll = qid-KeepsAll (codes "QCOMPARE") _ λ q c.
        on_managers-KeepsAll d q
          (λ w.
            queue_compare lion w
            >>= (λ fids. some (tell_compared lion (deliver lion depth) user w fids)))
          (managers_of d q) h c (λ w v. compared-Keeps w (queue_compare lion w) v)

-- A queue starts, if its managers are found.
started-KeepsAll :
    (user : ℕ) (q : Queue) (d : Daemon)
    → AllCounted d.queues
    → IsCounted q
    → KeepsAll (elim (managers_of d q) [
      | none ↦ answer user (codes "GO") 1514 d
      | some (m1, m2) ↦ some (queue_go user (world_of d q m1 m2)) >>= (λ w. some (put_back w d))
    ])
started-KeepsAll user q d h c =
    managers-KeepsAll d h user (codes "GO") q (managers_of d q) (λ w. some (queue_go user w)) c
      (λ w v. Keeps-some _ (queue_go-counted user w v))

subscribed-IsCounted :
    (b : Bool) (user : ℕ) (q : Queue)
    → IsCounted q
    → IsCounted (if b then queue_subscribe q user else q)
subscribed-IsCounted true user q c = subscribe-IsCounted user q c
subscribed-IsCounted false user q c = c

module _ (lion : Lion) (depth user : ℕ) (keys : Keys) (d : Daemon) (h : AllCounted d.queues) where
  pub go-KeepsAll : KeepsAll (command2_cmd_go lion (deliver lion depth) user keys d)
  unfolding command2_cmd_go
  go-KeepsAll = qid-KeepsAll d h user keys (codes "GO") _ λ q c.
      let c' = subscribed-IsCounted (has keys (codes "SUBSCRIBE")) user q c in
      started-KeepsAll user _ _ (put_queue-AllCounted _ d.queues c' h) c'

  cloned-KeepsAll :
      (active : Bool) (qid : ℕ) (r : Daemon × Option Queue)
      → BothCounted r
      → KeepsAll (cloned lion (deliver lion depth) user keys active qid r)
  unfolding cloned say
  cloned-KeepsAll active qid (d', none) b = known-KeepsAll _ b.0
  cloned-KeepsAll active qid (d', some q) b =
      let c = subscribed-IsCounted (has keys (codes "SUBSCRIBE")) user q b.1 in
      if-KeepsAll
        (starts lion (deliver lion depth) user (str2yna lion (findkey keys (codes "START"))) active)
        _ _ (started-KeepsAll user _ _ (put_queue-AllCounted _ d'.queues c b.0) c)
        (known-KeepsAll _ (put_queue-AllCounted _ d'.queues c b.0))

  managed-KeepsAll :
      (q : Queue) (o : Option (Manager × Manager))
      → KeepsAll (
          o >>= (λ m.
            cloned lion
              (deliver lion depth)
              user
              keys
              (not (is_idle q.state))
              q.id
              (queue_clone lion user q m.0 m.1 d)))
  managed-KeepsAll q none = none-KeepsAll
  managed-KeepsAll q (some (m1, m2)) =
      cloned-KeepsAll (not (is_idle q.state)) q.id _ (queue_clone-counted lion user q m1 m2 d h)

  pub qclone-KeepsAll : KeepsAll (command2_cmd_qclone lion (deliver lion depth) user keys d)
  unfolding command2_cmd_qclone
  qclone-KeepsAll =
      qid-KeepsAll d h user keys (codes "QUEUEFREE") _ λ q c. managed-KeepsAll q (managers_of d q)
