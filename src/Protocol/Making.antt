-- ===== src/Protocol/Making.antt =====
-- The counters of every queue where queues are told of, made, and cloned.
use fxp_one.Prelude.{
  ℕ, suc, List, [], ◌∷◌, Option, none, some, refl, ◌==◌, Option-cases, inl, inr, Bool-cases,
}
use fxp_one.Lion.{Lion}
use fxp_one.Queue.Types.{Qitem, Queue, queue_newnode, at_last}
use fxp_one.Queue.Clone.{clone_items, queue_dupeitem}
use fxp_one.Queue.Accounting.{IsCounted, insert_item-IsCounted}
use fxp_one.Queue.Insert.{insert_item}
use fxp_one.Engine.World.{Manager}
use fxp_one.Engine.Managers.Registry.{manager_queuenew, queue_of, NewQueue, taken, created}
use fxp_one.Protocol.State.{Daemon, say, managers_of}
use fxp_one.Protocol.Sites.{new_manager}
use fxp_one.Protocol.Queues.{
  tell_items, tell_errors, tell_queue, tell_queues, made_queue, new_queue,
}
use fxp_one.Protocol.Running.{queue_clone, fill_queue}
use fxp_one.Protocol.Counted.{AllCounted, put_queue-AllCounted}
use fxp_one.Protocol.Written.{KeepsAll, known-KeepsAll, none-KeepsAll, bind-KeepsAll}

pub tell_items-counted :
    (user qid n : ℕ) (xs : List Qitem) (d : Daemon)
    → AllCounted d.queues
    → AllCounted (tell_items user qid n xs d).queues
unfolding tell_items say
tell_items-counted user qid n [] d h = h
tell_items-counted user qid n (x ∷ xs) d h = tell_items-counted user qid (suc n) xs _ h

pub tell_errors-counted :
    (user qid : ℕ) (xs : List Qitem) (d : Daemon)
    → AllCounted d.queues
    → AllCounted (tell_errors user qid xs d).queues
unfolding tell_errors say
tell_errors-counted user qid [] d h = h
tell_errors-counted user qid (x ∷ xs) d h = tell_errors-counted user qid xs _ h

tell_queue-KeepsAll :
    (user : ℕ) (q : Queue) (d : Daemon) → AllCounted d.queues → KeepsAll (tell_queue user q d)
unfolding tell_queue say
tell_queue-KeepsAll user q d h = elim (Option-cases (managers_of d q)) [
  | inl e ↦ rw (tell_queue, e) none-KeepsAll
  | inr (m, e) ↦ rw (tell_queue, e) (known-KeepsAll _ h)
]

pub tell_queues-KeepsAll :
    (user : ℕ) (qs : List Queue) (d : Daemon)
    → AllCounted d.queues
    → KeepsAll (tell_queues user qs d)
unfolding tell_queues
tell_queues-KeepsAll user [] d h = known-KeepsAll d h
tell_queues-KeepsAll user (q ∷ qs) d h =
    bind-KeepsAll (tell_queue user q d) _ (tell_queue-KeepsAll user q d h)
      λ d' h'. tell_queues-KeepsAll user qs d' h'

-- A queue that may have been made is counted.
abbrev pub OptionCounted : Option Queue → Type 0
OptionCounted none = Unit
OptionCounted (some q) = IsCounted q

abbrev pub BothCounted : Daemon × Option Queue → Type 0
BothCounted (d, o) = AllCounted d.queues × OptionCounted o

queue_of-IsCounted : (qid id1 id2 : ℕ) → IsCounted (queue_of qid id1 id2)
unfolding queue_of queue_newnode
queue_of-IsCounted qid id1 id2 = record { items_counted = refl; errors_counted = refl }

abbrev NewCounted : NewQueue → Type 0
NewCounted (taken m) = Unit
NewCounted (created q m1 m2) = IsCounted q

manager_queuenew-counted : (qid : ℕ) (m1 m2 : Manager) → NewCounted (manager_queuenew qid m1 m2)
unfolding manager_queuenew
manager_queuenew-counted qid m1 m2 = elim (Bool-cases (m1.qid == 0)) [
  | inl e ↦ elim (Bool-cases (m2.qid == 0)) [
    | inl f ↦ rw (e, f) (queue_of-IsCounted qid m1.id m2.id)
    | inr f ↦ rw (e, f) tt
  ]
  | inr e ↦ rw e tt
]

made_queue-counted :
    (user sid1 sid2 : ℕ) (n : NewQueue) (d : Daemon)
    → AllCounted d.queues
    → NewCounted n
    → BothCounted (made_queue user sid1 sid2 n d)
unfolding made_queue say
made_queue-counted user sid1 sid2 (taken m) d h c = (h, tt)
made_queue-counted user sid1 sid2 (created q m1 m2) d h c = ((c, h), c)

pub new_queue-counted :
    (user : ℕ) (m1 m2 : Manager) (d : Daemon)
    → AllCounted d.queues
    → BothCounted (new_queue user m1 m2 d)
unfolding new_queue
new_queue-counted user m1 m2 d h =
    made_queue-counted user m1.id m2.id (manager_queuenew d.queue_counter m1 m2) d h
      (manager_queuenew-counted d.queue_counter m1 m2)

clone_items-IsCounted : (q : Queue) (xs : List Qitem) → IsCounted q → IsCounted (clone_items q xs)
unfolding clone_items
clone_items-IsCounted q [] c = c
clone_items-IsCounted q (x ∷ xs) c =
    clone_items-IsCounted (insert_item q (queue_dupeitem x) at_last).0 xs
      (insert_item-IsCounted q (queue_dupeitem x) at_last c)

fill_queue-counted :
    (items : List Qitem) (r : Daemon × Option Queue)
    → BothCounted r
    → BothCounted (fill_queue items r)
unfolding fill_queue
fill_queue-counted items (d, none) h = h
fill_queue-counted items (d, some q) h =
    let c = clone_items-IsCounted q items h.1 in (put_queue-AllCounted _ d.queues c h.0, c)

pub queue_clone-counted :
    (lion : Lion) (user : ℕ) (q : Queue) (m1 m2 : Manager) (d : Daemon)
    → AllCounted d.queues
    → BothCounted (queue_clone lion user q m1 m2 d)
unfolding queue_clone new_manager say
queue_clone-counted lion user q m1 m2 d h =
    fill_queue-counted q.items _ (new_queue-counted user _ _ _ h)
