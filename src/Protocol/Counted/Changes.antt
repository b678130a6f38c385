-- ===== src/Protocol/Counted/Changes.antt =====
-- The counters of every queue under the requests that change lists of items.
use fxp_one.Prelude.{
  ℕ, zero, suc, Bool, [], ◌∷◌, Option, Text, codes, length, refl, arith, Bool-cases, inl, inr,
}
use fxp_one.Lion.{Lion}
use fxp_one.Site.{findkey}
use fxp_one.Queue.Types.{Qitem, Queue, is_stop}
use fxp_one.Queue.Requests.{queue_del, queue_move}
use fxp_one.Queue.Subscribers.{queue_is_subscriber, queue_subscribe, queue_unsubscribe}
use fxp_one.Queue.Accounting.{IsCounted, requests-IsCounted}
use fxp_one.Protocol.Counted.{
  AllCounted, Keeps, if-counted, put_queue-AllCounted, unlink-AllCounted, with_qid-Keeps,
  with_key-Keeps, if-Keeps, option-Keeps, bind-Keeps, changed-Keeps,
}
use fxp_one.Protocol.State.{Daemon, Keys, say}
use fxp_one.Protocol.Adding.{command2_cmd_qadd, add_from, add_typed, added, add_item, value_of}
use fxp_one.Protocol.Queues.{
  command2_cmd_qdel, command2_cmd_qmove, command2_cmd_queuefree, command2_cmd_subscribe,
  command2_cmd_unsubscribe, toggled, del_tokens, queue_freenode,
}

add_item-IsCounted :
    (lion : Lion) (keys : Keys) (src_pwd dst_pwd : Option Text) (x : Qitem) (q : Queue)
    → IsCounted q
    → IsCounted (add_item lion keys src_pwd dst_pwd x q).0
unfolding add_item
add_item-IsCounted lion keys src_pwd dst_pwd x q c = elim (Bool-cases (is_stop x.type)) [
  | inl stop ↦ rw (add_item, stop) ((requests-IsCounted lion q c).0 x (findkey keys (codes "@")))
  | inr plain ↦ rw (add_item, plain) ((requests-IsCounted lion q c).0 _ _)
]

pub unsubscribe-IsCounted :
    (user : ℕ) (q : Queue) → IsCounted q → IsCounted (queue_unsubscribe q user)
unfolding queue_unsubscribe
unsubscribe-IsCounted user q c = record {
  items_counted = c.items_counted;
  errors_counted = c.errors_counted;
}

pub subscribe-IsCounted : (user : ℕ) (q : Queue) → IsCounted q → IsCounted (queue_subscribe q user)
unfolding queue_subscribe
subscribe-IsCounted user q c = record {
  items_counted = ground (arith, c.items_counted);
  errors_counted = ground (arith, c.errors_counted);
}

module _ (lion : Lion) (user : ℕ) where
  del_tokens-Keeps :
      (n : ℕ) (at : Text) (q : Queue) (d : Daemon)
      → AllCounted d.queues
      → IsCounted q
      → Keeps (del_tokens user lion n at q d)
  unfolding del_tokens
  del_tokens-Keeps zero at q d h c = (_, refl, h)
  del_tokens-Keeps (suc n) at q d h c =
      option-Keeps (lion.digtoken (b',' ∷ 13 ∷ 10 ∷ []) at) _ (_, refl, h)
        λ p.
          let v = (requests-IsCounted lion q c).2 p.0 in
          bind-Keeps _ _ (changed-Keeps user (codes "QDEL") (queue_del q p.0) d h v)
            λ d' h'. del_tokens-Keeps n p.1 (queue_del q p.0).0 d' h' v

  module _ (d : Daemon) (h : AllCounted d.queues) where
    added-Keeps : (r : Queue × ℕ) → IsCounted r.0 → Keeps (added lion user r d)
    unfolding added say
    added-Keeps (q, n) c = (_, refl, put_queue-AllCounted q d.queues c h)

    add_typed-Keeps :
        (keys : Keys) (is_north : Bool) (q : Queue) (x : Qitem)
        → IsCounted q
        → Keeps (add_typed lion user keys is_north q x d)
    unfolding add_typed
    add_typed-Keeps keys is_north q x c = added-Keeps _ (add_item-IsCounted lion keys _ _ _ q c)

    add_from-Keeps :
        (keys : Keys) (is_north : Bool) (q : Queue)
        → IsCounted q
        → Keeps (add_from lion user keys is_north q d)
    unfolding add_from say
    add_from-Keeps keys is_north q c =
        option-Keeps (value_of keys (codes "FID")) _ (add_typed-Keeps keys is_north q _ c)
          λ fid. option-Keeps _ _ (_, refl, h) λ f. add_typed-Keeps keys is_north q _ c

    qadd-Keeps : (keys : Keys) → Keeps (command2_cmd_qadd lion user keys d)
    unfolding command2_cmd_qadd say
    qadd-Keeps keys = with_key-Keeps user d h (codes "QADD") (findkey keys (codes "QID")) _ λ qid.
        with_key-Keeps user d h (codes "QADD") (findkey keys (codes "SRC")) _ λ src.
          with_qid-Keeps user d h (codes "QADD") keys _ λ q c.
            if-Keeps _ (_, refl, h)
              (option-Keeps _ _ (_, refl, h) λ is_north. add_from-Keeps keys is_north q c)

    qmove-Keeps : (keys : Keys) → Keeps (command2_cmd_qmove user lion keys d)
    unfolding command2_cmd_qmove
    qmove-Keeps keys =
        with_key-Keeps user d h (codes "QMOVE") (findkey keys (codes "FROM")) _ λ from.
          with_key-Keeps user d h (codes "QMOVE") (findkey keys (codes "TO")) _ λ to.
            with_qid-Keeps user d h (codes "QMOVE") keys _ λ q c.
              changed-Keeps user (codes "QMOVE") (queue_move lion q from to) d h
                ((requests-IsCounted lion q c).3 from to)

    qdel-Keeps : (keys : Keys) → Keeps (command2_cmd_qdel user lion keys d)
    unfolding command2_cmd_qdel
    qdel-Keeps keys = with_key-Keeps user d h (codes "QDEL") (findkey keys (codes "@")) _ λ at.
        with_qid-Keeps user d h (codes "QDEL") keys _ λ q c. del_tokens-Keeps (length at) at q d h c

    queuefree-Keeps : (keys : Keys) → Keeps (command2_cmd_queuefree user keys d)
    unfolding command2_cmd_queuefree queue_freenode say
    queuefree-Keeps keys =
        with_qid-Keeps user d h (codes "QUEUEFREE") keys _
          λ q c. if-Keeps _ (_, refl, h) (_, refl, unlink-AllCounted q.id d.queues h)

    subscribe-Keeps : (keys : Keys) → Keeps (command2_cmd_subscribe user keys d)
    unfolding command2_cmd_subscribe toggled say
    subscribe-Keeps keys = with_qid-Keeps user d h (codes "SUBSCRIBE") keys _ λ q c.
        if-Keeps _ (_, refl, put_queue-AllCounted _ d.queues (unsubscribe-IsCounted user q c) h)
          (_, refl, put_queue-AllCounted _ d.queues (subscribe-IsCounted user q c) h)

    unsubscribe-Keeps : (keys : Keys) → Keeps (command2_cmd_unsubscribe user keys d)
    unfolding command2_cmd_unsubscribe say
    unsubscribe-Keeps keys = with_qid-Keeps user d h (codes "UNSUBSCRIBE") keys _ λ q c. (
      _,
      refl,
      (if-counted (queue_is_subscriber q user) _ _
          (put_queue-AllCounted _ d.queues (unsubscribe-IsCounted user q c) h) h),
    )

    -- Every request that changes a list of items has a result, and in it num_items and num_errors of
    -- every queue are the lengths of its two lists, if they were so before.
    pub requests-AllCounted :
        (keys : Keys)
        → Keeps (command2_cmd_qadd lion user keys d)
          × Keeps (command2_cmd_qdel user lion keys d)
          × Keeps (command2_cmd_qmove user lion keys d)
          × Keeps (command2_cmd_queuefree user keys d)
          × Keeps (command2_cmd_subscribe user keys d)
          × Keeps (command2_cmd_unsubscribe user keys d)
    requests-AllCounted keys = (
      qadd-Keeps keys,
      qdel-Keeps keys,
      qmove-Keeps keys,
      queuefree-Keeps keys,
      subscribe-Keeps keys,
      unsubscribe-Keeps keys,
    )
