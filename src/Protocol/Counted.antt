-- ===== src/Protocol/Counted.antt =====
-- Lemmas on the counters of every queue that the requests on lists of items share.
pub mod Changes
use mathlib.Core.Path.{subst}
use fxp_one.Prelude.{
  ℕ, zero, suc, Bool, true, false, List, [], ◌∷◌, Option, none, some, Text, codes, atoi, length,
  ◌≡◌, refl, arith, ◌==◌, if◌then◌else◌, Bool-cases, Option-cases, inl, inr, ◌>>=◌, sym,
}
use fxp_one.Lion.{Lion}
use fxp_one.Site.{findkey}
use fxp_one.File.Listing.Laws.{some-inj}
use fxp_one.Queue.Types.{Qitem, Queue, Reply, is_stop}
use fxp_one.Queue.Requests.{queue_del, queue_move}
use fxp_one.Queue.Subscribers.{queue_is_subscriber, queue_subscribe, queue_unsubscribe}
use fxp_one.Queue.Accounting.{IsCounted, requests-IsCounted}
use fxp_one.Protocol.State.{Daemon, Keys, answer, say, queue_findbyqid, put_queue, with_qid}
use fxp_one.Protocol.Adding.{command2_cmd_qadd, add_from, add_typed, added, add_item, value_of}
use fxp_one.Protocol.Queues.{
  command2_cmd_qdel, command2_cmd_qmove, command2_cmd_queuefree, command2_cmd_subscribe,
  command2_cmd_unsubscribe, changed, toggled, del_tokens, queue_freenode, queue_unlink,
}

-- Every queue is counted.
abbrev pub AllCounted : List Queue → Type 0
AllCounted [] = Unit
AllCounted (q ∷ qs) = IsCounted q × AllCounted qs

-- There is a result, and every queue is counted in it.
abbrev pub Keeps : Option Daemon → Type 0
Keeps o = (d : Daemon) × (o ≡ some d) × AllCounted d.queues

pub put_queue-AllCounted :
    (q : Queue) (qs : List Queue) → IsCounted q → AllCounted qs → AllCounted (put_queue q qs)
unfolding put_queue
put_queue-AllCounted q [] c h = h
put_queue-AllCounted q (x ∷ xs) c h = elim (Bool-cases (x.id == q.id)) [
  | inl same ↦ rw same (c, h.1)
  | inr other ↦ rw other (h.0, put_queue-AllCounted q xs c h.1)
]

pub unlink-AllCounted :
    (qid : ℕ) (qs : List Queue) → AllCounted qs → AllCounted (queue_unlink qid qs)
unfolding queue_unlink
unlink-AllCounted qid [] h = h
unlink-AllCounted qid (x ∷ xs) h = elim (Bool-cases (x.id == qid)) [
  | inl same ↦ rw same h.1
  | inr other ↦ rw other (h.0, unlink-AllCounted qid xs h.1)
]

pub found-IsCounted :
    (qs : List Queue) (qid : ℕ) (q : Queue)
    → AllCounted qs
    → queue_findbyqid qs qid ≡ some q
    → IsCounted q
unfolding queue_findbyqid
found-IsCounted [] qid q h e = absurd (ground (arith, e))
found-IsCounted (x ∷ xs) qid q h e = elim (Bool-cases (x.id == qid)) [
  | inl same ↦ record {
    items_counted = ground (arith, h.0.items_counted, same, e);
    errors_counted = ground (arith, h.0.errors_counted, same, e);
  }
  | inr other ↦ found-IsCounted xs qid q h.1 (ground (arith, other, e))
]

module _ (user : ℕ) (d : Daemon) (h : AllCounted d.queues) where
  pub with_qid-Keeps :
      (request : Text) (keys : Keys) (k : Queue → Option Daemon)
      → ((q : Queue) → IsCounted q → Keeps (k q))
      → Keeps (with_qid user request keys d k)
  unfolding with_qid say
  with_qid-Keeps request keys k f = elim (Option-cases (findkey keys (codes "QID"))) [
    | inl e ↦ rw (with_qid, e) (_, refl, h)
    | inr (qid, e) ↦ elim (Option-cases (queue_findbyqid d.queues (atoi qid))) [
      | inl e' ↦ rw (with_qid, e, e') (_, refl, h)
      | inr (q, e') ↦ rw (with_qid, e, e') (f q (found-IsCounted d.queues (atoi qid) q h e'))
    ]
  ]

  pub with_key-Keeps :
      (request : Text) (value : Option Text) (k : Text → Option Daemon)
      → ((v : Text) → Keeps (k v))
      → Keeps (elim value [ none ↦ answer user request 1501 d | some v ↦ k v ])
  unfolding say
  with_key-Keeps request none k f = (_, refl, h)
  with_key-Keeps request (some v) k f = f v

-- A queue that is counted takes the place of the one with its id.
pub if-Keeps : (b : Bool) {x y : Option Daemon} → Keeps x → Keeps y → Keeps (if b then x else y)
if-Keeps true p q = p
if-Keeps false p q = q

pub option-Keeps {ℓ} :
    {A : Type ℓ} (o : Option A) {x : Option Daemon} (f : A → Option Daemon)
    → Keeps x
    → ((a : A) → Keeps (f a))
    → Keeps (elim o [ none ↦ x | some a ↦ f a ])
option-Keeps none f p q = p
option-Keeps (some a) f p q = q a

pub bind-Keeps :
    (o : Option Daemon) (f : Daemon → Option Daemon)
    → Keeps o
    → ((d : Daemon) → AllCounted d.queues → Keeps (f d))
    → Keeps (o >>= f)
bind-Keeps none f (d, e, h) g = absurd (ground (arith, e))
bind-Keeps (some x) f (d, e, h) g = g x (subst (λ v. AllCounted v.queues) (sym (some-inj e)) h)

pub changed-Keeps :
    (user : ℕ) (request : Text) (c : Queue × Reply) (d : Daemon)
    → AllCounted d.queues
    → IsCounted c.0
    → Keeps (changed user request c d)
unfolding changed say
changed-Keeps user request (q, reply) d h c = (_, refl, put_queue-AllCounted q d.queues c h)

pub if-counted :
    (b : Bool) (x y : Daemon)
    → AllCounted x.queues
    → AllCounted y.queues
    → AllCounted (if b then x else y).queues
if-counted true x y p q = p
if-counted false x y p q = q
