-- ===== src/Engine/Counting.antt =====
-- The counters of the queue under every step of a running queue: what a step does to them, as a
-- postcondition with a rule for each way that steps are put together.
pub mod Sessions
pub mod Commands
pub mod Replies
pub mod Mkd
pub mod Withuser
pub mod Events
pub mod Rules
pub mod Preparing
pub mod Transferring
pub mod Control
pub mod Steps
pub mod Grabs
pub mod Runs
pub mod Asking
use fxp_one.Prelude.{
  ℕ, zero, suc, Bool, true, false, List, [], ◌∷◌, Option, none, some, ◌≡◌, refl, ap, arith,
  if◌then◌else◌, ◌>>=◌, u32, length,
}
use fxp_one.Queue.Types.{Qitem, Queue, QueueState, Side, north, south}
use fxp_one.Queue.Accounting.{IsCounted}
use fxp_one.Session.{Session}
use fxp_one.Session.Events.{SessionEvent}
use fxp_one.Engine.World.{
  World, Manager, Notice, Call, manager, set_manager, put_session, session, set_queue, set_state,
  hurry, notify, replace_head, head_item, on_head, both_idle, when_idle, at_item, at_src, at_dst,
  at_session,
}

-- The counters of the world's queue are the lengths of its lists.
pub record IsCountedWorld (w : World) : Type 0 where
  pub counted : IsCounted w.queue

-- Wherever the step leads, the counters are right there.
pub record Keeps (o : Option World) : Type 0 where
  pub at : (v : World) → o ≡ some v → IsCountedWorld v

-- A handler of events that keeps the counters.
pub record IsKeeping (call : Call) : Type 0 where
  pub keeps :
      (side : Side) (ev : SessionEvent) (w : World) → IsCountedWorld w → Keeps (call side ev w)

-- Only the four fields matter.
pub counted_like :
    (w v : World)
    → IsCountedWorld w
    → v.queue.items ≡ w.queue.items
    → v.queue.num_items ≡ w.queue.num_items
    → v.queue.err_items ≡ w.queue.err_items
    → v.queue.num_errors ≡ w.queue.num_errors
    → IsCountedWorld v
counted_like w v c a b d e = record {
  counted = record {
    items_counted = omega (arith, c.counted.items_counted, ap length a, b);
    errors_counted = omega (arith, c.counted.errors_counted, ap length d, e);
  };
}

pub set_manager-queue :
    (side : Side) (m : Manager) (w : World) → (set_manager side m w).queue ≡ w.queue
set_manager-queue north m w = refl
set_manager-queue south m w = refl

pub set_manager-counted :
    (side : Side) (m : Manager) (w : World)
    → IsCountedWorld w
    → IsCountedWorld (set_manager side m w)
set_manager-counted north m w c = record { counted = c.counted }
set_manager-counted south m w c = record { counted = c.counted }

pub put_session-counted :
    (side : Side) (s : Session) (w : World)
    → IsCountedWorld w
    → IsCountedWorld (put_session side s w)
put_session-counted side s w c = set_manager-counted side _ w c

pub counted_if :
    (b : Bool) (u v : World)
    → IsCountedWorld u
    → IsCountedWorld v
    → IsCountedWorld (if b then u else v)
counted_if true u v a c = a
counted_if false u v a c = c

pub Keeps-some : (w : World) → IsCountedWorld w → Keeps (some w)
Keeps-some w c = record { at = λ v e. ground (arith, c) }

pub Keeps-known : (o : Option World) (u : World) → o ≡ some u → IsCountedWorld u → Keeps o
Keeps-known o u e c = record { at = λ v f. ground (arith, e, c) }

pub Keeps-none : Keeps none
Keeps-none = record { at = λ v e. absurd (ground arith) }

pub Keeps-bind :
    (o : Option World) (f : World → Option World)
    → Keeps o
    → ((w : World) → IsCountedWorld w → Keeps (f w))
    → Keeps (o >>= f)
Keeps-bind none f k next = k
Keeps-bind (some w) f k next = next w (k.at w refl)

pub Keeps-if : (b : Bool) (x y : Option World) → Keeps x → Keeps y → Keeps (if b then x else y)
Keeps-if true x y a b = a
Keeps-if false x y a b = b

pub Keeps-when_idle :
    (w : World) (k : Option World) → IsCountedWorld w → Keeps k → Keeps (when_idle w k)
Keeps-when_idle w k c a = Keeps-if (both_idle w) k (some w) a (Keeps-some w c)

pub Keeps-at_item :
    (w : World) (k : Qitem → Option World) → ((x : Qitem) → Keeps (k x)) → Keeps (at_item w k)
Keeps-at_item w k a = by_item (head_item w.queue.items)
  where
    by_item : (o : Option Qitem) → Keeps (elim o [ none ↦ none | some x ↦ k x ])
    by_item none = Keeps-none
    by_item (some x) = a x

pub Keeps-at_src :
    (w : World) (k : Side → Option World) → ((side : Side) → Keeps (k side)) → Keeps (at_src w k)
Keeps-at_src w k a = by_side w.queue.src_mgr
  where
    by_side : (o : Option Side) → Keeps (elim o [ none ↦ none | some side ↦ k side ])
    by_side none = Keeps-none
    by_side (some side) = a side

pub Keeps-at_dst :
    (w : World) (k : Side → Option World) → ((side : Side) → Keeps (k side)) → Keeps (at_dst w k)
Keeps-at_dst w k a = by_side w.queue.dst_mgr
  where
    by_side : (o : Option Side) → Keeps (elim o [ none ↦ none | some side ↦ k side ])
    by_side none = Keeps-none
    by_side (some side) = a side

pub Keeps-at_session :
    (side : Side) (w : World) (k : Session → Option World)
    → ((s : Session) → Keeps (k s))
    → Keeps (at_session side w k)
Keeps-at_session side w k a = by_session (session side w)
  where
    by_session : (o : Option Session) → Keeps (elim o [ none ↦ none | some s ↦ k s ])
    by_session none = Keeps-none
    by_session (some s) = a s

pub Keeps-if_session :
    (side : Side) (w : World) (k : Session → Option World)
    → IsCountedWorld w
    → ((s : Session) → Keeps (k s))
    → Keeps (elim (session side w) [ none ↦ some w | some s ↦ k s ])
Keeps-if_session side w k c a = by_session (session side w)
  where
    by_session : (o : Option Session) → Keeps (elim o [ none ↦ some w | some s ↦ k s ])
    by_session none = Keeps-some w c
    by_session (some s) = a s

pub Keeps-option {ℓ} :
    {A : Type ℓ} (o : Option A) (x : Option World) (k : A → Option World)
    → Keeps x
    → ((a : A) → Keeps (k a))
    → Keeps (elim o [ none ↦ x | some a ↦ k a ])
Keeps-option none x k b a = b
Keeps-option (some y) x k b a = a y

pub Keeps-bind_any {ℓ} :
    {A : Type ℓ} (o : Option A) (k : A → Option World) → ((a : A) → Keeps (k a)) → Keeps (o >>= k)
Keeps-bind_any none k a = Keeps-none
Keeps-bind_any (some y) k a = a y

pub Keeps-users :
    (us : List (Option ℕ)) (x y : Option World)
    → Keeps x
    → Keeps y
    → Keeps (elim us [ [] ↦ x | u ∷ vs ↦ y ])
Keeps-users [] x y a b = a
Keeps-users (u ∷ us) x y a b = b

pub Keeps-on_head : (f : Qitem → Qitem) (w : World) → IsCountedWorld w → Keeps (on_head f w)
Keeps-on_head f w c = by_items w.queue.items refl
  where
    headed :
        (x : Qitem) (xs : List Qitem)
        → w.queue.items ≡ x ∷ xs
        → IsCountedWorld (set_queue (record w.queue { items = f x ∷ xs }) w)
    headed x xs e = record {
      counted = record {
        items_counted = omega (arith, c.counted.items_counted, ap length e);
        errors_counted = c.counted.errors_counted;
      };
    }

    by_items : (is : List Qitem) → w.queue.items ≡ is → Keeps (on_head f w)
    by_items [] e = rw e Keeps-none
    by_items (x ∷ xs) e = rw e (Keeps-some _ (headed x xs e))

pub ruleset keeps_rules = (
  Keeps-some, Keeps-none, Keeps-bind, Keeps-if, Keeps-when_idle, Keeps-at_item, Keeps-at_src,
  Keeps-at_dst, Keeps-at_session, Keeps-if_session, Keeps-on_head, put_session-counted,
  set_manager-counted, counted_like,
)
