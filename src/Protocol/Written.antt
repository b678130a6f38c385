-- ===== src/Protocol/Written.antt =====
-- The counters of every queue where the world of one queue is written back.
use mathlib.Core.Path.{subst}
use fxp_one.Prelude.{Option, none, some, ◌≡◌, refl, ◌>>=◌, arith}
use fxp_one.File.Listing.Laws.{some-inj}
use fxp_one.Queue.Types.{Queue}
use fxp_one.Queue.Accounting.{IsCounted}
use fxp_one.Engine.World.{World, Manager}
use fxp_one.Engine.Counting.{IsCountedWorld, Keeps}
use fxp_one.Protocol.State.{Daemon, world_of, put_back, take_world}
use fxp_one.Protocol.Counted.{AllCounted, put_queue-AllCounted}

-- A result, if there is one, has every queue counted.
pub record KeepsAll (o : Option Daemon) : Type 0 where
  pub at : (d : Daemon) → o ≡ some d → AllCounted d.queues

pub known-KeepsAll : (d : Daemon) → AllCounted d.queues → KeepsAll (some d)
known-KeepsAll d h = record { at = λ v e. subst (λ u. AllCounted u.queues) (some-inj e) h }

pub none-KeepsAll : KeepsAll none
none-KeepsAll = record { at = λ v e. absurd (ground (arith, e)) }

pub bind-KeepsAll :
    (o : Option Daemon) (f : Daemon → Option Daemon)
    → KeepsAll o
    → ((d : Daemon) → AllCounted d.queues → KeepsAll (f d))
    → KeepsAll (o >>= f)
bind-KeepsAll none f h k = h
bind-KeepsAll (some d) f h k = k d (h.at d refl)

-- The world of a queue is counted, and its queue goes back counted.
pub written-KeepsAll :
    (d : Daemon) (o : Option World)
    → AllCounted d.queues
    → Keeps o
    → KeepsAll (o >>= (λ w. some (put_back w d)))
unfolding put_back take_world
written-KeepsAll d none h k = none-KeepsAll
written-KeepsAll d (some w) h k =
    known-KeepsAll _ (put_queue-AllCounted w.queue d.queues (k.at w refl).counted h)

pub on_managers-KeepsAll :
    (d : Daemon) (q : Queue) (op : World → Option World) (o : Option (Manager × Manager))
    → AllCounted d.queues
    → IsCounted q
    → ((w : World) → IsCountedWorld w → Keeps (op w))
    → KeepsAll (o >>= (λ m. op (world_of d q m.0 m.1) >>= (λ w. some (put_back w d))))
unfolding world_of
on_managers-KeepsAll d q op none h c k = none-KeepsAll
on_managers-KeepsAll d q op (some (m1, m2)) h c k =
    written-KeepsAll d (op (world_of d q m1 m2)) h (k (world_of d q m1 m2) (record { counted = c }))
