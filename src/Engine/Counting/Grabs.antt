-- ===== src/Engine/Counting/Grabs.antt =====
-- QGRAB keeps the counters of the queue: Engine/Requests.
use fxp_one.Prelude.{ℕ, Bool, not, arith}
use fxp_one.Queue.Types.{Side, north, south, is_idle}
use fxp_one.Queue.Subscribers.{queue_subscribe}
use fxp_one.Engine.World.{World, Call, Notice, tell, set_queue}
use fxp_one.Engine.Requests.{queue_grab, hand_over, granted}
use fxp_one.Engine.Counting.{
  IsCountedWorld, Keeps, IsKeeping, keeps_rules, Keeps-if, Keeps-bind, Keeps-some, counted_if,
}
use fxp_one.Engine.Counting.Sessions.{session_set_handler-Keeps}

pub subscribed-counted :
    (w : World) (user : ℕ)
    → IsCountedWorld w
    → IsCountedWorld (set_queue (queue_subscribe w.queue user) w)
unfolding queue_subscribe
subscribed-counted w user c = record { counted = ground (arith, c.counted) }

tell-counted :
    (user : ℕ) (n : Notice) (w : World) → IsCountedWorld w → IsCountedWorld (tell user n w)
tell-counted user n w c = record { counted = c.counted }

granted-counted : (user : ℕ) (w : World) → IsCountedWorld w → IsCountedWorld (granted user w)
unfolding granted
granted-counted user w c = record { counted = c.counted }

module _ (call : Call) (good : IsKeeping call) where
  hand_over-Keeps : (side : Side) (w : World) → IsCountedWorld w → Keeps (hand_over call side w)
  unfolding hand_over
  hand_over-Keeps side w c = search (keeps_rules, session_set_handler-Keeps)

  pub queue_grab-Keeps :
      (user : ℕ) (subscribe : Bool) (w : World)
      → IsCountedWorld w
      → Keeps (queue_grab call user subscribe w)
  unfolding queue_grab
  queue_grab-Keeps user subscribe w c =
      Keeps-if (not (is_idle w.queue.state)) _ _
        (Keeps-some _
          (tell-counted user _ _ (counted_if subscribe _ w (subscribed-counted w user c) c)))
        (Keeps-bind _ _ (hand_over-Keeps north (granted user w) (granted-counted user w c))
          (hand_over-Keeps south))
