-- ===== src/Engine/Counting/Runs.antt =====
-- A queue that runs, as the steps that can happen to it in any order: a step of the queue's own, what
-- a server sends, an event from one of its sessions, GO, STOP, QGRAB and SUBSCRIBE, and the requests
-- on the list of items.
use fxp_one.Prelude.{ℕ, Bool, Option, some, Text, ◌≡◌}
use fxp_one.Lion.{Lion}
use fxp_one.Queue.Types.{Side, Qitem}
use fxp_one.Queue.Insert.{queue_insert}
use fxp_one.Queue.Requests.{queue_del, queue_move}
use fxp_one.Queue.Accounting.{IsCounted, requests-IsCounted}
use fxp_one.Session.Events.{SessionEvent}
use fxp_one.Engine.World.{World, set_queue}
use fxp_one.Engine.Handlers.{deliver}
use fxp_one.Engine.Process.{queue_process, queue_stop, queue_go}
use fxp_one.Queue.Subscribers.{queue_subscribe}
use fxp_one.Engine.Requests.{queue_grab}
use fxp_one.Engine.Counting.Grabs.{queue_grab-Keeps, subscribed-counted}
use fxp_one.Engine.Counting.{IsCountedWorld}
use fxp_one.Engine.Control.Machine.{Signal, session_handler}
use fxp_one.Engine.Control.Data.{DataSignal, data_handler}
use fxp_one.Engine.Counting.Control.Signals.{session_handler-Keeps, data_handler-Keeps}
use fxp_one.Engine.Counting.Events.{deliver-IsKeeping}
use fxp_one.Engine.Counting.Steps.{queue_process-Keeps, queue_stop-Keeps, queue_go-counted}

module _ (lion : Lion) where
  -- `depth` bounds how deep commands raise events while an event is handled.
  pub data Step (w : World) : World → Type 0 where
    processed :
        {v : World} (depth : ℕ) → queue_process lion (deliver lion depth) w ≡ some v → Step w v
    reported :
        {v : World} (depth : ℕ) (side : Side) (ev : SessionEvent)
        → deliver lion depth side ev w ≡ some v
        → Step w v
    told :
        {v : World} (depth : ℕ) (side : Side) (signal : Signal)
        → session_handler lion (deliver lion depth) side signal w ≡ some v
        → Step w v
    transferred :
        {v : World} (depth : ℕ) (side : Side) (signal : DataSignal)
        → data_handler lion (deliver lion depth) side signal w ≡ some v
        → Step w v
    stopped :
        {v : World} (depth user level : ℕ)
        → queue_stop lion (deliver lion depth) user level w ≡ some v
        → Step w v
    asked_for :
        {v : World} (depth user : ℕ) (subscribe : Bool)
        → queue_grab (deliver lion depth) user subscribe w ≡ some v
        → Step w v
    subscribed : (user : ℕ) → Step w (set_queue (queue_subscribe w.queue user) w)
    went : (user : ℕ) → Step w (queue_go user w)
    inserted :
        (x : Qitem) (at : Option Text) → Step w (set_queue (queue_insert lion w.queue x at).0 w)
    deleted : (at : Text) → Step w (set_queue (queue_del w.queue at).0 w)
    moved : (from to : Text) → Step w (set_queue (queue_move lion w.queue from to).0 w)

  pub data Reach (w : World) : World → Type 0 where
    here : Reach w w
    onward : {v u : World} → Reach w v → Step v u → Reach w u

  Step-counted : {w v : World} → Step w v → IsCountedWorld w → IsCountedWorld v
  Step-counted {w} {v} (processed depth e) c =
      (queue_process-Keeps lion (deliver lion depth) (deliver-IsKeeping lion depth) w c).at v e
  Step-counted {w} {v} (reported depth side ev e) c =
      ((deliver-IsKeeping lion depth).keeps side ev w c).at v e
  Step-counted {w} {v} (told depth side signal e) c =
      (session_handler-Keeps lion (deliver lion depth) (deliver-IsKeeping lion depth) side signal w
          c).at
        v e
  Step-counted {w} {v} (transferred depth side signal e) c =
      (data_handler-Keeps lion (deliver lion depth) (deliver-IsKeeping lion depth) side signal w
          c).at
        v e
  Step-counted {w} {v} (stopped depth user level e) c =
      (queue_stop-Keeps lion (deliver lion depth) (deliver-IsKeeping lion depth) user level w c).at
        v e
  Step-counted {w} {v} (asked_for depth user subscribe e) c =
      (queue_grab-Keeps (deliver lion depth) (deliver-IsKeeping lion depth) user subscribe w c).at v
        e
  Step-counted {w} (subscribed user) c = subscribed-counted w user c
  Step-counted {w} (went user) c = queue_go-counted user w c
  Step-counted {w} (inserted x at) c = record {
    counted = (requests-IsCounted lion w.queue c.counted).0 x at;
  }
  Step-counted {w} (deleted at) c = record {
    counted = (requests-IsCounted lion w.queue c.counted).2 at;
  }
  Step-counted {w} (moved from to) c = record {
    counted = (requests-IsCounted lion w.queue c.counted).3 from to;
  }

  Reach-counted : {w v : World} → Reach w v → IsCountedWorld w → IsCountedWorld v
  Reach-counted here c = c
  Reach-counted (onward r s) c = Step-counted s (Reach-counted r c)

  -- In every world that a running queue reaches, by steps of its own, what the servers send on the
  -- control and the data connections, events of its sessions, GO, STOP, QGRAB, SUBSCRIBE and requests
  -- on its items in any order, num_items and num_errors are the lengths of the two lists, if they are
  -- so at the start.
  pub Reach-IsCounted : (w v : World) → Reach w v → IsCounted w.queue → IsCounted v.queue
  Reach-IsCounted w v r c = (Reach-counted r (record { counted = c })).counted
