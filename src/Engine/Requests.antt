-- ===== src/Engine/Requests.antt =====
-- engine/queue.c: queue_grab and queue_compare; engine/manager.c: manager_set_user. Of the line that
-- answers QGRAB the values are kept.
use fxp_one.Prelude.{ℕ, Bool, false, not, List, [], ◌∷◌, Option, none, some, if◌then◌else◌, ◌>>=◌}
use fxp_one.Lion.{Lion}
use fxp_one.File.{File}
use fxp_one.Queue.Types.{Side, north, south, is_idle}
use fxp_one.Queue.Subscribers.{queue_subscribe}
use fxp_one.Queue.Think.{compare_fids}
use fxp_one.Session.{Session, handler_withuser}
use fxp_one.Engine.World.{
  World, Call, Manager, Notice, grab_refused, grabbed, manager, session, set_queue, tell,
}
use fxp_one.Engine.Commands.{session_set_handler}

unfoldable pub manager_set_user : Manager → ℕ → Manager
manager_set_user m user = record m { user = some user; connected = false }

-- The answer that names both sites and their sessions.
abbrev grab_answer : World → Notice
grab_answer w =
    grabbed w.queue.id w.queue.num_items w.north_mgr.site w.south_mgr.site w.queue.north_sid
      w.queue.south_sid

abbrev take_both : ℕ → World → World
take_both user w = record w {
  north_mgr = manager_set_user w.north_mgr user;
  south_mgr = manager_set_user w.south_mgr user;
}

unfoldable pub granted : ℕ → World → World
unfolding manager_set_user
granted user w = let v = take_both user w in tell user (grab_answer v) v

module _ (call : Call) where
  unfoldable pub hand_over : Side → World → Option World
  hand_over side w = elim (session side w) [
    | none ↦ some w
    | some s ↦ session_set_handler call side (some handler_withuser) w
  ]

  -- A queue at work is not given away, but can be subscribed to.
  unfoldable pub queue_grab : ℕ → Bool → World → Option World
  unfolding hand_over
  queue_grab user subscribe w =
      if not (is_idle w.queue.state)
      then some (
          tell user (grab_refused w.queue.id subscribe)
            (if subscribe then set_queue (queue_subscribe w.queue user) w else w))
      else do w ← hand_over north (granted user w); hand_over south w

module _ (lion : Lion) where
  abbrev listed : Side → List File → World → Session → List ℕ
  listed dst fs w d =
      compare_fids lion (manager dst w).site (manager dst w).is_dmovefirst d.files d.pwd fs

  -- A side with no files is not compared; the other side's session is followed to its path.
  compare_files : Side → List File → World → Option (List ℕ)
  compare_files dst [] w = some []
  compare_files dst (f ∷ fs) w = elim (session dst w) [
    | none ↦ none
    | some d ↦ some (listed dst (f ∷ fs) w d)
  ]

  unfoldable pub compare_side : Side → Side → World → Option (List ℕ)
  unfolding compare_files
  compare_side src dst w = elim (session src w) [
    | none ↦ some []
    | some s ↦ compare_files dst s.files w
  ]

  -- The ids to highlight on either side.
  unfoldable pub queue_compare : World → Option (List ℕ × List ℕ)
  unfolding compare_side
  queue_compare w = do
    north_fids ← compare_side north south w
    south_fids ← compare_side south north w
    some (north_fids, south_fids)
