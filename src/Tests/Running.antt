-- ===== src/Tests/Running.antt =====
-- The theorems on a running queue and its sessions.
use fxp_one.Prelude.{
  true, false, List, [], ◌∷◌, none, some, codes, ◌≡◌, refl, Perm, ◌<◌, ◌≤◌, pos, inl, Bool, ◌↔◌,
  ◌>>=◌, case_eq, arith,
}
use fxp_one.Site.{yna_yes, yna_no, str2yna, sites_find_extra}
use fxp_one.Queue.Insert.{insert_item, place}
use fxp_one.Queue.Types.{
  queue_start, Qitem, north, south, blank_item, queue_newnode, phase_3_start, phase_6_start,
  queue_requeue_item, queue_error_item, queue_remove_item, queue_item_failed, queue_start,
}
use fxp_one.Queue.Accounting.{IsCounted}
use fxp_one.Session.Events.{phase_1_dst_mkd, ev_cmd}
use fxp_one.Session.{Session, session_isidle, session_feat}
use fxp_one.Engine.World.{notify, qc_move, World, set_queue, hurry, both_idle}
use fxp_one.Engine.Process.{
  dispatch, decide_resume, queue_process, process_item_failed, process_requeue_item,
  process_error_item, queue_go, process_phase_2_start, process_phase_2_wait,
  process_phase_2_disable, insists, wants_no_tls, may_miss_session,
}
use fxp_one.Engine.Outcomes.{once_more, process_item_failed-outcome}
use fxp_one.Engine.Counting.Runs.{here, onward, went, Reach-IsCounted}
use fxp_one.Engine.Depth.{deliver-depth}
use fxp_one.Engine.Handlers.{deliver}
use fxp_one.Engine.Budget.{budget, process_item_failed-budget}
use fxp_one.Engine.Resuming.{decide_resume-offsets}
use fxp_one.Engine.Lost.{queue_process-lost}
use fxp_one.Engine.Secrets.{process_phase_2_disable-insisted, process_phase_2_start-unasked}
use fxp_one.Tests.Data.{lion, site, items, queue, one, two, three, idle_session, world, call}

abbrev others : List Qitem
others = two ∷ three ∷ []

process_item_failed-outcome_example :
    let v = process_item_failed world in
    (one.soft_errors ≡ 0
      → (v.queue.state ≡ queue_requeue_item)
        × ((u : World) × (process_requeue_item v ≡ some u)
            × Perm (once_more one ∷ others) u.queue.items
            × (u.queue.err_items ≡ [])))
    × (¬ (one.soft_errors ≡ 0)
        → (v.queue.state ≡ queue_error_item)
          × ((u : World) × (process_error_item v ≡ some u)
              × (u.queue.items ≡ others)
              × (u.queue.err_items ≡ once_more one ∷ [])))
unfolding blank_item queue_newnode
process_item_failed-outcome_example =
    process_item_failed-outcome world one others refl (omega arith)

world-IsCounted : IsCounted world.queue
unfolding queue_newnode
world-IsCounted = record { items_counted = refl; errors_counted = refl }

-- The northern session is gone.
abbrev alone : World
alone = record world { north_mgr = record world.north_mgr { session = none } }

decide_resume-offsets_example :
    let (st, y) = decide_resume true one in
    (st ≡ queue_remove_item ↔ (0 < one.dst.size) × (one.src.size ≡ one.dst.size))
    × (st ≡ queue_requeue_item ↔ (0 < 3) × (3 < 7) × (true ≡ true) × (one.flag_requeued ≡ false))
    × (0 < y.src.rest ↔ (st ≡ phase_6_start) × (0 < 3) × (3 < 7))
    × (y.src.rest ≡ y.dst.rest)
    × (0 < y.src.rest → y.src.rest ≡ 3)
    × (y.src.rest ≤ 3)
    × (y.src.rest ≤ 7)
    × (st ≡ queue_requeue_item
        → (again : Bool)
        → let (st', z) = decide_resume again y in
          (st' ≡ phase_6_start) × (z.src.rest ≡ 3) × (z.dst.rest ≡ 3))
unfolding blank_item
decide_resume-offsets_example = decide_resume-offsets true one refl refl

queue_process-lost_example :
    (u : World) × ((queue_process lion call alone >>= queue_process lion call) ≡ some u)
    × (one.soft_errors ≡ 0 → Perm (once_more one ∷ others) u.queue.items × (u.queue.err_items ≡ []))
    × (¬ (one.soft_errors ≡ 0)
        → (u.queue.items ≡ others) × (u.queue.err_items ≡ once_more one ∷ []))
unfolding may_miss_session queue_newnode blank_item
queue_process-lost_example =
    queue_process-lost lion call alone one others refl (inl refl) refl refl refl (omega arith)

abbrev told_to_stop : World
told_to_stop = record alone { queue = record alone.queue { stop = true } }

-- The southern site, the destination, insists on secure data.
abbrev insisting : World
insisting = record world {
  south_mgr = record world.south_mgr {
    site = record (site (codes "south.example")) { data_tls = yna_yes };
  };
}

process_phase_2_disable-insisted_example :
    (v : World) × (process_phase_2_disable lion call insisting ≡ some v)
    × (v.queue.state ≡ queue_item_failed)
    × (v.queue.secure_data ≡ false)
unfolding insists session_feat str2yna sites_find_extra
process_phase_2_disable-insisted_example =
    process_phase_2_disable-insisted lion call insisting north south one others refl refl refl refl
      refl refl

-- The northern site, the source, turns secure data off, and its server has CCSN.
abbrev open_session : Session
open_session = record (idle_session (codes "north.example")) {
  site = record (site (codes "north.example")) { data_tls = yna_no };
  features = record (idle_session (codes "north.example")).features { has_ccsn = true };
}

abbrev unasked : World
unasked = record insisting { north_mgr = record world.north_mgr { session = some open_session } }

process_phase_2_start-unasked_example :
    (process_phase_2_start lion call unasked >>= process_phase_2_wait lion call)
    ≡ some (
        hurry
          (set_queue (record unasked.queue { secure_data = false; state = phase_3_start }) unasked))
unfolding both_idle session_isidle session_feat wants_no_tls blank_item case_eq str2yna
    sites_find_extra
process_phase_2_start-unasked_example =
    process_phase_2_start-unasked lion call unasked north south open_session one others refl refl
      refl refl refl refl refl refl refl refl refl refl

Reach-IsCounted_example : IsCounted (queue_go 9 world).queue
Reach-IsCounted_example =
    Reach-IsCounted lion world (queue_go 9 world) (onward here (went 9)) world-IsCounted

deliver-depth_example :
    deliver lion 5 south (ev_cmd phase_1_dst_mkd (pos 257) (codes "257 made")) world
    ≡ deliver lion 2 south (ev_cmd phase_1_dst_mkd (pos 257) (codes "257 made")) world
deliver-depth_example =
    deliver-depth lion 3 south (ev_cmd phase_1_dst_mkd (pos 257) (codes "257 made")) world

-- The world after the item in front has failed once and is put back.
abbrev put_last : World
put_last = record world {
  queue = record queue {
    items = two ∷ three ∷ once_more one ∷ [];
    state = queue_start;
    src_mgr = none;
    dst_mgr = none;
  };
  nodelay = true;
  notices = (9, qc_move 2) ∷ [];
}

process_item_failed-budget_example :
    (budget put_last.queue.items < budget items) × (budget items ≤ 6)
unfolding blank_item queue_newnode process_item_failed dispatch notify process_requeue_item
    insert_item place
process_item_failed-budget_example =
    process_item_failed-budget lion call world put_last one others refl (omega arith) refl
