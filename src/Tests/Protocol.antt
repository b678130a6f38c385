-- ===== src/Tests/Protocol.antt =====
-- The theorems on the requests of the protocol, on users and on settings.
use fxp_one.Prelude.{
  arith, true, false, [], ◌∷◌, none, some, codes, ◌≡◌, refl, get_elem?, atoi, case_eq,
}
use fxp_one.Queue.Types.{queue_newnode, blank_item}
use fxp_one.Queue.Accounting.{IsCounted}
use fxp_one.Site.{findkey}
use fxp_one.Queue.Requests.{queue_del, take_item}
use fxp_one.Queue.Insert.{insert_item}
use fxp_one.Session.{session_isidle}
use fxp_one.Engine.Commands.{session_set_handler, session_new}
use fxp_one.Engine.Process.{
  queue_process, process_item_failed, process_requeue_item, process_start, process_isconnected,
  process_start_next_item,
}
use fxp_one.Engine.World.{notify, both_idle}
use fxp_one.Engine.Handlers.{queue_lost}
use fxp_one.Engine.Control.Machine.{session_handler}
use fxp_one.Protocol.Loop.{queue_run}
use fxp_one.Engine.Managers.Registry.{manager_find_fromsid}
use fxp_one.Engine.World.{Manager}
use fxp_one.Engine.Handlers.{deliver}
use fxp_one.Users.{users_authenticate, users_setpass}
use fxp_one.Users.Laws.{users_setpass-authenticate}
use fxp_one.Protocol.State.{Daemon, Keys}
use fxp_one.Protocol.Adding.{add_item}
use fxp_one.Protocol.Placing.{add_item-keeps_active}
use fxp_one.Protocol.Ownership.{session_requests, AllRefuse, requests-refuse}
use fxp_one.Protocol.Staying.{Finds, requests-keep_managers}
use fxp_one.Protocol.Sites.{command2_cmd_sessionfree}
use fxp_one.Protocol.Counted.{AllCounted}
use fxp_one.Protocol.Table.{client_input, client_gone, command2_handler, command_cmd_auth}
use fxp_one.Parser.{parser_command}
use fxp_one.Protocol.Runs.{
  EngineEvent, client, login, server, turn, engine_run, engine_run-AllCounted,
}
use fxp_one.Engine.Control.Machine.{closed}
use fxp_one.Site.{yna_no}
use fxp_one.Prelude.{List, Option, false}
use fxp_one.Tests.Data.{
  digtoken, optchar, lion, lion-CaseCompare, site, mgr, queue, one, two, three, halt,
}

abbrev lost_mgr : Manager
lost_mgr = record (mgr 1 (codes "north.example")) { user = some 9; session = none }

abbrev daemon : Daemon
daemon = record {
  table = record { sites = site (codes "north.example") ∷ []; next_id = 2; saved = [] };
  users = (codes "admin", codes "admin") ∷ [];
  registry = record { managers = lost_mgr ∷ []; next_id = 2 };
  queues = queue ∷ [];
  queue_counter = 6;
  num_clients = 1;
  engine_running = true;
  names = λ u. codes "admin";
  closed = [];
  nodelay = false;
  server_ssl = true;
  online = λ u. true;
  store = none;
  notices = [];
}

abbrev keys : Keys
keys = (some (codes "SID"), codes "1") ∷ (some (codes "FID"), codes "3") ∷ []

requests-refuse_example :
    AllRefuse lion (deliver lion 3) 4 keys daemon (session_requests lion (deliver lion 3) 4)
unfolding atoi findkey case_eq manager_find_fromsid
requests-refuse_example =
    requests-refuse lion (deliver lion 3) 4 daemon lost_mgr keys (codes "1") refl refl refl

abbrev first_keys : Keys
first_keys = (some (codes "@"), codes "first") ∷ []

add_item-keeps_active_example :
    get_elem? (add_item lion first_keys none none halt queue).0.items 0 ≡ some halt
unfolding findkey case_eq
add_item-keeps_active_example =
    (add_item-keeps_active lion lion-CaseCompare queue one (two ∷ three ∷ []) first_keys none none
        halt refl).1
      (codes "first") refl refl refl

queue-IsCounted : IsCounted queue
unfolding queue_newnode
queue-IsCounted = record { items_counted = refl; errors_counted = refl }

users_setpass-authenticate_example :
    users_authenticate lion
      (users_setpass lion daemon.users (codes "Admin") (codes "new"))
      (codes "Admin")
      (codes "new")
    ≡ true
unfolding case_eq
users_setpass-authenticate_example =
    (users_setpass-authenticate lion lion-CaseCompare daemon.users (codes "Admin") (codes "new")).0
      refl

abbrev queued_mgr : Manager
queued_mgr = record (mgr 1 (codes "north.example")) { qid = 5 }

abbrev queued : Daemon
queued = record daemon { registry = record { managers = queued_mgr ∷ []; next_id = 2 } }

requests-keep_managers_example : Finds 1 queued_mgr (command2_cmd_sessionfree lion 4 keys queued)
unfolding manager_find_fromsid
requests-keep_managers_example =
    (requests-keep_managers lion 4 queued 1 queued_mgr refl (λ e. absurd (omega (arith, e)))
        (λ e. absurd (omega (arith, e))) (deliver lion 3)).0
      keys

-- Both managers are there, and their queue is at work.
abbrev working : Daemon
working = record daemon {
  registry = record {
    managers = mgr 1 (codes "north.example") ∷ mgr 2 (codes "south.example") ∷ [];
    next_id = 3;
  };
}

-- A user deletes an item, the northern server closes the connection, the queue takes its turn, another
-- user logs in, and the first one goes.
abbrev events : List EngineEvent
events =
    client 9 (client_input (codes "QDEL|QID=5|@=1"))
    ∷ server 1 (closed [])
    ∷ turn 5
    ∷ login yna_no false 4 []
    ∷ client 9 client_gone
    ∷ []

-- What a run that has a result leaves.
left : Option Daemon → Daemon
left none = daemon
left (some d) = d

engine_run-AllCounted_example : AllCounted (left (engine_run lion 3 events working)).queues
unfolding engine_run command2_handler parser_command digtoken optchar case_eq findkey queue_newnode
    command_cmd_auth left queue_del take_item session_handler deliver queue_run queue_lost
    queue_process process_item_failed blank_item process_requeue_item insert_item notify
    process_start process_isconnected session_set_handler session_isidle process_start_next_item
    both_idle session_new
engine_run-AllCounted_example =
    engine_run-AllCounted lion 3 events working (left (engine_run lion 3 events working))
      (queue-IsCounted, tt) refl
