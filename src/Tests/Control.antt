-- ===== src/Tests/Control.antt =====
-- The theorems on what the servers send, on listings and on managers.
use fxp_one.Prelude.{
  false, not, List, [], ◌∷◌, ◌++◌, none, some, Text, codes, ◌≡◌, refl, get_elem?, map, pos, atoi,
  ◌==◌, ◌&&◌, if◌then◌else◌, arith, case_eq, text_eq, strtoull,
}
use fxp_one.Site.{yna_yes}
use fxp_one.File.{File}
use fxp_one.File.Listing.{file_parse, session_parse, session_getfid}
use fxp_one.File.Listing.Laws.{IsEntry, file_parse-IsEntry, session_parse-numbered}
use fxp_one.Queue.Types.{north}
use fxp_one.Session.Events.{st_await_220, st_data_transfer, ev_idle}
use fxp_one.Session.{Session, no_flags, handler_queue}
use fxp_one.Engine.World.{World, put_session}
use fxp_one.Engine.Handlers.{deliver}
use fxp_one.Engine.Control.Moves.{code}
use fxp_one.Engine.Control.Laws.{listing_sent, session_input-multi_line}
use fxp_one.Engine.Control.Dialogue.{asked_ssl, idled, session_cmdq_reply-ssl}
use fxp_one.Engine.Control.Insisting.{HoldsBack}
use fxp_one.Engine.Control.Insisting.Challenge.{session_state_process-insists}
use fxp_one.Engine.Control.Machine.{
  session_state_process, session_cmdq_reply, session_input, is_reply_line,
}
use fxp_one.Engine.Managers.Registry.{manager_find_fromsid, manager_new, Registry, UserFlags}
use fxp_one.Engine.Managers.Registry.Laws.{manager_new-fresh}
use fxp_one.Parser.{parser_keypairs, split_pair, pair_end}
use fxp_one.Parser.Laws.{parser_keypairs-bounds}
use fxp_one.Site.{findkey}
use fxp_one.Site.Keys
use fxp_one.Site.Keys.{sites_newnode, sites_parsekeys, assign_key, f_name, f_host, f_user, f_pass}
use fxp_one.Site.Keys.Laws.{any_pair, lacks_value, gives, sites_parsekeys-required}
use fxp_one.Site.Keys.Extras.{assign_key-find}
use fxp_one.Tests.Data.{lion, site, idle_session, mgr, world, file, digtoken}

abbrev listing_line : Text
listing_line = codes "-rw-r--r--   1  ftp      ftp   5 Nov 10 11:42 Return"

abbrev listed_file : File
listed_file = record (file (codes "Return") 5) {
  fid = 0;
  user = some (codes "ftp");
  group = some (codes "ftp");
  perm = codes "-rw-r--r--";
}

listing_line-parses : file_parse lion listing_line false ≡ some listed_file
unfolding file_parse digtoken case_eq text_eq strtoull
listing_line-parses = refl

file_parse-IsEntry_example : IsEntry listed_file
file_parse-IsEntry_example =
    file_parse-IsEntry lion listing_line false listed_file listing_line-parses

session_parse-numbered_example :
    session_getfid (session_parse lion [] none false listing_line) 1
    ≡ get_elem? (session_parse lion [] none false listing_line) 0
session_parse-numbered_example =
    (session_parse-numbered lion [] none false listing_line tt (omega arith)).2 0

-- A world with a given session on its north side.
abbrev world_with : Session → World
world_with s = put_session north s world

abbrev base : Session
base = idle_session (codes "north.example")

abbrev list_cmd : Text
list_cmd = codes "LIST -lL"

session_input-multi_line_example :
    session_input lion
      (deliver lion 3)
      north
      (codes "226-Options")
      (world_with (listing_sent base list_cmd no_flags))
    ≡ some (
        put_session north
          (record (listing_sent base list_cmd no_flags) { state = st_data_transfer })
          (world_with (listing_sent base list_cmd no_flags)))
unfolding is_reply_line atoi
session_input-multi_line_example =
    (session_input-multi_line lion (deliver lion 3) north base list_cmd no_flags
      (codes "226-Options") (codes "226 Done") (world_with (listing_sent base list_cmd no_flags))
      refl refl refl refl).0

session_cmdq_reply-ssl_example :
    session_cmdq_reply lion
      (deliver lion 3)
      north
      234
      (codes "234 AUTH SSL successful")
      (world_with (asked_ssl base handler_queue (codes "AUTH SSL")))
    ≡ deliver lion 3 north ev_idle (
        put_session north
          (idled base handler_queue (codes "AUTH SSL"))
          (world_with (asked_ssl base handler_queue (codes "AUTH SSL"))))
session_cmdq_reply-ssl_example =
    (session_cmdq_reply-ssl lion (deliver lion 3) north base handler_queue (codes "AUTH SSL")
      (codes "234 AUTH SSL successful")
      (world_with (asked_ssl base handler_queue (codes "AUTH SSL"))) refl).0

abbrev insisting : Session
insisting = record base {
  site = record (site (codes "north.example")) { control_tls = yna_yes };
  status = record base.status { on_ssl = false };
  state = st_await_220;
}

session_state_process-insists_example : HoldsBack (deliver lion 3) north (world_with insisting) (
    session_state_process lion
      (deliver lion 3)
      north
      (code (pos 220))
      (some (codes "220 Hello"))
      (world_with insisting))
session_state_process-insists_example =
    session_state_process-insists lion (deliver lion 3) north insisting (code (pos 220))
      (some (codes "220 Hello")) (world_with insisting) refl refl refl refl refl

abbrev plain_flags : UserFlags
plain_flags = record { wants_log = false; rnfr_ok = false }

abbrev registry : Registry
registry = record { managers = mgr 1 (codes "n") ∷ []; next_id = 2 }

manager_new-fresh_example :
    manager_find_fromsid
      (manager_new lion false (some 9) (site (codes "s")) plain_flags registry).0.managers
      1
    ≡ some (mgr 1 (codes "n"))
unfolding manager_find_fromsid
manager_new-fresh_example =
    (manager_new-fresh lion false (some 9) (site (codes "s")) plain_flags registry (omega arith, tt)
        (omega arith)).1
      1 (mgr 1 (codes "n")) refl

abbrev pairs : List Keys.Pair
pairs =
    (some (codes "Name"), some (codes "home"))
    ∷ (some (codes "HOST"), some (codes "home.example"))
    ∷ (some (codes "user"), some (codes "me"))
    ∷ (some (codes "pass"), some (codes "secret"))
    ∷ []

sites_parsekeys-required_example : ((sites_parsekeys lion pairs sites_newnode).0 == 0) ≡ (
    not (any_pair lacks_value pairs)
    && (any_pair (gives f_name) pairs
        && (any_pair (gives f_host) pairs
            && (any_pair (gives f_user) pairs && any_pair (gives f_pass) pairs))))
sites_parsekeys-required_example = sites_parsekeys-required lion pairs sites_newnode

assign_key-find_example :
    findkey
      (assign_key ((some (codes "LISTARGS"), codes "-a") ∷ []) (codes "listargs") (codes "-l"))
      (codes "ListArgs")
    ≡ (if case_eq (codes "ListArgs") (codes "listargs")
        then some (codes "-l")
        else findkey ((some (codes "LISTARGS"), codes "-a") ∷ []) (codes "ListArgs"))
assign_key-find_example =
    assign_key-find ((some (codes "LISTARGS"), codes "-a") ∷ []) (codes "listargs") (codes "-l")
      (codes "ListArgs")

parser_keypairs-bounds_example :
    parser_keypairs lion (codes "SAY") (codes "FROM=jim|MSG=hello")
    ≡ some (
        map (split_pair lion) (codes "FROM=jim" ∷ codes "MSG=hello" ∷ [])
        ++ (codes "type", codes "SAY") ∷ [])
unfolding digtoken pair_end
parser_keypairs-bounds_example =
    (parser_keypairs-bounds lion (codes "SAY") (codes "FROM=jim|MSG=hello")).0
      (codes "FROM=jim" ∷ codes "MSG=hello" ∷ []) (codes "MSG=hello", refl, ([], refl, refl))
      (omega arith)
