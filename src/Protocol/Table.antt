-- ===== src/Protocol/Table.antt =====
-- engine/command2.c: the table of requests, command2_handler and command2_register; engine/command.c:
-- the requests of a connection that has not logged in: AUTH, SSL, HELP and QUIT.
use fxp_one.Prelude.{
  ℕ, ◌+◌, ◌-◌, ◌^◌, Bool, true, false, not, ◌&&◌, List, [], ◌∷◌, Option, none, some, Text, codes,
  ◌==◌, if◌then◌else◌, map, get_elem?, u32,
}
use fxp_one.Lion.{Lion}
use fxp_one.Site.{findkey, Yna, is_yes}
use fxp_one.Parser.{parser_command, Parsed, unparsed, overrun, calls}
use fxp_one.Users.{users_authenticate}
use fxp_one.Queue.Subscribers.{queue_unsubscribe_all}
use fxp_one.Engine.World.{Call, answered}
use fxp_one.Engine.Managers.Registry.{manager_unlink_all_user}
use fxp_one.Protocol.State.{Daemon, Keys, say, answer, managers, set_managers, with_key}
use fxp_one.Protocol.Sites.{
  command2_cmd_quit, command2_cmd_help, command2_cmd_who, command2_cmd_shutdown,
  command2_cmd_setpass, command2_cmd_siteadd, command2_cmd_sitelist, command2_cmd_sitemod,
  command2_cmd_sitedel, command2_cmd_sessionnew, command2_cmd_sessionfree,
}
use fxp_one.Protocol.Sessions.{
  command2_cmd_dirlist, command2_cmd_quote, command2_cmd_cwd, command2_cmd_pwd, command2_cmd_size,
  command2_cmd_dele, command2_cmd_mkd, command2_cmd_rmd, command2_cmd_site, command2_cmd_ren,
  command2_cmd_mdtm,
}
use fxp_one.Protocol.Adding.{command2_cmd_qadd}
use fxp_one.Protocol.Queues.{
  command2_cmd_queuenew, command2_cmd_qlist, command2_cmd_qget, command2_cmd_qerr,
  command2_cmd_qdel, command2_cmd_qmove, command2_cmd_queuefree, command2_cmd_subscribe,
  command2_cmd_unsubscribe,
}
use fxp_one.Protocol.Running.{
  command2_cmd_qgrab, command2_cmd_qcompare, command2_cmd_qclone, command2_cmd_go,
  command2_cmd_stop,
}

-- A request: its name and its function.
abbrev pub Request : Type 0
Request = Text × (Keys → Daemon → Option Daemon)

unfoldable pub run_request : Option Request → Keys → Daemon → Option Daemon
run_request none keys d = some d
run_request (some r) keys d = r.1 keys d

module _ (lion : Lion) (call : Call) (user : ℕ) where
  unfoldable pub command_authenticated_list : List Request
  unfolding command2_cmd_quit command2_cmd_help command2_cmd_who command2_cmd_shutdown
      command2_cmd_setpass command2_cmd_siteadd command2_cmd_sitelist command2_cmd_sitemod
      command2_cmd_sitedel command2_cmd_sessionnew command2_cmd_sessionfree command2_cmd_dirlist
      command2_cmd_quote command2_cmd_cwd command2_cmd_pwd command2_cmd_size command2_cmd_dele
      command2_cmd_mkd command2_cmd_rmd command2_cmd_site command2_cmd_ren command2_cmd_mdtm
      command2_cmd_qadd command2_cmd_queuenew command2_cmd_qlist command2_cmd_qget command2_cmd_qerr
      command2_cmd_qdel command2_cmd_qmove command2_cmd_queuefree command2_cmd_subscribe
      command2_cmd_unsubscribe command2_cmd_qgrab command2_cmd_qcompare command2_cmd_qclone
      command2_cmd_go command2_cmd_stop
  command_authenticated_list =
      (codes "QUIT", λ keys. command2_cmd_quit lion user)
      ∷ (codes "HELP", λ keys. command2_cmd_help lion user)
      ∷ (codes "WHO", λ keys. command2_cmd_who lion user)
      ∷ (codes "SHUTDOWN", command2_cmd_shutdown lion user)
      ∷ (codes "SETPASS", command2_cmd_setpass lion user)
      ∷ (codes "SITEADD", command2_cmd_siteadd lion user)
      ∷ (codes "SITELIST", command2_cmd_sitelist lion user)
      ∷ (codes "SITEMOD", command2_cmd_sitemod lion user)
      ∷ (codes "SITEDEL", command2_cmd_sitedel lion user)
      ∷ (codes "SESSIONNEW", command2_cmd_sessionnew lion user)
      ∷ (codes "SESSIONFREE", command2_cmd_sessionfree lion user)
      ∷ (codes "DIRLIST", command2_cmd_dirlist lion call user)
      ∷ (codes "QUEUENEW", command2_cmd_queuenew user)
      ∷ (codes "QADD", command2_cmd_qadd lion user)
      ∷ (codes "QLIST", λ keys. command2_cmd_qlist user)
      ∷ (codes "QGET", command2_cmd_qget user)
      ∷ (codes "QERR", command2_cmd_qerr user)
      ∷ (codes "QGRAB", command2_cmd_qgrab lion call user)
      ∷ (codes "QDEL", command2_cmd_qdel user lion)
      ∷ (codes "QMOVE", command2_cmd_qmove user lion)
      ∷ (codes "QCOMPARE", command2_cmd_qcompare lion call user)
      ∷ (codes "QUEUEFREE", command2_cmd_queuefree user)
      ∷ (codes "QCLONE", command2_cmd_qclone lion call user)
      ∷ (codes "GO", command2_cmd_go lion call user)
      ∷ (codes "STOP", command2_cmd_stop lion call user)
      ∷ (codes "CWD", command2_cmd_cwd lion call user)
      ∷ (codes "PWD", command2_cmd_pwd lion call user)
      ∷ (codes "SIZE", command2_cmd_size lion call user)
      ∷ (codes "DELE", command2_cmd_dele lion call user)
      ∷ (codes "MKD", command2_cmd_mkd lion call user)
      ∷ (codes "RMD", command2_cmd_rmd lion call user)
      ∷ (codes "SITE", command2_cmd_site lion call user)
      ∷ (codes "REN", command2_cmd_ren lion call user)
      ∷ (codes "MDTM", command2_cmd_mdtm lion call user)
      ∷ (codes "QUOTE", command2_cmd_quote lion call user)
      ∷ (codes "SUBSCRIBE", command2_cmd_subscribe user)
      ∷ (codes "UNSUBSCRIBE", command2_cmd_unsubscribe user)
      ∷ []

  unfoldable pub run_parsed : List Request → Parsed → Daemon → Option Daemon
  unfolding run_request
  run_parsed table unparsed d = some d
  run_parsed table overrun d = none
  run_parsed table (calls none pairs) d = some d
  run_parsed table (calls (some n) pairs) d =
      run_request (get_elem? table n) (map (λ p. (some p.0, p.1)) pairs) d

  -- LION_INPUT: a line that is no request is passed over.
  unfoldable pub input : Text → Daemon → Option Daemon
  unfolding run_parsed command_authenticated_list
  input line d =
      run_parsed command_authenticated_list
        (parser_command lion (map (λ r. r.0) command_authenticated_list) false line) d

  -- LION_CONNECTION_LOST and LION_CONNECTION_CLOSED
  unfoldable pub user_gone : Daemon → Daemon
  user_gone d = record (set_managers (manager_unlink_all_user user (managers d)) d) {
    queues = queue_unsubscribe_all d.queues user;
    num_clients = u32 (d.num_clients + (2 ^ 32 - 1));
    online = λ u. if u == user then false else d.online u;
  }

-- What the library tells of the connection of a user.
pub data ClientSignal : Type 0 where
  client_gone : ClientSignal
  client_input : Text → ClientSignal

unfoldable pub command2_handler : Lion → Call → ℕ → ClientSignal → Daemon → Option Daemon
unfolding input user_gone
command2_handler lion call user client_gone d = some (user_gone lion call user d)
command2_handler lion call user (client_input line) d = input lion call user line d

unfoldable pub command2_register : ℕ → Text → Daemon → Daemon
command2_register user name d = record d {
  names = λ u. if u == user then name else d.names u;
  online = λ u. if u == user then true else d.online u;
  num_clients = u32 (d.num_clients + 1);
}

-- settings_values.command_ssl_only, whether the connection is secured, and whether it can be
module _ (lion : Lion) (ssl_only : Yna) (user : ℕ) where
  -- The login.
  unfoldable pub command_cmd_auth : Bool → Keys → Daemon → Option Daemon
  unfolding say command2_register
  command_cmd_auth secured keys d =
      if is_yes ssl_only && not secured
      then answer user (codes "AUTH") 1503 d
      else with_key user (codes "AUTH") 1501 (findkey keys (codes "USER")) d (λ name.
        with_key user (codes "AUTH") 1501 (findkey keys (codes "PASS")) d (λ pass.
          if not (users_authenticate lion d.users name pass)
          then answer user (codes "AUTH") 1502 d
          else some (command2_register user name (say user (answered (codes "AUTH") 0 []) d))))

  unfoldable pub command_cmd_ssl : Bool → Daemon → Option Daemon
  command_cmd_ssl possible d = answer user (codes "SSL") (if possible then 0 else 1504) d

  unfoldable pub command_cmd_help : Daemon → Option Daemon
  command_cmd_help d = answer user (codes "HELP") 0 d

  unfoldable pub command_cmd_quit : Daemon → Option Daemon
  unfolding say
  command_cmd_quit d =
      some (record (say user (answered (codes "GOODBYE") 0 []) d) { closed = user ∷ d.closed })
