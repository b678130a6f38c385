-- ===== src/Protocol/Dispatch.antt =====
-- The counters of every queue under a line of a user, whatever request it names.
use mathlib.Core.Path.{subst}
use fxp_one.Prelude.{
  sym, ℕ, zero, suc, Bool, false, List, [], ◌∷◌, Option, none, some, codes, ◌==◌, get_elem?, map,
}
use fxp_one.Lion.{Lion}
use fxp_one.Parser.{Parsed, unparsed, overrun, calls, parser_command}
use fxp_one.Site.{Site, findkey}
use fxp_one.Queue.Types.{Queue}
use fxp_one.Queue.Subscribers.{queue_unsubscribe_all}
use fxp_one.Engine.Handlers.{deliver}
use fxp_one.Protocol.State.{Daemon, Keys, say}
use fxp_one.Protocol.Sites.{
  command2_cmd_quit, command2_cmd_help, command2_cmd_who, command2_cmd_sitelist, sites_listentries,
  list_entries, list_one, site_number,
}
use fxp_one.Protocol.Table.{
  Request, command_authenticated_list, run_request, run_parsed, input, user_gone, ClientSignal,
  client_gone, client_input, command2_handler,
}
use fxp_one.Protocol.Counted.{AllCounted, Keeps, if-counted}
use fxp_one.Protocol.Counted.Changes.{requests-AllCounted, unsubscribe-IsCounted}
use fxp_one.Protocol.Written.{KeepsAll, known-KeepsAll, none-KeepsAll}
use fxp_one.Protocol.Working.{
  qlist-KeepsAll, qget-KeepsAll, qerr-KeepsAll, queuenew-KeepsAll, qgrab-KeepsAll, stop-KeepsAll,
  qcompare-KeepsAll, go-KeepsAll, qclone-KeepsAll,
}
use fxp_one.Protocol.Asking.{AllKeep, session_requests-AllKeep}
use fxp_one.Protocol.Bystanders.{bystanders-KeepAll}
use fxp_one.File.Listing.Laws.{some-inj}

list_entries-counted :
    (user : ℕ) (short : Bool) (ss : List Site) (d : Daemon)
    → AllCounted d.queues
    → AllCounted (list_entries user short ss d).queues
unfolding list_entries say
list_entries-counted user short [] d h = h
list_entries-counted user short (s ∷ ss) d h =
    list_entries-counted user short ss _ (if-counted _ _ _ h h)

list_one-counted :
    (user : ℕ) (o : Option Site) (d : Daemon)
    → AllCounted d.queues
    → AllCounted (list_one user o d).queues
unfolding list_one say
list_one-counted user none d h = h
list_one-counted user (some s) d h = h

unsubscribe_all-AllCounted :
    (user : ℕ) (qs : List Queue) → AllCounted qs → AllCounted (queue_unsubscribe_all qs user)
unfolding queue_unsubscribe_all
unsubscribe_all-AllCounted user [] h = h
unsubscribe_all-AllCounted user (q ∷ qs) h =
    (unsubscribe-IsCounted user q h.0, unsubscribe_all-AllCounted user qs h.1)

Keeps-KeepsAll : (o : Option Daemon) → Keeps o → KeepsAll o
Keeps-KeepsAll none (d, e, h) = none-KeepsAll
Keeps-KeepsAll (some x) (d, e, h) =
    known-KeepsAll x (subst (λ v. AllCounted v.queues) (sym (some-inj e)) h)

infixr 4 ◌&◌
abbrev ◌&◌ {ℓ κ} : {A : Type ℓ} {B : Type κ} → A → B → A × B
a & b = (a, b)

-- One of the requests.
run_request-KeepsAll :
    (keys : Keys) (d : Daemon) (table : List Request) (n : ℕ)
    → AllCounted d.queues
    → AllKeep keys d table
    → KeepsAll (run_request (get_elem? table n) keys d)
unfolding run_request
run_request-KeepsAll keys d [] n h k = known-KeepsAll d h
run_request-KeepsAll keys d (r ∷ rs) zero h k = k.0
run_request-KeepsAll keys d (r ∷ rs) (suc n) h k = run_request-KeepsAll keys d rs n h k.1

module _ (lion : Lion) (depth user : ℕ) (d : Daemon) (h : AllCounted d.queues) where
  sitelist-KeepsAll : (keys : Keys) → KeepsAll (command2_cmd_sitelist lion user keys d)
  unfolding command2_cmd_sitelist sites_listentries say
  sitelist-KeepsAll keys = known-KeepsAll _ (
      if-counted (site_number (findkey keys (codes "SITEID")) == 0) _ _
        (list_entries-counted user _ d.table.sites _ h) (list_one-counted user _ _ h))

  table-AllKeep :
      (keys : Keys) → AllKeep keys d (command_authenticated_list lion (deliver lion depth) user)
  unfolding command_authenticated_list command2_cmd_quit command2_cmd_help command2_cmd_who say
  table-AllKeep keys =
      let asked = session_requests-AllKeep lion depth user d h keys in
      let others = bystanders-KeepAll lion user d h keys in
      let listed = requests-AllCounted lion user d h keys in
      known-KeepsAll _ h
      & known-KeepsAll _ h
      & known-KeepsAll _ h
      & others.0
      & others.1
      & others.2
      & sitelist-KeepsAll keys
      & others.3
      & others.4
      & others.5
      & others.6
      & asked.0
      & queuenew-KeepsAll d h user keys
      & Keeps-KeepsAll _ listed.0
      & qlist-KeepsAll d h user keys
      & qget-KeepsAll d h user keys
      & qerr-KeepsAll d h user keys
      & qgrab-KeepsAll d h user keys lion depth
      & Keeps-KeepsAll _ listed.1
      & Keeps-KeepsAll _ listed.2
      & qcompare-KeepsAll d h user keys lion depth
      & Keeps-KeepsAll _ listed.3
      & qclone-KeepsAll lion depth user keys d h
      & go-KeepsAll lion depth user keys d h
      & stop-KeepsAll d h user keys lion depth
      & asked.1.1.0
      & asked.1.1.1.0
      & asked.1.1.1.1.0
      & asked.1.1.1.1.1.0
      & asked.1.1.1.1.1.1.0
      & asked.1.1.1.1.1.1.1.0
      & asked.1.1.1.1.1.1.1.1.0
      & asked.1.1.1.1.1.1.1.1.1.0
      & asked.1.1.1.1.1.1.1.1.1.1.0
      & asked.1.0
      & Keeps-KeepsAll _ listed.4
      & Keeps-KeepsAll _ listed.5
      & tt

  parsed-KeepsAll :
      (p : Parsed)
      → KeepsAll (
          run_parsed lion
            (deliver lion depth)
            user
            (command_authenticated_list lion (deliver lion depth) user)
            p
            d)
  unfolding run_parsed
  parsed-KeepsAll unparsed = known-KeepsAll d h
  parsed-KeepsAll overrun = none-KeepsAll
  parsed-KeepsAll (calls none pairs) = known-KeepsAll d h
  parsed-KeepsAll (calls (some n) pairs) =
      run_request-KeepsAll _ d (command_authenticated_list lion (deliver lion depth) user) n h
        (table-AllKeep _)

  pub handler-KeepsAll :
      (signal : ClientSignal) → KeepsAll (command2_handler lion (deliver lion depth) user signal d)
  unfolding command2_handler input user_gone
  handler-KeepsAll client_gone = known-KeepsAll _ (unsubscribe_all-AllCounted user d.queues h)
  handler-KeepsAll (client_input line) = parsed-KeepsAll (
      parser_command lion
        (map (λ r. r.0) (command_authenticated_list lion (deliver lion depth) user)) false line)
