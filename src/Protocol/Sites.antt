-- ===== src/Protocol/Sites.antt =====
-- engine/command2.c: the requests about the engine itself, users and sites, and the sessions that a
-- user opens: QUIT, HELP, WHO, SHUTDOWN, SETPASS, SITEADD, SITELIST, SITEMOD, SITEDEL, SESSIONNEW,
-- SESSIONFREE; engine/sites.c: sites_save, sites_listentries, sites_del. A manager shares its site with
-- the list of sites, so a change of the site reaches it and its sessions.
use fxp_one.Prelude.{
  ℕ, ◌^◌, Bool, true, false, not, ◌&&◌, List, [], ◌∷◌, Option, none, some, Text, codes, atoi, leb,
  ◌==◌, if◌then◌else◌, map,
}
use fxp_one.Lion.{Lion}
use fxp_one.Site.{Site, findkey}
use fxp_one.Site.Keys
use fxp_one.Site.Keys.{sites_newnode, sites_parsekeys}
use fxp_one.Site.Table.{SiteTable, sites_insertnode, sites_getid}
use fxp_one.Users.{users_authenticate, users_setpass}
use fxp_one.Session.{Session}
use fxp_one.Engine.World.{Manager, answered, told_site}
use fxp_one.Engine.Managers.Registry.{manager_new, manager_release, manager_find_fromsid, UserFlags}
use fxp_one.Protocol.State.{Daemon, Keys, say, answer, managers, set_managers, with_key}

-- What sites_parsekeys gets.
abbrev pub pairs_of : Keys → List Keys.Pair
pairs_of keys = map (λ p. (p.0, some p.1)) keys

abbrev pub is_set : Option Text → Bool
is_set none = false
is_set (some t) = true

-- A site without a name is neither saved nor listed.
named_sites : List Site → List Site
named_sites [] = []
named_sites (s ∷ ss) = let rest = named_sites ss in if is_set s.name then s ∷ rest else rest

-- What sites_save writes, in its order.
unfoldable pub sites_save : SiteTable → SiteTable
unfolding named_sites
sites_save t = record t { saved = named_sites t.sites }

unfoldable pub put_site : Site → List Site → List Site
put_site s [] = []
put_site s (x ∷ xs) = let rest = put_site s xs in if x.id == s.id then s ∷ xs else x ∷ rest

-- site->name = NULL
unfoldable pub sites_del : Site → SiteTable → SiteTable
unfolding put_site sites_save
sites_del s t = sites_save (record t { sites = put_site (record s { name = none }) t.sites })

-- The sites that managers and sessions point to.
shared_session : Site → Option Session → Option Session
shared_session s none = none
shared_session s (some c) = some (if c.site.id == s.id then record c { site = s } else c)

unfoldable pub share_site : Site → List Manager → List Manager
unfolding shared_session
share_site s [] = []
share_site s (m ∷ ms) =
    record m {
      site = if m.site.id == s.id then s else m.site;
      session = shared_session s m.session;
      old_session = shared_session s m.old_session;
    }
    ∷ share_site s ms

-- A siteid that is negative as an int counts as 0.
unfoldable pub site_number : Option Text → ℕ
unfolding atoi
site_number none = 0
site_number (some t) = if leb (2 ^ 31) (atoi t) then 0 else atoi t

unfoldable pub list_entries : ℕ → Bool → List Site → Daemon → Daemon
unfolding say
list_entries user short [] d = d
list_entries user short (s ∷ ss) d =
    list_entries user short ss (if is_set s.name then say user (told_site short s) d else d)

unfoldable pub list_one : ℕ → Option Site → Daemon → Daemon
unfolding say
list_one user none d = d
list_one user (some s) d = say user (told_site false s) d

-- With a siteid of 0 all sites.
unfoldable pub sites_listentries : ℕ → ℕ → Bool → Daemon → Daemon
unfolding list_entries list_one
sites_listentries user siteid short d =
    if siteid == 0
    then list_entries user short d.table.sites d
    else list_one user (sites_getid d.table.sites siteid) d

unfoldable pub release_first : ℕ → List Manager → List Manager
unfolding manager_release
release_first id [] = []
release_first id (m ∷ ms) =
    let rest = release_first id ms in if m.id == id then manager_release m ∷ ms else m ∷ rest

module _ (lion : Lion) (user : ℕ) where
  unfoldable pub command2_cmd_quit : Daemon → Option Daemon
  command2_cmd_quit d = some (record d { closed = user ∷ d.closed })

  unfoldable pub command2_cmd_help : Daemon → Option Daemon
  command2_cmd_help d = answer user (codes "HELP") 0 d

  -- The line for each user comes from the connections of the library, and is left out.
  unfoldable pub command2_cmd_who : Daemon → Option Daemon
  unfolding say
  command2_cmd_who d =
      answer user (codes "WHO") 0 (say user (answered (codes "WHO") 0 (d.num_clients ∷ [])) d)

  unfoldable pub command2_cmd_shutdown : Keys → Daemon → Option Daemon
  command2_cmd_shutdown keys d =
      if is_set (findkey keys (codes "LASTCLIENT")) && not (d.num_clients == 1)
      then answer user (codes "SHUTDOWN") 1403 d
      else answer user (codes "SHUTDOWN") 0 (record d { engine_running = false })

  unfoldable pub command2_cmd_setpass : Keys → Daemon → Option Daemon
  command2_cmd_setpass keys d =
      with_key user (codes "SETPASS") 1504 (findkey keys (codes "OLD")) d λ old.
        with_key user (codes "SETPASS") 1504 (findkey keys (codes "NEW")) d λ new.
          if not (users_authenticate lion d.users (d.names user) old)
          then answer user (codes "SETPASS") 1502 d
          else answer user (codes "SETPASS") 0
              (record d { users = users_setpass lion d.users (d.names user) new })

  unfoldable pub add_site : ℕ × Site → Daemon → Option Daemon
  unfolding say sites_insertnode sites_save
  add_site (code, s) d =
      if not (code == 0)
      then answer user (codes "SITEADD") code d
      else some (
          say user (answered (codes "SITEADD") 0 (d.table.next_id ∷ []))
            (record d { table = sites_save (sites_insertnode s d.table) }))

  unfoldable pub command2_cmd_siteadd : Keys → Daemon → Option Daemon
  unfolding add_site
  command2_cmd_siteadd keys d = add_site (sites_parsekeys lion (pairs_of keys) sites_newnode) d

  unfoldable pub command2_cmd_sitelist : Keys → Daemon → Option Daemon
  unfolding say sites_listentries site_number
  command2_cmd_sitelist keys d = answer user (codes "SITELIST") 0 (
      sites_listentries user (site_number (findkey keys (codes "SITEID")))
        (is_set (findkey keys (codes "SHORT"))) (say user (answered (codes "SITELIST") 0 []) d))

  -- 1501 without a SITEID, 1505 without a site of that id
  unfoldable pub with_site : Text → Keys → Daemon → (Site → Option Daemon) → Option Daemon
  with_site request keys d k = with_key user request 1501 (findkey keys (codes "SITEID")) d λ value.
      elim (sites_getid d.table.sites (atoi value)) [
        | none ↦ answer user request 1505 d
        | some s ↦ k s
      ]

  -- The code of sites_parsekeys is not looked at.
  unfoldable pub command2_cmd_sitemod : Keys → Daemon → Option Daemon
  unfolding with_site put_site share_site sites_save say
  command2_cmd_sitemod keys d = with_site (codes "SITEMOD") keys d λ s.
      let new = (sites_parsekeys lion (pairs_of keys) s).1 in
      some (
        say user (answered (codes "SITEMOD") 0 (new.id ∷ [])) (
          set_managers (share_site new (managers d)) (record d {
            table = sites_save (record d.table { sites = put_site new d.table.sites });
          })))

  unfoldable pub command2_cmd_sitedel : Keys → Daemon → Option Daemon
  unfolding with_site sites_del share_site
  command2_cmd_sitedel keys d = with_site (codes "SITEDEL") keys d λ s.
      answer user (codes "SITEDEL") 0 (
        set_managers (share_site (record s { name = none }) (managers d))
          (record d { table = sites_del s d.table }))

  -- LOG=... with a number that is not 0
  wants_log : Option Text → Bool
  wants_log none = false
  wants_log (some t) = not (atoi t == 0)

  -- manager_new with what it prints
  unfoldable pub new_manager : Site → UserFlags → Daemon → Daemon × Manager
  unfolding say
  new_manager s flags d =
      let made = manager_new lion d.server_ssl (some user) s flags d.registry in
      (
        say user (answered (codes "SESSIONNEW") 0 (s.id ∷ made.1.id ∷ []))
            (record d { registry = made.0 }),
        made.1,
      )

  unfoldable pub command2_cmd_sessionnew : Keys → Daemon → Option Daemon
  unfolding with_site new_manager wants_log
  command2_cmd_sessionnew keys d = with_site (codes "SESSIONNEW") keys d λ s.
      some
        (new_manager s
          (record { wants_log = wants_log (findkey keys (codes "LOG")); rnfr_ok = false }) d).0

  -- Nobody looks at whose session it is.
  unfoldable pub command2_cmd_sessionfree : Keys → Daemon → Option Daemon
  unfolding say release_first
  command2_cmd_sessionfree keys d =
      with_key user (codes "SESSIONFREE") 1501 (findkey keys (codes "SID")) d λ sid.
        elim (manager_find_fromsid (managers d) (atoi sid)) [
          | none ↦ answer user (codes "SESSIONFREE") 1506 d
          | some m ↦
              if not (m.qid == 0)
              then some (say user (answered (codes "SESSIONFREE") 1518 (atoi sid ∷ m.qid ∷ [])) d)
              else some (
                  say user (answered (codes "SESSIONFREE") 0 (atoi sid ∷ []))
                    (set_managers (release_first m.id (managers d)) d))
        ]
