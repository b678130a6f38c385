-- ===== src/Protocol/Bystanders.antt =====
-- The counters of every queue under the requests that leave queues alone: those on the engine, on users
-- and on sites, and SESSIONNEW and SESSIONFREE.
use fxp_one.Prelude.{ℕ, Option, Text, codes, atoi}
use fxp_one.Lion.{Lion}
use fxp_one.Site.{Site, findkey}
use fxp_one.Site.Table.{sites_getid}
use fxp_one.Engine.Managers.Registry.{manager_find_fromsid}
use fxp_one.Protocol.State.{Daemon, Keys, say, managers}
use fxp_one.Site.Keys.{sites_newnode, sites_parsekeys}
use fxp_one.Protocol.Sites.{
  pairs_of, command2_cmd_shutdown, command2_cmd_setpass, command2_cmd_siteadd, command2_cmd_sitemod,
  command2_cmd_sitedel, command2_cmd_sessionnew, command2_cmd_sessionfree, add_site, with_site,
  new_manager,
}
use fxp_one.Protocol.Counted.{AllCounted}
use fxp_one.Protocol.Written.{KeepsAll, known-KeepsAll}
use fxp_one.Protocol.Keeping.{if-KeepsAll, option-KeepsAll, key-KeepsAll}

module _ (lion : Lion) (user : ℕ) (d : Daemon) (h : AllCounted d.queues) (keys : Keys) where
  shutdown-KeepsAll : KeepsAll (command2_cmd_shutdown lion user keys d)
  unfolding command2_cmd_shutdown say
  shutdown-KeepsAll = if-KeepsAll _ _ _ (known-KeepsAll _ h) (known-KeepsAll _ h)

  setpass-KeepsAll : KeepsAll (command2_cmd_setpass lion user keys d)
  unfolding command2_cmd_setpass say
  setpass-KeepsAll =
      key-KeepsAll d h user (codes "SETPASS") 1504 (findkey keys (codes "OLD")) _ λ old.
        key-KeepsAll d h user (codes "SETPASS") 1504 (findkey keys (codes "NEW")) _
          λ new. if-KeepsAll _ _ _ (known-KeepsAll _ h) (known-KeepsAll _ h)

  added_site-KeepsAll : (r : ℕ × Site) → KeepsAll (add_site lion user r d)
  unfolding add_site say
  added_site-KeepsAll (code, s) = if-KeepsAll _ _ _ (known-KeepsAll _ h) (known-KeepsAll _ h)

  siteadd-KeepsAll : KeepsAll (command2_cmd_siteadd lion user keys d)
  unfolding command2_cmd_siteadd
  siteadd-KeepsAll = added_site-KeepsAll (sites_parsekeys lion (pairs_of keys) sites_newnode)

  site-KeepsAll :
      (request : Text) (k : Site → Option Daemon)
      → ((s : Site) → KeepsAll (k s))
      → KeepsAll (with_site lion user request keys d k)
  unfolding with_site say
  site-KeepsAll request k f =
      key-KeepsAll d h user request 1501 (findkey keys (codes "SITEID")) _
        λ value. option-KeepsAll (sites_getid d.table.sites (atoi value)) _ k (known-KeepsAll _ h) f

  sitemod-KeepsAll : KeepsAll (command2_cmd_sitemod lion user keys d)
  unfolding command2_cmd_sitemod say
  sitemod-KeepsAll = site-KeepsAll (codes "SITEMOD") _ λ s. known-KeepsAll _ h

  sitedel-KeepsAll : KeepsAll (command2_cmd_sitedel lion user keys d)
  unfolding command2_cmd_sitedel say
  sitedel-KeepsAll = site-KeepsAll (codes "SITEDEL") _ λ s. known-KeepsAll _ h

  sessionnew-KeepsAll : KeepsAll (command2_cmd_sessionnew lion user keys d)
  unfolding command2_cmd_sessionnew new_manager say
  sessionnew-KeepsAll = site-KeepsAll (codes "SESSIONNEW") _ λ s. known-KeepsAll _ h

  sessionfree-KeepsAll : KeepsAll (command2_cmd_sessionfree lion user keys d)
  unfolding command2_cmd_sessionfree say
  sessionfree-KeepsAll =
      key-KeepsAll d h user (codes "SESSIONFREE") 1501 (findkey keys (codes "SID")) _ λ sid.
        option-KeepsAll (manager_find_fromsid (managers d) (atoi sid)) _ _ (known-KeepsAll _ h)
          λ m. if-KeepsAll _ _ _ (known-KeepsAll _ h) (known-KeepsAll _ h)

  -- SHUTDOWN, SETPASS, the changes of sites and of sessions leave every queue counted.
  pub bystanders-KeepAll :
      KeepsAll (command2_cmd_shutdown lion user keys d)
      × KeepsAll (command2_cmd_setpass lion user keys d)
      × KeepsAll (command2_cmd_siteadd lion user keys d)
      × KeepsAll (command2_cmd_sitemod lion user keys d)
      × KeepsAll (command2_cmd_sitedel lion user keys d)
      × KeepsAll (command2_cmd_sessionnew lion user keys d)
      × KeepsAll (command2_cmd_sessionfree lion user keys d)
  bystanders-KeepAll = (
    shutdown-KeepsAll, setpass-KeepsAll, siteadd-KeepsAll, sitemod-KeepsAll, sitedel-KeepsAll,
    sessionnew-KeepsAll, sessionfree-KeepsAll,
  )
