-- ===== src/Site/Table.antt =====
-- engine/sites.c: the list of sites: sites_insertnode, sites_removenode, sites_getid, sites_cmd_site.
use fxp_one.Prelude.{ℕ, suc, ◌%◌, ◌^◌, List, [], ◌∷◌, Option, none, some, ◌==◌, if◌then◌else◌}
use fxp_one.Lion.{Lion}
use fxp_one.Site.{Site}
use fxp_one.Site.Keys.{Pair, sites_newnode, sites_parsekeys}

-- sites_head with its next pointers, sites_id, and the sites that are in the file.
pub record SiteTable : Type 0 where
  pub sites : List Site
  pub next_id : ℕ
  pub saved : List Site

-- A site that is made goes to the front, with the next id.
unfoldable pub sites_insertnode : Site → SiteTable → SiteTable
sites_insertnode s t = record {
  sites = record s { id = t.next_id } ∷ t.sites;
  next_id = suc t.next_id % 2 ^ 32;
  saved = t.saved;
}

-- A node is told by its id here.
unfoldable pub sites_removenode : ℕ → List Site → List Site
sites_removenode id [] = []
sites_removenode id (s ∷ ss) =
    let rest = sites_removenode id ss in if s.id == id then ss else s ∷ rest

unfoldable pub sites_getid : List Site → ℕ → Option Site
sites_getid [] id = none
sites_getid (s ∷ ss) id = if s.id == id then some s else sites_getid ss id

module _ (lion : Lion) where
  keep_site : ℕ × Site → SiteTable → SiteTable
  unfolding sites_insertnode
  keep_site (code, s) t = if code == 0 then sites_insertnode s t else t

  -- One line of the file of sites.
  unfoldable pub sites_cmd_site : List Pair → SiteTable → SiteTable
  unfolding keep_site
  sites_cmd_site pairs t = keep_site (sites_parsekeys lion pairs sites_newnode) t
