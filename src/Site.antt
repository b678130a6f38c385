-- ===== src/Site.antt =====
-- engine/sites.h, engine/settings.h: the record of a site and the three-valued options, with the
-- functions of sites.c and settings.c that read them.
pub mod Keys
pub mod Table
use fxp_one.Prelude.{
  ℕ, Bool, true, false, List, [], ◌∷◌, Option, none, some, Text, codes, case_eq, atoi, ◌==◌,
  if◌then◌else◌,
}
use fxp_one.Lion.{Lion}

pub data Yna : Type 0 where
  yna_no yna_yes yna_auto : Yna

abbrev pub is_yes : Yna → Bool
is_yes yna_no = false
is_yes yna_yes = true
is_yes yna_auto = false

abbrev pub is_no : Yna → Bool
is_no yna_no = true
is_no yna_yes = false
is_no yna_auto = false

abbrev pub is_auto : Yna → Bool
is_auto yna_no = false
is_auto yna_yes = false
is_auto yna_auto = true

pub record Site : Type 0 where
  pub id : ℕ
  -- NULL for a site that is deleted
  pub name : Option Text
  pub host : Text
  pub ip : ℕ
  pub port : ℕ
  pub iface : ℕ
  pub iport : ℕ
  pub user : Text
  pub pass : Text
  pub passive : Yna
  pub fxp_passive : Yna
  pub control_tls : Yna
  pub data_tls : Yna
  pub desired_type : Yna
  pub resume : Yna
  pub resume_last : Yna
  pub pret : Yna
  pub file_skiplist : Option Text
  pub directory_skiplist : Option Text
  pub file_passlist : Option Text
  pub directory_passlist : Option Text
  pub file_movefirst : Option Text
  pub directory_movefirst : Option Text
  pub file_skipempty : Yna
  pub directory_skipempty : Yna
  -- keys and values; a key that was taken out is NULL
  pub extras : List (Option Text × Text)

-- parser_findkey
unfoldable pub findkey : List (Option Text × Text) → Text → Option Text
findkey [] keyword = none
findkey ((none, v) ∷ rest) keyword = findkey rest keyword
findkey ((some k, v) ∷ rest) keyword = if case_eq keyword k then some v else findkey rest keyword

unfoldable pub sites_find_extra : Site → Text → Option Text
unfolding findkey
sites_find_extra site key = findkey site.extras key

unfoldable pub site_get_listargs : Site → Text
unfolding sites_find_extra
site_get_listargs site = elim (sites_find_extra site (codes "LISTARGS")) [
  | none ↦ codes "-lL"
  | some value ↦ value
]

yna_of_number : ℕ → Yna
yna_of_number n = if n == 0 then yna_no else if n == 1 then yna_yes else yna_auto

module _ (lion : Lion) where
  open lion use {same_text}

  word_to_yna : Text → Yna
  unfolding yna_of_number atoi
  word_to_yna [] = yna_auto
  word_to_yna (c ∷ cs) =
      let s = c ∷ cs in
      if same_text (codes "AUTO") s
      then yna_auto
      else if same_text (codes "NO") s
      then yna_no
      else if same_text (codes "YES") s
      then yna_yes
      else yna_of_number (atoi s)

  unfoldable pub str2yna : Option Text → Yna
  unfolding word_to_yna
  str2yna none = yna_auto
  str2yna (some s) = word_to_yna s

  -- The site that stands for the local machine.
  abbrev pub is_local : Site → Bool
  is_local site = same_text (codes "<local>") site.host

  abbrev pub extra_yna : Site → Text → Yna
  extra_yna site key = str2yna (sites_find_extra site key)
