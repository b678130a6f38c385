-- ===== src/Site/Keys/Fields.antt =====
-- engine/sites.c: the keys of sites_parsekeys, and what each sets in a site.
use fxp_one.Prelude.{
  Bool, true, false, ◌&&◌, List, [], ◌∷◌, Option, none, some, Text, codes, case_eq, atoi,
  if◌then◌else◌,
}
use fxp_one.Lion.{Lion}
use fxp_one.Site.{Site, str2yna}

-- The keys that sites_parsekeys knows.
pub data Field : Type 0 where
  f_name f_host f_user f_pass : Field
  f_port f_passive f_fxp_passive f_control_tls f_data_tls f_iface f_iport f_desired_type : Field
  f_resume f_resume_last f_pret : Field
  f_fskiplist f_dskiplist f_fpasslist f_dpasslist f_fskipempty f_dskipempty : Field
  f_fmovefirst f_dmovefirst : Field
  f_type f_siteid : Field

-- The first of the names that a key spells, without regard to case.
field_among : List (Text × Field) → Text → Option Field
field_among [] key = none
field_among ((name, f) ∷ rest) key = if case_eq key name then some f else field_among rest key

known_fields : List (Text × Field)
known_fields =
    (codes "name", f_name)
    ∷ (codes "host", f_host)
    ∷ (codes "user", f_user)
    ∷ (codes "pass", f_pass)
    ∷ (codes "port", f_port)
    ∷ (codes "passive", f_passive)
    ∷ (codes "fxp_passive", f_fxp_passive)
    ∷ (codes "control_TLS", f_control_tls)
    ∷ (codes "data_TLS", f_data_tls)
    ∷ (codes "iface", f_iface)
    ∷ (codes "iport", f_iport)
    ∷ (codes "desired_type", f_desired_type)
    ∷ (codes "resume", f_resume)
    ∷ (codes "resume_last", f_resume_last)
    ∷ (codes "pret", f_pret)
    ∷ (codes "fskiplist", f_fskiplist)
    ∷ (codes "dskiplist", f_dskiplist)
    ∷ (codes "fpasslist", f_fpasslist)
    ∷ (codes "dpasslist", f_dpasslist)
    ∷ (codes "fskipempty", f_fskipempty)
    ∷ (codes "dskipempty", f_dskipempty)
    ∷ (codes "fmovefirst", f_fmovefirst)
    ∷ (codes "dmovefirst", f_dmovefirst)
    ∷ (codes "type", f_type)
    ∷ (codes "SITEID", f_siteid)
    ∷ []

unfoldable pub field_of : Text → Option Field
unfolding field_among known_fields
field_of key = field_among known_fields key

-- The bits of `set`.
pub record Seen : Type 0 where
  pub seen_name : Bool
  pub seen_host : Bool
  pub seen_user : Bool
  pub seen_pass : Bool

abbrev pub unseen : Seen
unseen = record { seen_name = false; seen_host = false; seen_user = false; seen_pass = false }

abbrev pub all_seen : Seen → Bool
all_seen s = s.seen_name && (s.seen_host && (s.seen_user && s.seen_pass))

-- What one pair does: it is used, it is left with the extra keys, or a required value is missing.
pub data Outcome : Type 0 where
  used : Site → Seen → Outcome
  kept : Site → Outcome
  missing : Outcome

module _ (lion : Lion) where
  open lion use {addr}

  unfoldable pub set_field : Field → Text → Site → Seen → Outcome
  set_field f_name v s b = used (record s { name = some v }) (record b { seen_name = true })
  set_field f_host v s b = used (record s { host = v }) (record b { seen_host = true })
  set_field f_user v s b = used (record s { user = v }) (record b { seen_user = true })
  set_field f_pass v s b = used (record s { pass = v }) (record b { seen_pass = true })
  set_field f_port v s b = used (record s { port = atoi v }) b
  set_field f_passive v s b = used (record s { passive = str2yna lion (some v) }) b
  set_field f_fxp_passive v s b = used (record s { fxp_passive = str2yna lion (some v) }) b
  set_field f_control_tls v s b = used (record s { control_tls = str2yna lion (some v) }) b
  set_field f_data_tls v s b = used (record s { data_tls = str2yna lion (some v) }) b
  set_field f_iface v s b = used (record s { iface = addr v }) b
  set_field f_iport v s b = used (record s { iport = atoi v }) b
  set_field f_desired_type v s b = used (record s { desired_type = str2yna lion (some v) }) b
  set_field f_resume v s b = used (record s { resume = str2yna lion (some v) }) b
  set_field f_resume_last v s b = used (record s { resume_last = str2yna lion (some v) }) b
  set_field f_pret v s b = used (record s { pret = str2yna lion (some v) }) b
  set_field f_fskiplist v s b = used (record s { file_skiplist = some v }) b
  set_field f_dskiplist v s b = used (record s { directory_skiplist = some v }) b
  set_field f_fpasslist v s b = used (record s { file_passlist = some v }) b
  set_field f_dpasslist v s b = used (record s { directory_passlist = some v }) b
  set_field f_fskipempty v s b = used (record s { file_skipempty = str2yna lion (some v) }) b
  set_field f_dskipempty v s b = used (record s { directory_skipempty = str2yna lion (some v) }) b
  set_field f_fmovefirst v s b = used (record s { file_movefirst = some v }) b
  set_field f_dmovefirst v s b = used (record s { directory_movefirst = some v }) b
  set_field f_type v s b = used s b
  set_field f_siteid v s b = used s b

-- A key whose value is NULL.
unfoldable pub clear_field : Field → Site → Seen → Outcome
clear_field f_name s b = missing
clear_field f_host s b = missing
clear_field f_user s b = missing
clear_field f_pass s b = missing
clear_field f_fskiplist s b = kept (record s { file_skiplist = none })
clear_field f_dskiplist s b = kept (record s { directory_skiplist = none })
clear_field f_fpasslist s b = kept (record s { file_passlist = none })
clear_field f_dpasslist s b = kept (record s { directory_passlist = none })
clear_field f_fmovefirst s b = kept (record s { file_movefirst = none })
clear_field f_dmovefirst s b = kept (record s { directory_movefirst = none })
clear_field f_type s b = used s b
clear_field f_siteid s b = used s b
clear_field f s b = kept s
