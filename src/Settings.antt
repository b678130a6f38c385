-- ===== src/Settings.antt =====
-- engine/settings.c: settings_defaults, settings_conf and the line that settings_save writes. The
-- values of command_ssl_only and http_ssl_only are the numbers of yesnoauto_t: 0, 1 and 2.
pub mod Laws
use fxp_one.Prelude.{
  ℕ, Bool, true, false, List, [], ◌∷◌, ◌++◌, Option, none, some, Text, codes, atoi, print_number,
  ◌==◌, if◌then◌else◌,
}
use fxp_one.Lion.{Lion}
use fxp_one.Site.{findkey}

pub record Settings : Type 0 where
  pub command_port : ℕ
  pub command_iface : ℕ
  pub command_ssl_only : ℕ
  pub http_port : ℕ
  pub http_iface : ℕ
  pub http_ssl_only : ℕ

-- Whether the file with the certificate is there.
unfoldable pub settings_defaults : Bool → Settings
settings_defaults has_cert = record {
  command_port = 8885;
  command_iface = 0;
  command_ssl_only = if has_cert then 1 else 2;
  http_port = 8886;
  http_iface = 0;
  http_ssl_only = if has_cert then 1 else 2;
}

-- A value that is given takes the place of the old one.
abbrev pub set_by : (Text → ℕ) → ℕ → Option Text → ℕ
set_by read old none = old
set_by read old (some t) = read t

module _ (lion : Lion) where
  unfoldable pub settings_conf : List (Option Text × Text) → Settings → Settings
  settings_conf keys s = record {
    command_port = set_by atoi s.command_port (findkey keys (codes "command_port"));
    command_iface = set_by lion.addr s.command_iface (findkey keys (codes "command_iface"));
    command_ssl_only = set_by atoi s.command_ssl_only (findkey keys (codes "command_ssl_only"));
    http_port = set_by atoi s.http_port (findkey keys (codes "http_port"));
    http_iface = set_by lion.addr s.http_iface (findkey keys (codes "http_iface"));
    http_ssl_only = set_by atoi s.http_ssl_only (findkey keys (codes "http_ssl_only"));
  }

  -- An address of 0 is not written.
  abbrev pub iface_pair : Text → ℕ → List (Option Text × Text)
  iface_pair key a = if a == 0 then [] else (some key, lion.ntoa a) ∷ []

  -- The keys and values of the line behind the version.
  unfoldable pub settings_pairs : Settings → List (Option Text × Text)
  settings_pairs s =
      (some (codes "command_port"), print_number s.command_port)
      ∷ (some (codes "command_ssl_only"), print_number s.command_ssl_only)
      ∷ (some (codes "http_port"), print_number s.http_port)
      ∷ (some (codes "http_ssl_only"), print_number s.http_ssl_only)
      ∷ (iface_pair (codes "command_iface") s.command_iface
          ++ iface_pair (codes "http_iface") s.http_iface)

  -- "|%s=%s" for each
  printed_pairs : List (Option Text × Text) → Text
  printed_pairs [] = []
  printed_pairs ((none, value) ∷ ps) = printed_pairs ps
  printed_pairs ((some key, value) ∷ ps) =
      codes "|" ++ key ++ codes "=" ++ value ++ printed_pairs ps

  -- What is printed into the file.
  unfoldable pub settings_save : Settings → Text
  unfolding settings_pairs printed_pairs
  settings_save s =
      codes "# FXP.One settings file. Written automatically.\r\nCONF|VERSION=1.0\r\nCONF"
      ++ printed_pairs (settings_pairs s)
      ++ codes "\r\n"
