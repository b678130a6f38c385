-- ===== src/Settings/Laws.antt =====
-- What settings_conf makes of the keys and values that settings_save writes.
use fxp_one.Prelude.{◌^◌, ◌<◌, Bool, codes, case_eq, ◌≡◌, arith, ◌==◌, Bool-cases, inl, inr}
use fxp_one.Prelude.Printing.{atoi-print_number}
use fxp_one.Lion.{Lion, AddressText}
use fxp_one.Site.{findkey}
use fxp_one.Settings.{Settings, settings_defaults, settings_conf, settings_pairs, set_by}

-- What fits an int, or an address.
pub record IsSmall (s : Settings) : Type 0 where
  pub command_port_small : s.command_port < 2 ^ 31
  pub command_ssl_only_small : s.command_ssl_only < 2 ^ 31
  pub http_port_small : s.http_port < 2 ^ 31
  pub http_ssl_only_small : s.http_ssl_only < 2 ^ 31
  pub command_iface_small : s.command_iface < 2 ^ 32
  pub http_iface_small : s.http_iface < 2 ^ 32

module _ (lion : Lion) (text : AddressText lion) (s : Settings) where
  ifaces-read :
      s.command_iface < 2 ^ 32
      → s.http_iface < 2 ^ 32
      → (set_by lion.addr 0 (findkey (settings_pairs lion s) (codes "command_iface"))
          ≡ s.command_iface)
        × (set_by lion.addr 0 (findkey (settings_pairs lion s) (codes "http_iface")) ≡ s.http_iface)
  unfolding settings_pairs findkey case_eq
  ifaces-read cs hs = elim (Bool-cases (s.command_iface == 0)) [
    | inl c ↦ elim (Bool-cases (s.http_iface == 0)) [
      | inl h ↦ (ground (arith, c, h), ground (arith, c, h))
      | inr h ↦ (ground (arith, c, h), ground (arith, c, h, text.addr-ntoa s.http_iface hs))
    ]
    | inr c ↦ elim (Bool-cases (s.http_iface == 0)) [
      | inl h ↦ (ground (arith, c, h, text.addr-ntoa s.command_iface cs), ground (arith, c, h))
      | inr h ↦ (
        ground (arith, c, h, text.addr-ntoa s.command_iface cs),
        ground (arith, c, h, text.addr-ntoa s.http_iface hs),
      )
    ]
  ]

  -- The keys and values of settings_save are taken over by settings_conf into the defaults, whether
  -- there is a certificate or not, if every number fits an int and every address 32 bits.
  pub settings_conf-pairs :
      (has_cert : Bool)
      → IsSmall s
      → settings_conf lion (settings_pairs lion s) (settings_defaults has_cert) ≡ s
  unfolding settings_conf settings_pairs settings_defaults findkey case_eq
  settings_conf-pairs has_cert h = λ i. record {
    command_port = atoi-print_number s.command_port (omega (arith, h.command_port_small)) i;
    command_iface = (ifaces-read h.command_iface_small h.http_iface_small).0 i;
    command_ssl_only =
        atoi-print_number s.command_ssl_only (omega (arith, h.command_ssl_only_small)) i;
    http_port = atoi-print_number s.http_port (omega (arith, h.http_port_small)) i;
    http_iface = (ifaces-read h.command_iface_small h.http_iface_small).1 i;
    http_ssl_only = atoi-print_number s.http_ssl_only (omega (arith, h.http_ssl_only_small)) i;
  }
