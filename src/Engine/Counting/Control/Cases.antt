-- ===== src/Engine/Counting/Control/Cases.antt =====
-- Each case of the state machine of a session keeps the counters.
use fxp_one.Prelude.{Bool, [], ◌∷◌, Option, none, some, Text}
use fxp_one.Lion.{Lion}
use fxp_one.Queue.Types.{Side}
use fxp_one.Session.{Status}
use fxp_one.Engine.World.{World, Call}
use fxp_one.Engine.Control.Moves.{Answer, code, secure_enabled, secure_failed}
use fxp_one.Engine.Control.Login.{
  process_connecting, process_connected, process_tls_start, process_login_start, process_await_220,
  process_tls_init, process_tls_phase_tls, process_tls_phase_ssl, process_tls_wait,
  process_login_sent_user, process_login_sent_pass, process_misc, process_misc_reply_feat,
  process_misc_reply_xdupe, session_send_xdupe, refused,
}
use fxp_one.Engine.Control.Listing.{
  process_type_reply, process_prot_reply, process_pasv_reply, process_port_reply,
  process_data_transfer, process_data_finish, passive_at,
}
use fxp_one.Engine.Control.Relays.{
  relay_mode, process_relay_cwd, process_relay_size, process_relay_rest, process_relay_transfer,
  process_relay_226, process_pwd_internal,
}
use fxp_one.Engine.Counting.{IsCountedWorld, Keeps, IsKeeping, Keeps-option}
use fxp_one.Engine.Counting.Control.{control_rules}

module _ (lion : Lion) (call : Call) (good : IsKeeping call) (side : Side) where
  pub refused-Keeps : (w : World) → IsCountedWorld w → Keeps (refused lion call side w)
  unfolding refused
  refused-Keeps w c = search control_rules depth 12

  pub process_connecting-Keeps :
      (reply : Answer) (w : World)
      → IsCountedWorld w
      → Keeps (process_connecting lion call side reply w)
  unfolding process_connecting
  process_connecting-Keeps secure_enabled w c = search control_rules depth 12
  process_connecting-Keeps secure_failed w c = search (control_rules, refused-Keeps) depth 12
  process_connecting-Keeps (code r) w c = search control_rules depth 12

  pub process_connected-Keeps :
      (w : World) → IsCountedWorld w → Keeps (process_connected lion call side w)
  unfolding process_connected
  process_connected-Keeps w c = search control_rules depth 12

  pub process_tls_start-Keeps :
      (w : World) → IsCountedWorld w → Keeps (process_tls_start lion call side w)
  unfolding process_tls_start
  process_tls_start-Keeps w c = search control_rules depth 12

  pub process_login_start-Keeps :
      (w : World) → IsCountedWorld w → Keeps (process_login_start lion call side w)
  unfolding process_login_start
  process_login_start-Keeps w c = search control_rules depth 12

  pub process_await_220-Keeps :
      (reply : Answer) (w : World)
      → IsCountedWorld w
      → Keeps (process_await_220 lion call side reply w)
  unfolding process_await_220
  process_await_220-Keeps reply w c =
      search (control_rules, process_tls_start-Keeps, process_login_start-Keeps) depth 12

  pub process_tls_init-Keeps :
      (w : World) → IsCountedWorld w → Keeps (process_tls_init lion call side w)
  unfolding process_tls_init
  process_tls_init-Keeps w c = search control_rules depth 12

  pub process_tls_phase_tls-Keeps :
      (reply : Answer) (w : World)
      → IsCountedWorld w
      → Keeps (process_tls_phase_tls lion call side reply w)
  unfolding process_tls_phase_tls
  process_tls_phase_tls-Keeps reply w c = search (control_rules, process_tls_init-Keeps) depth 12

  pub process_tls_phase_ssl-Keeps :
      (reply : Answer) (w : World)
      → IsCountedWorld w
      → Keeps (process_tls_phase_ssl lion call side reply w)
  unfolding process_tls_phase_ssl
  process_tls_phase_ssl-Keeps reply w c =
      search (control_rules, process_tls_init-Keeps, process_login_start-Keeps) depth 12

  pub process_tls_wait-Keeps :
      (reply : Answer) (w : World)
      → IsCountedWorld w
      → Keeps (process_tls_wait lion call side reply w)
  unfolding process_tls_wait
  process_tls_wait-Keeps secure_enabled w c =
      search (control_rules, process_login_start-Keeps) depth 12
  process_tls_wait-Keeps secure_failed w c = search (control_rules, refused-Keeps) depth 12
  process_tls_wait-Keeps (code r) w c = search control_rules depth 12

  pub process_login_sent_user-Keeps :
      (reply : Answer) (line : Option Text) (w : World)
      → IsCountedWorld w
      → Keeps (process_login_sent_user lion call side reply line w)
  unfolding process_login_sent_user
  process_login_sent_user-Keeps reply line w c = search control_rules depth 12

  pub process_misc-Keeps : (w : World) → IsCountedWorld w → Keeps (process_misc lion call side w)
  unfolding process_misc
  process_misc-Keeps w c = search control_rules depth 12

  pub process_login_sent_pass-Keeps :
      (reply : Answer) (line : Option Text) (w : World)
      → IsCountedWorld w
      → Keeps (process_login_sent_pass lion call side reply line w)
  unfolding process_login_sent_pass
  process_login_sent_pass-Keeps reply line w c = search (control_rules, process_misc-Keeps) depth 12

  pub session_send_xdupe-Keeps :
      (w : World) → IsCountedWorld w → Keeps (session_send_xdupe lion call side w)
  unfolding session_send_xdupe
  session_send_xdupe-Keeps w c = search control_rules depth 12

  pub process_misc_reply_feat-Keeps :
      (line : Option Text) (w : World)
      → IsCountedWorld w
      → Keeps (process_misc_reply_feat lion call side line w)
  unfolding process_misc_reply_feat
  process_misc_reply_feat-Keeps none w c = search control_rules depth 12
  process_misc_reply_feat-Keeps (some []) w c = search control_rules depth 12
  process_misc_reply_feat-Keeps (some (x ∷ xs)) w c =
      search (control_rules, session_send_xdupe-Keeps) depth 12

  pub process_misc_reply_xdupe-Keeps :
      (reply : Answer) (w : World)
      → IsCountedWorld w
      → Keeps (process_misc_reply_xdupe lion call side reply w)
  unfolding process_misc_reply_xdupe
  process_misc_reply_xdupe-Keeps reply w c = search control_rules depth 12

  pub process_type_reply-Keeps :
      (reply : Answer) (w : World)
      → IsCountedWorld w
      → Keeps (process_type_reply lion call side reply w)
  unfolding process_type_reply
  process_type_reply-Keeps reply w c = search control_rules depth 12

  pub process_prot_reply-Keeps :
      (reply : Answer) (w : World)
      → IsCountedWorld w
      → Keeps (process_prot_reply lion call side reply w)
  unfolding process_prot_reply
  process_prot_reply-Keeps reply w c = search control_rules depth 12

  pub passive_at-Keeps :
      (line : Text) (w : World) → IsCountedWorld w → Keeps (passive_at lion call side line w)
  unfolding passive_at
  passive_at-Keeps line w c =
      Keeps-option (lion.ftp_pasv line) _ _ (search control_rules) (λ at. search control_rules)

  pub process_pasv_reply-Keeps :
      (reply : Answer) (line : Option Text) (w : World)
      → IsCountedWorld w
      → Keeps (process_pasv_reply lion call side reply line w)
  unfolding process_pasv_reply
  process_pasv_reply-Keeps reply line w c = search (control_rules, passive_at-Keeps) depth 12

  pub process_port_reply-Keeps :
      (reply : Answer) (line : Option Text) (w : World)
      → IsCountedWorld w
      → Keeps (process_port_reply lion call side reply line w)
  unfolding process_port_reply
  process_port_reply-Keeps reply line w c = search control_rules depth 12

  pub process_data_transfer-Keeps :
      (reply : Answer) (line : Option Text) (w : World)
      → IsCountedWorld w
      → Keeps (process_data_transfer lion call side reply line w)
  unfolding process_data_transfer
  process_data_transfer-Keeps reply line w c = search control_rules depth 12

  pub process_data_finish-Keeps :
      (reply : Answer) (line : Option Text) (w : World)
      → IsCountedWorld w
      → Keeps (process_data_finish lion call side reply line w)
  unfolding process_data_finish
  process_data_finish-Keeps reply line w c = search control_rules depth 12

  pub process_relay_cwd-Keeps :
      (reply : Answer) (w : World)
      → IsCountedWorld w
      → Keeps (process_relay_cwd lion call side reply w)
  unfolding process_relay_cwd
  process_relay_cwd-Keeps reply w c = search control_rules depth 12

  pub process_relay_size-Keeps :
      (reply : Answer) (w : World)
      → IsCountedWorld w
      → Keeps (process_relay_size lion call side reply w)
  unfolding process_relay_size
  process_relay_size-Keeps reply w c = search control_rules depth 12

  pub process_relay_rest-Keeps :
      (on : Bool) (reply : Answer) (w : World)
      → IsCountedWorld w
      → Keeps (process_relay_rest lion call side on reply w)
  unfolding process_relay_rest
  process_relay_rest-Keeps on reply w c = search control_rules depth 12

  pub process_relay_transfer-Keeps :
      (reply : Answer) (w : World)
      → IsCountedWorld w
      → Keeps (process_relay_transfer lion call side reply w)
  unfolding process_relay_transfer
  process_relay_transfer-Keeps reply w c = search control_rules depth 12

  pub process_relay_226-Keeps :
      (reply : Answer) (line : Option Text) (w : World)
      → IsCountedWorld w
      → Keeps (process_relay_226 lion call side reply line w)
  unfolding process_relay_226
  process_relay_226-Keeps reply line w c = search control_rules depth 12

  pub process_pwd_internal-Keeps :
      (line : Option Text) (w : World)
      → IsCountedWorld w
      → Keeps (process_pwd_internal lion call side line w)
  unfolding process_pwd_internal
  process_pwd_internal-Keeps line w c = search control_rules depth 12

  pub relay_mode-Keeps :
      (set : Status → Status) (reply : Answer) (w : World)
      → IsCountedWorld w
      → Keeps (relay_mode lion call side set reply w)
  unfolding relay_mode
  relay_mode-Keeps set reply w c = search control_rules

  pub ruleset state_rules = (
    control_rules, process_connecting-Keeps, process_connected-Keeps, process_tls_start-Keeps,
    process_login_start-Keeps, process_await_220-Keeps, process_tls_init-Keeps,
    process_tls_phase_tls-Keeps, process_tls_phase_ssl-Keeps, process_tls_wait-Keeps,
    process_login_sent_user-Keeps, process_misc-Keeps, process_login_sent_pass-Keeps,
    process_misc_reply_feat-Keeps, process_misc_reply_xdupe-Keeps, process_type_reply-Keeps,
    process_prot_reply-Keeps, process_pasv_reply-Keeps, process_port_reply-Keeps,
    process_data_transfer-Keeps, process_data_finish-Keeps, process_relay_cwd-Keeps,
    process_relay_size-Keeps, process_relay_rest-Keeps, process_relay_transfer-Keeps,
    process_relay_226-Keeps, process_pwd_internal-Keeps, relay_mode-Keeps,
  )
