-- ===== src/Session/Events.antt =====
-- engine/session_states.h and engine/handler.h: the states of a session, the ids of replies.
use fxp_one.Prelude.{Bool, true, false, ℤ, Text}

pub data SessionState : Type 0 where
  st_none st_sent_cmd st_connecting st_connected st_await_220 : SessionState
  st_tls_start st_tls_phase_tls st_tls_phase_ssl st_tls_init st_tls_wait : SessionState
  st_login_start st_login_sent_user st_login_sent_pass : SessionState
  st_reply_pbsz : SessionState
  st_misc st_misc_reply_syst st_misc_reply_clnt st_misc_reply_feat : SessionState
  st_misc_reply_xdupe : SessionState
  st_type_reply st_prot_reply st_pret_reply st_pasv_reply st_port_reply : SessionState
  st_data_transfer st_data_finish : SessionState
  st_idle : SessionState
  st_relay_type_ascii st_relay_type_binary : SessionState
  st_relay_ccsn_off st_relay_ccsn_on : SessionState
  st_relay_sscn_off st_relay_sscn_on : SessionState
  st_relay_privacy_off st_relay_privacy_on : SessionState
  st_relay_cwd st_relay_size st_relay_rest_on st_relay_rest_off : SessionState
  st_relay_stor st_relay_retr st_relay_226 : SessionState
  st_pwd_internal : SessionState
  st_test : SessionState

-- state < SESSION_ST_IDLE
abbrev pub below_idle : SessionState → Bool
below_idle st_idle = false
below_idle st_relay_type_ascii = false
below_idle st_relay_type_binary = false
below_idle st_relay_ccsn_off = false
below_idle st_relay_ccsn_on = false
below_idle st_relay_sscn_off = false
below_idle st_relay_sscn_on = false
below_idle st_relay_privacy_off = false
below_idle st_relay_privacy_on = false
below_idle st_relay_cwd = false
below_idle st_relay_size = false
below_idle st_relay_rest_on = false
below_idle st_relay_rest_off = false
below_idle st_relay_stor = false
below_idle st_relay_retr = false
below_idle st_relay_226 = false
below_idle st_pwd_internal = false
below_idle st_test = false
below_idle _ = true

-- The ids of handler.h; the id of a command that the session takes itself is a state.
pub data Event : Type 0 where
  -- an id that is not above 0, for which nothing is reported
  no_event : Event
  state_event : SessionState → Event
  dirlist_sendto_user quote_reply cwd_reply pwd_reply pwd_reply_internal size_reply : Event
  dele_reply mkd_reply rmd_reply site_reply rnfr_reply rnto_reply mdtm_reply : Event
  phase_1_src_cwd phase_1_dst_cwd phase_1_dst_mkd phase_1_dst_cwd2 : Event
  phase_2_src_secure phase_2_dst_secure phase_2_off : Event
  phase_3_src_prot phase_3_dst_prot : Event
  phase_4_type : Event
  phase_5_src_size phase_5_dst_size : Event
  phase_6_pret : Event
  phase_7_pasv : Event
  phase_8_port : Event
  phase_9_src_rest phase_9_dst_rest phase_9_src_rest2 phase_9_dst_rest2 : Event
  phase_10_stor : Event
  phase_11_retr phase_11_abor : Event
  phase_12_src_226 phase_12_dst_226 phase_12_noop : Event
  dir_1_src_cwd dir_1_dst_cwd : Event
  dir_2_src_dirlist dir_2_dst_dirlist dir_2_dst_mkd : Event

-- What a session reports to its handler: SESSION_EVENT_IDLE, _LOG, _CMD with an id, a reply code and
-- the line, and _LOST. A reply of -1 marks a line before the last.
pub data SessionEvent : Type 0 where
  ev_idle : SessionEvent
  ev_log : Text → SessionEvent
  ev_cmd : Event → ℤ → Text → SessionEvent
  ev_lost : Text → SessionEvent
