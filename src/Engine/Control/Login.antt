-- ===== src/Engine/Control/Login.antt =====
-- session_state_process, the cases from the connection to the login, and session_send_xdupe.
use fxp_one.Prelude.{
  Bool, true, false, not, ◌&&◌, ◌||◌, [], ◌∷◌, ◌++◌, Option, none, some, Text, codes, contains,
  case_starts_with, if◌then◌else◌, ◌>>=◌,
}
use fxp_one.Lion.{Lion}
use fxp_one.Site.{Site, is_yes, is_no, extra_yna}
use fxp_one.Session.Events.{
  SessionState, st_sent_cmd, st_await_220, st_tls_start, st_tls_phase_tls, st_tls_phase_ssl,
  st_tls_init, st_tls_wait, st_login_start, st_login_sent_user, st_login_sent_pass, st_reply_pbsz,
  st_misc, st_misc_reply_syst, st_misc_reply_clnt, st_misc_reply_feat, st_misc_reply_xdupe, st_idle,
  state_event, no_event,
}
use fxp_one.Session.{Session, no_flags, internally}
use fxp_one.Queue.Types.{Side}
use fxp_one.Engine.World.{World, Call, at_session}
use fxp_one.Engine.Commands.{session_cmdq_new, session_cmdq_newf, session_setclose, crlf}
use fxp_one.Engine.Control.Moves.{
  Answer, secure_enabled, secure_failed, is_code, is_answer, printed_line, change, move_to, enter,
  release, code,
}

abbrev pub tls_session : Session → Session
tls_session s = record s {
  features = record s.features { has_ssl = true };
  status = record s.status { on_ssl = true };
}

abbrev on_secured : Answer → Bool
on_secured (code r) = false
on_secured secure_enabled = true
on_secured secure_failed = false

abbrev on_refused : Answer → Bool
on_refused (code r) = false
on_refused secure_enabled = false
on_refused secure_failed = true

-- features &= ~FEATURE_..., if the site says FEAT_...=NO
allowed : Lion → Site → Text → Bool → Bool
allowed lion site key b = if is_no (extra_yna lion site key) then false else b

-- What a line of the reply to FEAT says.
unfoldable pub learn_features : Lion → Text → Session → Session
unfolding allowed
learn_features lion line s =
    let f = s.features in
    let xdupe = case_starts_with (codes "+XDUPE") line in
    record s {
      features = record f {
        has_ccsn =
            allowed lion s.site (codes "FEAT_CCSN")
              (lion.same_text (codes "+CCSN") line || f.has_ccsn);
        has_sscn =
            allowed lion s.site (codes "FEAT_SSCN")
              (lion.same_text (codes "+SSCN") line || f.has_sscn);
        has_pret =
            allowed lion s.site (codes "FEAT_PRET")
              (lion.same_text (codes "+PRET") line || f.has_pret);
        has_xdupe = xdupe || f.has_xdupe;
      };
      status = record s.status {
        on_xdupe = xdupe && contains (codes "Enabled") line || s.status.on_xdupe;
      };
    }

module _ (lion : Lion) (call : Call) (side : Side) where
  -- A command of the session's own, whose reply sets the state.
  abbrev ask : SessionState → Text → World → Option World
  ask st line w = session_cmdq_newf call side (internally no_flags) (state_event st) line [] w

  -- The site insists on TLS, or is served without.
  unfoldable pub refused : World → Option World
  unfolding release
  refused w = at_session side w λ s.
      if is_yes s.site.control_tls
      then session_setclose call side (codes "AUTH TLS/SSL Failed during challenge") w
      else release call side w

  unfoldable pub process_connecting : Answer → World → Option World
  unfolding change refused
  process_connecting secure_enabled w = change call side tls_session w
  process_connecting secure_failed w = refused w
  process_connecting (code r) w = some w

  unfoldable pub process_connected : World → Option World
  unfolding change
  process_connected w = change call side (λ s. record s { isidle = true; state = st_await_220 }) w

  unfoldable pub process_tls_start : World → Option World
  unfolding move_to
  process_tls_start w = do
    w ← session_cmdq_newf call side (internally no_flags) no_event (codes "AUTH TLS") [] w
    move_to call side st_tls_phase_tls w

  unfoldable pub process_login_start : World → Option World
  unfolding move_to
  process_login_start w = at_session side w λ s. do
    w ←
        session_cmdq_newf call side (internally no_flags) (state_event st_login_sent_user)
          (codes "USER ") s.site.user w
    move_to call side st_sent_cmd w

  unfoldable pub process_await_220 : Answer → World → Option World
  unfolding enter process_tls_start process_login_start
  process_await_220 reply w = at_session side w λ s.
      if not (is_code reply 220)
      then some w
      else if not (is_no s.site.control_tls) && not s.status.on_ssl
      then enter call side st_tls_start process_tls_start w
      else enter call side st_login_start process_login_start w

  -- lion_ssl_set begins the challenge; what comes of it is an event of its own.
  unfoldable pub process_tls_init : World → Option World
  unfolding move_to
  process_tls_init w = move_to call side st_tls_wait w

  -- Nothing is sent until the challenge is over.
  begin_tls : World → Option World
  unfolding change enter process_tls_init
  begin_tls w = do
    w ← change call side (λ s. record s { forcebusy = true }) w
    enter call side st_tls_init process_tls_init w

  unfoldable pub process_tls_phase_tls : Answer → World → Option World
  unfolding begin_tls
  process_tls_phase_tls reply w =
      if is_code reply 234
      then begin_tls w
      else if is_answer reply
      then ask st_tls_phase_ssl (codes "AUTH SSL") w
      else some w

  unfoldable pub process_tls_phase_ssl : Answer → World → Option World
  unfolding enter process_tls_init process_login_start
  process_tls_phase_ssl reply w = at_session side w λ s.
      if is_code reply 234
      then enter call side st_tls_init process_tls_init w
      else if not (is_answer reply)
      then some w
      else if is_yes s.site.control_tls
      then session_setclose call side (codes "AUTH TLS/SSL Failed") w
      else enter call side st_login_start process_login_start w

  unfoldable pub process_tls_wait : Answer → World → Option World
  unfolding change enter process_login_start release refused
  process_tls_wait secure_enabled w = do
    w ← change call side tls_session w
    w ← enter call side st_login_start process_login_start w
    release call side w
  process_tls_wait secure_failed w = refused w
  process_tls_wait (code r) w = some w

  unfoldable pub process_login_sent_user : Answer → Option Text → World → Option World
  process_login_sent_user reply line w = at_session side w λ s.
      if is_code reply 331
      then session_cmdq_newf call side (internally no_flags) (state_event st_login_sent_pass)
          (codes "PASS ") s.site.pass w
      else if is_answer reply
      then session_setclose call side (printed_line line) w
      else some w

  -- The answer to FEAT comes last, and in many lines.
  unfoldable pub process_misc : World → Option World
  unfolding move_to
  process_misc w = do
    w ← move_to call side st_idle w
    w ← at_session side w λ s.
        if s.features.has_ssl
        then session_cmdq_new call side (internally no_flags) (state_event st_reply_pbsz)
            (codes "PBSZ 1024" ++ crlf) w
        else some w
    w ← ask st_misc_reply_syst (codes "SYST") w
    w ←
        session_cmdq_newf call side (internally no_flags) (state_event st_misc_reply_clnt)
          (codes "CLNT FXP.One engine ") (lion.version ++ codes " ") w
    session_cmdq_newf call side (internally (record no_flags { flag_log = true }))
        (state_event st_misc_reply_feat) (codes "FEAT") [] w

  unfoldable pub process_login_sent_pass : Answer → Option Text → World → Option World
  unfolding enter process_misc
  process_login_sent_pass reply line w =
      if is_code reply 230
      then enter call side st_misc process_misc w
      else if is_answer reply
      then session_setclose call side (printed_line line) w
      else some w

  -- X-DUPE is asked for if the site says YES, or if FEAT named it and it is not on already.
  unfoldable pub session_send_xdupe : World → Option World
  unfolding change
  session_send_xdupe w = at_session side w λ s.
      let wanted = extra_yna lion s.site (codes "USE_XDUPE") in
      if is_yes wanted || s.features.has_xdupe && not s.status.on_xdupe
      then session_cmdq_new call side (internally no_flags) (state_event st_misc_reply_xdupe)
          (codes "SITE XDUPE 3" ++ crlf) w
      else if is_no wanted
      then change call side (λ s. record s { status = record s.status { on_xdupe = false } }) w
      else some w

  unfoldable pub process_misc_reply_feat : Option Text → World → Option World
  unfolding change learn_features session_send_xdupe
  process_misc_reply_feat none w = some w
  process_misc_reply_feat (some []) w = some w
  process_misc_reply_feat (some (c ∷ cs)) w = do
    w ← change call side (learn_features lion (c ∷ cs)) w
    session_send_xdupe w

  unfoldable pub process_misc_reply_xdupe : Answer → World → Option World
  unfolding change
  process_misc_reply_xdupe reply w =
      if is_code reply 200
      then change call side (λ s. record s { status = record s.status { on_xdupe = true } }) w
      else some w
