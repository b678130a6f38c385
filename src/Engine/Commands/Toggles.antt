-- ===== src/Engine/Commands/Toggles.antt =====
-- session_type, session_ccsn, session_sscn, session_prot: a command that switches a mode is sent only
-- if the session is not known to be in that mode.
use fxp_one.Prelude.{
  Bool, true, false, not, ◌&&◌, ◌||◌, ◌++◌, Option, none, some, Text, codes, ℤ, pos, if◌then◌else◌,
  ◌>>=◌,
}
use fxp_one.Site.{is_no, is_auto}
use fxp_one.Session.Events.{
  SessionState, st_relay_type_ascii, st_relay_type_binary, st_relay_ccsn_off, st_relay_ccsn_on,
  st_relay_sscn_off, st_relay_sscn_on, st_relay_privacy_off, st_relay_privacy_on, Event,
  state_event, ev_cmd,
}
use fxp_one.Session.{Flags, no_flags, internally, Session}
use fxp_one.Queue.Types.{Side}
use fxp_one.Engine.World.{World, Call, session}
use fxp_one.Engine.Commands.Queueing.{raise, cmdq_new_internal, session_set_handler, crlf}

-- The state that takes the reply, what goes to the server, and the reply that is made up if nothing
-- has to be sent.
pub record Switch : Type 0 where
  pub state : SessionState
  pub line : Text
  pub cached : Text

unfoldable pub type_switch : Bool → Switch
type_switch true = record {
  state = st_relay_type_binary;
  line = codes "TYPE I" ++ crlf;
  cached = codes "200 Type set to I. (cached)";
}
type_switch false = record {
  state = st_relay_type_ascii;
  line = codes "TYPE A" ++ crlf;
  cached = codes "200 Type set to A. (cached)";
}

-- The text "(cached)" is part of what is sent.
ccsn_switch : Bool → Switch
ccsn_switch true = record {
  state = st_relay_ccsn_on;
  line = codes "CCSN ON (cached)" ++ crlf;
  cached = codes "200 Client Mode (cached)";
}
ccsn_switch false = record {
  state = st_relay_ccsn_off;
  line = codes "CCSN OFF (cached)" ++ crlf;
  cached = codes "200 Server Mode (cached)";
}

sscn_switch : Bool → Switch
sscn_switch true = record {
  state = st_relay_sscn_on;
  line = codes "SSCN ON" ++ crlf;
  cached = codes "200 Client Mode (cached)";
}
sscn_switch false = record {
  state = st_relay_sscn_off;
  line = codes "SSCN OFF" ++ crlf;
  cached = codes "200 Server Mode (cached)";
}

unfoldable pub prot_switch : Bool → Switch
prot_switch true = record {
  state = st_relay_privacy_on;
  line = codes "PROT P" ++ crlf;
  cached = codes "200 OK (cached)";
}
prot_switch false = record {
  state = st_relay_privacy_off;
  line = codes "PROT C" ++ crlf;
  cached = codes "200 OK (cached)";
}

abbrev same_mode : Bool → Bool → Bool
same_mode true b = b
same_mode false b = not b

module _ (call : Call) where
  unfoldable pub reply_to : Option Event → Session → Side → ℤ → Text → World → Option World
  unfolding raise
  reply_to none s side code text w = some w
  reply_to (some id) s side code text w = raise call s.handler side (ev_cmd id code text) w

  -- The made-up reply, and IDLE by setting the same handler again.
  unfoldable pub cached_reply : Option Event → Session → Side → ℤ → Text → World → Option World
  unfolding reply_to
  cached_reply id s side code text w = do
    w ← reply_to id s side code text w
    session_set_handler call side s.handler w

  unfoldable pub switch_mode :
      Side → Session → Flags → Option Event → Bool → Switch → World → Option World
  switch_mode side s flags id known sw w =
      if not flags.flag_force && known
      then cached_reply id s side (pos 200) sw.cached w
      else cmdq_new_internal call side (internally no_flags) (state_event sw.state) id sw.line w

  unfoldable pub session_type : Side → Flags → Option Event → Bool → World → Option World
  unfolding switch_mode type_switch
  session_type side flags id want w = elim (session side w) [
    | none ↦ none
    | some s ↦ switch_mode side s flags id (same_mode want s.status.on_binary) (type_switch want) w
  ]

  unfoldable pub session_ccsn : Side → Flags → Option Event → Bool → World → Option World
  unfolding switch_mode ccsn_switch
  session_ccsn side flags id want w = elim (session side w) [
    | none ↦ none
    | some s ↦
        if is_no s.site.data_tls || is_auto s.site.data_tls && not s.features.has_ccsn
        then some w
        else switch_mode side s flags id (same_mode want s.status.on_ccsn) (ccsn_switch want) w
  ]

  unfoldable pub session_sscn : Side → Flags → Option Event → Bool → World → Option World
  unfolding switch_mode sscn_switch
  session_sscn side flags id want w = elim (session side w) [
    | none ↦ none
    | some s ↦
        if is_no s.site.data_tls || is_auto s.site.data_tls && not s.features.has_sscn
        then some w
        else switch_mode side s flags id (same_mode want s.status.on_sscn) (sscn_switch want) w
  ]

  unfoldable pub session_prot : Side → Flags → Option Event → Bool → World → Option World
  unfolding switch_mode prot_switch
  session_prot side flags id want w = elim (session side w) [
    | none ↦ none
    | some s ↦ switch_mode side s flags id (same_mode want s.status.on_privacy) (prot_switch want) w
  ]
