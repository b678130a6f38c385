-- ===== src/Engine/Counting/Control/Signals.antt =====
-- Every signal of a control connection and of a data connection keeps the counters.
use fxp_one.Prelude.{ℕ, List, [], ◌∷◌, Option, none, some, Text, ℤ}
use fxp_one.Lion.{Lion}
use fxp_one.Queue.Types.{Side}
use fxp_one.Session.Events.{SessionState, st_connecting, Event}
use fxp_one.Session.{Session, Cmd}
use fxp_one.Engine.World.{World, Call}
use fxp_one.Engine.Control.Moves.{Answer}
use fxp_one.Engine.Control.Machine.{
  process_state, session_state_process, state_of, follow_id, relay, answer_command, after_reply,
  take_reply, session_cmdq_reply, reply_line, follow_internal, follow_line, log_event, other_line,
  session_input, session_handler, Signal, connected, enabled, failed, closed, input,
}
use fxp_one.Engine.Control.Data.{
  data_handler, DataSignal, data_connected, data_new, data_lost, data_closed, data_enabled,
  data_failed, data_line, forget_link, lose_data, end_data, accept_data,
}
use fxp_one.Engine.Counting.{IsCountedWorld, Keeps, IsKeeping, Keeps-option, Keeps-some}
use fxp_one.Engine.Counting.Control.{control_rules}
use fxp_one.Engine.Counting.Control.Cases.{state_rules}

module _ (lion : Lion) (call : Call) (good : IsKeeping call) (side : Side) where
  process_state-Keeps :
      (st : SessionState) (reply : Answer) (line : Option Text) (w : World)
      → IsCountedWorld w
      → Keeps (process_state lion call side st reply line w)
  unfolding process_state
  process_state-Keeps st_connecting reply line w c = search state_rules
  process_state-Keeps st reply line w c = search state_rules

  session_state_process-Keeps :
      (reply : Answer) (line : Option Text) (w : World)
      → IsCountedWorld w
      → Keeps (session_state_process lion call side reply line w)
  unfolding session_state_process
  session_state_process-Keeps reply line w c = search (control_rules, process_state-Keeps)

  follow_id-Keeps :
      (id : Event) (w : World) → IsCountedWorld w → Keeps (follow_id lion call side id w)
  unfolding follow_id
  follow_id-Keeps id w c =
      Keeps-option (state_of id) _ _ (Keeps-some w c) (λ st. search control_rules)

  relay-Keeps :
      (id : Option Event) (reply : ℤ) (line : Text) (w : World)
      → IsCountedWorld w
      → Keeps (relay lion call side id reply line w)
  unfolding relay
  relay-Keeps none reply line w c = search control_rules
  relay-Keeps (some id) reply line w c = search control_rules

  answer_command-Keeps :
      (d : Cmd) (reply : ℕ) (line : Text) (w : World)
      → IsCountedWorld w
      → Keeps (answer_command lion call side d reply line w)
  unfolding answer_command
  answer_command-Keeps d reply line w c =
      search (control_rules, follow_id-Keeps, session_state_process-Keeps, relay-Keeps)

  after_reply-Keeps : (w : World) → IsCountedWorld w → Keeps (after_reply lion call side w)
  unfolding after_reply
  after_reply-Keeps w c = search control_rules

  take_reply-Keeps :
      (s : Session) (cs : List Cmd) (reply : ℕ) (line : Text) (w : World)
      → IsCountedWorld w
      → Keeps (take_reply lion call side s cs reply line w)
  unfolding take_reply
  take_reply-Keeps s [] reply line w c = search control_rules
  take_reply-Keeps s (d ∷ cs) reply line w c =
      search (control_rules, answer_command-Keeps, after_reply-Keeps)

  session_cmdq_reply-Keeps :
      (reply : ℕ) (line : Text) (w : World)
      → IsCountedWorld w
      → Keeps (session_cmdq_reply lion call side reply line w)
  unfolding session_cmdq_reply
  session_cmdq_reply-Keeps reply line w c = search (control_rules, take_reply-Keeps)

  reply_line-Keeps :
      (s : Session) (line : Text) (w : World)
      → IsCountedWorld w
      → Keeps (reply_line lion call side s line w)
  unfolding reply_line
  reply_line-Keeps s line w c =
      search (control_rules, session_cmdq_reply-Keeps, session_state_process-Keeps)

  follow_line-Keeps :
      (d : Cmd) (line : Text) (w : World)
      → IsCountedWorld w
      → Keeps (follow_line lion call side d line w)
  unfolding follow_line follow_internal
  follow_line-Keeps d line w c =
      search (control_rules, follow_id-Keeps, session_state_process-Keeps, relay-Keeps) depth 12

  log_event-Keeps :
      (line : Text) (w : World) → IsCountedWorld w → Keeps (log_event lion call side line w)
  unfolding log_event
  log_event-Keeps line w c = search control_rules

  other_line-Keeps :
      (o : Option Cmd) (line : Text) (w : World)
      → IsCountedWorld w
      → Keeps (other_line lion call side o line w)
  unfolding other_line
  other_line-Keeps none line w c = search (log_event-Keeps)
  other_line-Keeps (some d) line w c = search (control_rules, log_event-Keeps, follow_line-Keeps)

  session_input-Keeps :
      (line : Text) (w : World) → IsCountedWorld w → Keeps (session_input lion call side line w)
  unfolding session_input
  session_input-Keeps line w c =
      search (control_rules, reply_line-Keeps, log_event-Keeps, other_line-Keeps) depth 12

  pub session_handler-Keeps :
      (signal : Signal) (w : World)
      → IsCountedWorld w
      → Keeps (session_handler lion call side signal w)
  unfolding session_handler
  session_handler-Keeps connected w c = search control_rules
  session_handler-Keeps enabled w c = session_state_process-Keeps _ none w c
  session_handler-Keeps failed w c = session_state_process-Keeps _ none w c
  session_handler-Keeps (closed line) w c = search control_rules
  session_handler-Keeps (input line) w c = session_input-Keeps line w c

  pub data_handler-Keeps :
      (signal : DataSignal) (w : World)
      → IsCountedWorld w
      → Keeps (data_handler lion call side signal w)
  unfolding data_handler forget_link lose_data end_data accept_data
  data_handler-Keeps data_connected w c = search control_rules
  data_handler-Keeps data_new w c = search control_rules
  data_handler-Keeps data_lost w c = search control_rules
  data_handler-Keeps data_closed w c = search control_rules
  data_handler-Keeps data_enabled w c = search control_rules
  data_handler-Keeps data_failed w c = search control_rules
  data_handler-Keeps (data_line line) w c = search control_rules
