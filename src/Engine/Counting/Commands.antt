-- ===== src/Engine/Counting/Commands.antt =====
-- The commands of a transfer keep the counters of the queue.
use fxp_one.Prelude.{ℕ, Bool, true, false, Option, none, some, Text}
use fxp_one.Lion.{Lion}
use fxp_one.Queue.Types.{Side}
use fxp_one.Session.Events.{Event}
use fxp_one.Session.{Flags, Session}
use fxp_one.Engine.World.{World, Call, session, put_session}
use fxp_one.Engine.Commands.{
  session_type, session_ccsn, session_sscn, session_prot, session_cwd, session_size, session_rest,
  session_stor, session_retr, listen, send_port, session_dirlist,
}
use fxp_one.Engine.Counting.{IsCountedWorld, Keeps, IsKeeping, put_session-counted}
use fxp_one.Engine.Counting.Sessions.{command_rules, cached_reply-Keeps, switch_mode-Keeps}

module _ (call : Call) (good : IsKeeping call) where
  pub session_type-Keeps :
      (side : Side) (flags : Flags) (id : Option Event) (want : Bool) (w : World)
      → IsCountedWorld w
      → Keeps (session_type call side flags id want w)
  unfolding session_type
  session_type-Keeps side flags id want w c =
      search (command_rules, cached_reply-Keeps, switch_mode-Keeps)

  pub session_ccsn-Keeps :
      (side : Side) (flags : Flags) (id : Option Event) (want : Bool) (w : World)
      → IsCountedWorld w
      → Keeps (session_ccsn call side flags id want w)
  unfolding session_ccsn
  session_ccsn-Keeps side flags id want w c =
      search (command_rules, cached_reply-Keeps, switch_mode-Keeps)

  pub session_sscn-Keeps :
      (side : Side) (flags : Flags) (id : Option Event) (want : Bool) (w : World)
      → IsCountedWorld w
      → Keeps (session_sscn call side flags id want w)
  unfolding session_sscn
  session_sscn-Keeps side flags id want w c =
      search (command_rules, cached_reply-Keeps, switch_mode-Keeps)

  pub session_prot-Keeps :
      (side : Side) (flags : Flags) (id : Option Event) (want : Bool) (w : World)
      → IsCountedWorld w
      → Keeps (session_prot call side flags id want w)
  unfolding session_prot
  session_prot-Keeps side flags id want w c =
      search (command_rules, cached_reply-Keeps, switch_mode-Keeps)

  pub session_cwd-Keeps :
      (side : Side) (flags : Flags) (id : Option Event) (want : Option Text) (w : World)
      → IsCountedWorld w
      → Keeps (session_cwd call side flags id want w)
  unfolding session_cwd
  session_cwd-Keeps side flags id none w c = search command_rules
  session_cwd-Keeps side flags id (some want) w c = search (command_rules, cached_reply-Keeps)

  pub session_size-Keeps :
      (side : Side) (flags : Flags) (id : Event) (want : Text) (w : World)
      → IsCountedWorld w
      → Keeps (session_size call side flags id want w)
  unfolding session_size
  session_size-Keeps side flags id want w c = search (command_rules, cached_reply-Keeps)

  pub session_rest-Keeps :
      (side : Side) (flags : Flags) (id : Option Event) (want : ℕ) (w : World)
      → IsCountedWorld w
      → Keeps (session_rest call side flags id want w)
  unfolding session_rest
  session_rest-Keeps side flags id want w c = search (command_rules, cached_reply-Keeps)

  pub session_stor-Keeps :
      (side : Side) (flags : Flags) (start end_id : Event) (file : Text) (w : World)
      → IsCountedWorld w
      → Keeps (session_stor call side flags start end_id file w)
  unfolding session_stor
  session_stor-Keeps side flags start end_id file w c = search command_rules

  pub session_retr-Keeps :
      (side : Side) (flags : Flags) (start end_id : Event) (file : Text) (w : World)
      → IsCountedWorld w
      → Keeps (session_retr call side flags start end_id file w)
  unfolding session_retr
  session_retr-Keeps side flags start end_id file w c = search command_rules

  pub ruleset mode_rules = (
    command_rules, session_type-Keeps, session_ccsn-Keeps, session_sscn-Keeps, session_prot-Keeps,
    session_rest-Keeps,
  )

  listen-counted : (side : Side) (w : World) → IsCountedWorld w → IsCountedWorld (listen side w)
  unfolding listen
  listen-counted side w c = by_session (session side w)
    where
      by_session :
          (o : Option Session)
          → IsCountedWorld (elim o [
            | none ↦ w
            | some s ↦
                put_session side
                  (record s { link = some (record { secured = false; reading = true }) })
                  w
          ])
      by_session none = c
      by_session (some s) = put_session-counted side _ w c

  send_port-Keeps :
      (port : Option Text) (args : Text) (flags : Flags) (side : Side) (w : World)
      → IsCountedWorld w
      → Keeps (send_port call port args flags side w)
  unfolding send_port
  send_port-Keeps none args flags side w c = search mode_rules
  send_port-Keeps (some port) args flags side w c = search (mode_rules, listen-counted)

  pub session_dirlist-Keeps :
      (lion : Lion) (side : Side) (args : Text) (flags : Flags) (id : Event) (w : World)
      → IsCountedWorld w
      → Keeps (session_dirlist call lion side args flags id w)
  unfolding session_dirlist
  session_dirlist-Keeps lion side args flags id w c =
      search (mode_rules, send_port-Keeps) depth 24 fits 6000
