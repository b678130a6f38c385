-- ===== src/Engine/Commands/Pending.antt =====
-- What giving a session a command does.
use fxp_one.Prelude.{true, false, List, [], ◌∷◌, ◌++◌, Option, some, ◌≡◌, refl, Text, arith}
use fxp_one.Session.Events.{Event}
use fxp_one.Session.{Flags, Cmd, Session, no_commands, session_isidle}
use fxp_one.Queue.Types.{Side}
use fxp_one.Engine.World.{World, Call, session, put_session}
use fxp_one.Engine.Commands.{restart, cmdq_new_internal, cmdq_new-settles}

-- The session with one more command, which is sent at once if the session waits.
unfoldable pub queued : Session → Cmd → Session
unfolding restart
queued s c = (restart (record s { cmdq = s.cmdq ++ c ∷ [] })).0

pub restart-silent : (s : Session) → no_commands s.cmdq ≡ false → (restart s).1 ≡ false
unfolding restart
restart-silent s h = ground arith

pub append-some : (cs : List Cmd) (c : Cmd) → no_commands (cs ++ c ∷ []) ≡ false
append-some [] c = refl
append-some (d ∷ cs) c = refl

pub queued_cmdq : (s : Session) (c : Cmd) → (queued s c).cmdq ≡ s.cmdq ++ c ∷ []
unfolding queued restart
queued_cmdq s c = by_list (s.cmdq ++ c ∷ [])
  where
    by_list : (cs : List Cmd) → (restart (record s { cmdq = cs })).0.cmdq ≡ cs
    by_list [] = ground arith
    by_list (d ∷ cs) = ground arith

queued_busy : (s : Session) (c : Cmd) → session_isidle (some (queued s c)) ≡ false
unfolding session_isidle
queued_busy s c = rw (queued_cmdq s c, append-some s.cmdq c)

module _ (call : Call) (side : Side) (flags : Flags) (id : Event) (subid : Option Event)
    (line : Text) where
  abbrev pub new_cmd : Cmd
  new_cmd = record { cmd = line; id = id; subid = subid; flags = flags }

  -- A command that an open session is given goes to the end of its queue, the session is not idle
  -- afterwards, and nothing else changes: no event is raised, whatever handles events.
  pub cmdq_new_internal-appends :
      (w : World) (s : Session)
      → session side w ≡ some s
      → s.online ≡ true
      → (cmdq_new_internal call side flags id subid line w
          ≡ some (put_session side (queued s new_cmd) w))
        × ((queued s new_cmd).cmdq ≡ s.cmdq ++ new_cmd ∷ [])
        × (session_isidle (some (queued s new_cmd)) ≡ false)
  unfolding queued
  cmdq_new_internal-appends w s h up = (
    cmdq_new-settles call side flags id subid line w s h up
        (restart-silent (record s { cmdq = s.cmdq ++ new_cmd ∷ [] }) (append-some s.cmdq new_cmd)),
    queued_cmdq s new_cmd,
    queued_busy s new_cmd,
  )
