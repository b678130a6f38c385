-- ===== src/Engine/Managers/Asking/Laws.antt =====
-- What requests leave behind: without a session a message, with one the commands in their order.
use fxp_one.Prelude.{true, List, [], ◌∷◌, ◌++◌, none, some, Text, codes, ◌≡◌, arith, ap, ◌∙◌}
use fxp_one.Lion.{Lion}
use fxp_one.Queue.Types.{Side}
use fxp_one.Session.Events.{rnfr_reply, rnto_reply}
use fxp_one.Session.{Session, Cmd, Flags}
use fxp_one.Engine.World.{World, Call, session, put_session}
use fxp_one.Engine.Commands.{restart}
use fxp_one.Engine.Commands.Pending.{queued, queued_cmdq}
use fxp_one.Engine.Control.Laws.{session-put, put-put}
use fxp_one.Engine.Control.Insisting.{asking, session_cmdq_newf-queues}
use fxp_one.Engine.Managers.Asking.{refuse, manager_ren}

restart-online : (t : Session) → (restart t).0.online ≡ t.online
unfolding restart
restart-online t = by_list t.cmdq
  where
    by_list : (cs : List Cmd) → (restart (record t { cmdq = cs })).0.online ≡ t.online
    by_list [] = ground arith
    by_list (c ∷ cs) = ground arith

queued-online : (s : Session) (c : Cmd) → (queued s c).online ≡ s.online
unfolding queued
queued-online s c = restart-online (record s { cmdq = s.cmdq ++ c ∷ [] })

module _ (lion : Lion) (call : Call) (side : Side) (flags : Flags) (from to : Text) where
  -- REN without a session changes nothing but what is told to the user; with one that is open it puts
  -- RNFR and RNTO behind the commands that wait, in this order, whatever comes of RNFR.
  pub manager_ren-queues :
      (w : World)
      → (session side w ≡ none
          → manager_ren lion call side flags from to w ≡ some (refuse side rnfr_reply 1507 w))
        × ((s : Session)
            → session side w ≡ some s
            → s.online ≡ true
            → (t : Session) × (manager_ren lion call side flags from to w
                ≡ some (put_session side t w))
              × (t.cmdq
                  ≡ (s.cmdq ++ asking flags rnfr_reply (codes "RNFR ") from ∷ [])
                    ++ asking flags rnto_reply (codes "RNTO ") to ∷ []))
  unfolding manager_ren
  manager_ren-queues w = (
    λ e. ground arith,
    λ s e up.
        let c = asking flags rnfr_reply (codes "RNFR ") from in
        let d = asking flags rnto_reply (codes "RNTO ") to in
        let s' = queued s c in
        let first =
          session_cmdq_newf-queues call side flags rnfr_reply (codes "RNFR ") from w s e up in
        let second =
          session_cmdq_newf-queues call side flags rnto_reply (codes "RNTO ") to
            (put_session side s' w) s' (session-put side s' w) (queued-online s c ∙ up) in
        (
          queued s' d,
          ground (arith, e, first, second, put-put side s' (queued s' d) w),
          queued_cmdq s' d ∙ ap (λ (cs : List Cmd). cs ++ d ∷ []) (queued_cmdq s c),
        ),
  )
