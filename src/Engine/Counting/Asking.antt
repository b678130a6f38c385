-- ===== src/Engine/Counting/Asking.antt =====
-- The requests of engine/manager.c on a session, as to the counters of its queue.
use fxp_one.Prelude.{ℕ, [], ◌∷◌, Option, none, some, Text}
use fxp_one.Lion.{Lion}
use fxp_one.Queue.Types.{Side}
use fxp_one.Session.Events.{
  Event, dirlist_sendto_user, quote_reply, cwd_reply, pwd_reply, size_reply, dele_reply, mkd_reply,
  rmd_reply, site_reply, rnfr_reply, rnto_reply, mdtm_reply,
}
use fxp_one.Session.{Session, Flags}
use fxp_one.Engine.World.{World, Call, session, manager}
use fxp_one.Engine.Commands.{session_cmdq_newf}
use fxp_one.Engine.Managers.Asking.{
  with_text, refuse, manager_dirlist, manager_quote, manager_cwd, manager_pwd, manager_size,
  manager_mkd, manager_rmd, manager_dele, manager_site, manager_ren, manager_mdtm,
}
use fxp_one.Engine.Counting.{
  IsCountedWorld, Keeps, IsKeeping, Keeps-some, Keeps-if, Keeps-bind, counted_if,
}
use fxp_one.Engine.Counting.Sessions.{session_cmdq_new-Keeps, session_cmdq_newf-Keeps}
use fxp_one.Engine.Counting.Commands.{session_cwd-Keeps, session_dirlist-Keeps}
use fxp_one.Engine.Counting.Control.{call_handler-Keeps}

chosen-counted :
    (o : Option ℕ) (w : World) (f : ℕ → World)
    → IsCountedWorld w
    → ((u : ℕ) → IsCountedWorld (f u))
    → IsCountedWorld (elim o [ none ↦ w | some u ↦ f u ])
chosen-counted none w f c h = c
chosen-counted (some u) w f c h = h u

refused-Keeps :
    (side : Side) (id : Event) (code : ℕ) (w : World)
    → IsCountedWorld w
    → Keeps (some (refuse side id code w))
refused-Keeps side id code w c = Keeps-some _ (
    chosen-counted (manager side w).user w _ c
      (λ u. counted_if (w.online u) _ w (record { counted = c.counted }) c))

session-Keeps :
    (side : Side) (id : Event) (w : World) (o : Option Session) (k : Session → Option World)
    → IsCountedWorld w
    → ((s : Session) → Keeps (k s))
    → Keeps (elim o [ none ↦ some (refuse side id 1507 w) | some s ↦ k s ])
session-Keeps side id w none k c h = refused-Keeps side id 1507 w c
session-Keeps side id w (some s) k c h = h s

text-Keeps :
    (side : Side) (id : Event) (t : Option Text) (w : World) (k : Text → Option World)
    → IsCountedWorld w
    → ((v : Text) → Keeps (k v))
    → Keeps (with_text side id t w k)
text-Keeps side id none w k c h = refused-Keeps side id 1509 w c
text-Keeps side id (some []) w k c h = refused-Keeps side id 1509 w c
text-Keeps side id (some (x ∷ xs)) w k c h = h (x ∷ xs)

module _ (lion : Lion) (call : Call) (good : IsKeeping call) (side : Side) (flags : Flags) where
  sent-Keeps :
      (id : Event) (word arg : Text) (w : World)
      → IsCountedWorld w
      → Keeps (elim (session side w) [
        | none ↦ some (refuse side id 1507 w)
        | some s ↦ session_cmdq_newf call side flags id word arg w
      ])
  sent-Keeps id word arg w c =
      session-Keeps side id w (session side w) _ c
        (λ s. session_cmdq_newf-Keeps call good side flags id word arg w c)

  pub manager_dirlist-Keeps :
      (args path : Option Text) (w : World)
      → IsCountedWorld w
      → Keeps (manager_dirlist lion call side flags args path w)
  unfolding manager_dirlist
  manager_dirlist-Keeps args path w c =
      session-Keeps side dirlist_sendto_user w (session side w) _ c (λ s.
        Keeps-if _ _ _ (call_handler-Keeps call good side _ w c)
          (session_dirlist-Keeps call good lion side _ flags dirlist_sendto_user w c))

  pub manager_quote-Keeps :
      (args : Option Text) (w : World)
      → IsCountedWorld w
      → Keeps (manager_quote lion call side flags args w)
  unfolding manager_quote
  manager_quote-Keeps args w c = session-Keeps side quote_reply w (session side w) _ c (λ s.
      text-Keeps side quote_reply args w _ c
        (λ t. session_cmdq_newf-Keeps call good side flags quote_reply [] _ w c))

  pub manager_cwd-Keeps :
      (args : Option Text) (w : World)
      → IsCountedWorld w
      → Keeps (manager_cwd lion call side flags args w)
  unfolding manager_cwd
  manager_cwd-Keeps args w c = session-Keeps side cwd_reply w (session side w) _ c (λ s.
      text-Keeps side cwd_reply args w _ c
        (λ t. session_cwd-Keeps call good side flags (some cwd_reply) _ w c))

  pub manager_pwd-Keeps :
      (w : World) → IsCountedWorld w → Keeps (manager_pwd lion call side flags w)
  unfolding manager_pwd
  manager_pwd-Keeps w c =
      session-Keeps side pwd_reply w (session side w) _ c
        (λ s. session_cmdq_new-Keeps call good side flags pwd_reply _ w c)

  pub manager_size-Keeps :
      (args : Option Text) (w : World)
      → IsCountedWorld w
      → Keeps (manager_size lion call side flags args w)
  unfolding manager_size
  manager_size-Keeps args w c = session-Keeps side size_reply w (session side w) _ c (λ s.
      text-Keeps side size_reply args w _ c
        (λ t. session_cmdq_newf-Keeps call good side flags size_reply _ t w c))

  -- The requests that send one command with an argument.
  pub sending-Keeps :
      (t : Text) (w : World)
      → IsCountedWorld w
      → Keeps (manager_mkd lion call side flags t w)
        × Keeps (manager_rmd lion call side flags t w)
        × Keeps (manager_dele lion call side flags t w)
        × Keeps (manager_site lion call side flags t w)
        × Keeps (manager_mdtm lion call side flags t w)
  unfolding manager_mkd manager_rmd manager_dele manager_site manager_mdtm
  sending-Keeps t w c = (
    sent-Keeps mkd_reply _ _ w c,
    sent-Keeps rmd_reply _ _ w c,
    sent-Keeps dele_reply _ _ w c,
    sent-Keeps site_reply _ _ w c,
    sent-Keeps mdtm_reply _ _ w c,
  )

  pub manager_ren-Keeps :
      (from to : Text) (w : World)
      → IsCountedWorld w
      → Keeps (manager_ren lion call side flags from to w)
  unfolding manager_ren
  manager_ren-Keeps from to w c = session-Keeps side rnfr_reply w (session side w) _ c (λ s.
      Keeps-bind _ _ (session_cmdq_newf-Keeps call good side flags rnfr_reply _ from w c)
        (λ v h. session_cmdq_newf-Keeps call good side flags rnto_reply _ to v h))
