-- ===== src/Engine/Counting/Rules.antt =====
-- The rules by which a step of the queue is seen to keep the counters.
use fxp_one.Prelude.{Bool, true, false, Option, none, some, Text, if◌then◌else◌, refl}
use fxp_one.Lion.{Lion}
use fxp_one.Queue.Types.{Qitem}
use fxp_one.Engine.World.{World, Call, notify, qs_start_directory, qs_equalsize, on_head, set_state}
use fxp_one.Engine.Process.{
  secure_off, ask_secure, fail_insisting, resume_with, is_remove, tell_paths,
}
use fxp_one.Queue.Types.{QueueState, Side}
use fxp_one.Engine.Counting.{
  IsCountedWorld, Keeps, IsKeeping, keeps_rules, Keeps-bind, Keeps-on_head, Keeps-some,
  counted_like, counted_if,
}
use fxp_one.Engine.Counting.Commands.{
  mode_rules, session_cwd-Keeps, session_size-Keeps, session_stor-Keeps, session_retr-Keeps,
  session_dirlist-Keeps,
}
use fxp_one.Engine.Counting.Replies.{notify-counted}

pub fail_insisting-Keeps :
    (lion : Lion) (call : Call) (b : Bool) (f : Qitem → Qitem) (w : World)
    → IsCountedWorld w
    → Keeps (fail_insisting lion call b f w)
unfolding fail_insisting
fail_insisting-Keeps lion call true f w c = search keeps_rules
fail_insisting-Keeps lion call false f w c = search keeps_rules

pub resume_with-Keeps :
    (lion : Lion) (call : Call) (p : QueueState × Qitem) (w : World)
    → IsCountedWorld w
    → Keeps (resume_with lion call p w)
unfolding resume_with notify
resume_with-Keeps lion call (st, x) w c =
    Keeps-bind (on_head (λ y. x) (set_state st w)) _
      (Keeps-on_head (λ y. x) _ (counted_like w _ c refl refl refl refl))
      (λ v d.
        let told = if is_remove st then notify qs_equalsize v else v in
        Keeps-some _ (
          counted_like told _
            (counted_if (is_remove st) _ v (counted_like v _ d refl refl refl refl) d) refl refl
            refl refl))

pub tell_paths-counted :
    (x : Qitem) (w : World) → IsCountedWorld w → IsCountedWorld (tell_paths x w)
tell_paths-counted x w c = by_paths x.src.fullpath x.dst.fullpath
  where
    by_paths :
        (s d : Option Text)
        → IsCountedWorld (elim s [
          | none ↦ w
          | some a ↦ elim d [ none ↦ w | some b ↦ notify (qs_start_directory (some a) (some b)) w ]
        ])
    by_paths none d = c
    by_paths (some a) none = c
    by_paths (some a) (some b) = notify-counted (qs_start_directory (some a) (some b)) w c

module _ (lion : Lion) (call : Call) (good : IsKeeping call) where
  pub secure_off-Keeps : (w : World) → IsCountedWorld w → Keeps (secure_off lion call w)
  unfolding secure_off
  secure_off-Keeps w c = search mode_rules

  pub ask_secure-Keeps :
      (src dst : Side) (w : World) → IsCountedWorld w → Keeps (ask_secure lion call src dst w)
  unfolding ask_secure
  ask_secure-Keeps src dst w c = search mode_rules depth 9

  pub ruleset step_rules = (
    mode_rules, session_cwd-Keeps, session_size-Keeps, session_stor-Keeps, session_retr-Keeps,
    session_dirlist-Keeps, notify-counted, secure_off-Keeps, ask_secure-Keeps, fail_insisting-Keeps,
    resume_with-Keeps, tell_paths-counted,
  )
