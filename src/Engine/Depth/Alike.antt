-- ===== src/Engine/Depth/Alike.antt =====
-- Handling an event that a handler's own commands raise does not depend on who takes the next ones.
use fxp_one.Prelude.{
  Bool, true, false, not, [], ◌∷◌, ◌++◌, Option, none, some, Text, ◌≡◌, refl, sym, ◌∙◌, ap, ℤ,
  if◌then◌else◌, ◌>>=◌, codes, ◌==◌,
}
use fxp_one.Lion.{Lion}
use fxp_one.Queue.Types.{Side}
use fxp_one.Session.Events.{ev_idle, ev_cmd, Event, phase_1_dst_mkd, phase_1_dst_cwd2}
use fxp_one.Session.{Session, Cmd, Flags, no_flags, Handler, handler_withuser, handler_queue}
use fxp_one.Engine.World.{World, Call, session, manager}
use fxp_one.Engine.Commands.{
  restart, session_cmdq_restart, add_command, session_cmdq_newf, settle-silent,
}
use fxp_one.Engine.Commands.Pending.{restart-silent, append-some}
use fxp_one.Engine.Handlers.{
  handle, to_handler, on_queue, queue_event, on_queue_cmd, send_mkd, dst_cwd, dst_cwd2,
  mkdname_decrease, is_2xx, is_failure, fail_dst,
}

-- A command that is given to a session raises no event, so it does not matter who would take it.
pub add_command-same :
    (call other : Call) (side : Side) (s : Session) (c : Cmd) (w : World)
    → add_command call side s c w ≡ add_command other side s c w
unfolding add_command session_cmdq_restart
add_command-same call other side s c w =
    let t = record s { cmdq = s.cmdq ++ c ∷ [] } in
    let silent = restart-silent t (append-some s.cmdq c) in
    ap (λ v. if not s.online then some w else v)
      (settle-silent call side w (restart t) silent
        ∙ sym (settle-silent other side w (restart t) silent))

-- Two continuations that agree.
pub option-same {ℓ} :
    {A : Type ℓ} (o : Option A) (x : Option World) (k l : A → Option World)
    → ((a : A) → k a ≡ l a)
    → elim o [ none ↦ x | some a ↦ k a ] ≡ elim o [ none ↦ x | some a ↦ l a ]
option-same none x k l e = refl
option-same (some a) x k l e = e a

pub bind-same {ℓ} :
    {A : Type ℓ} (o : Option A) (k l : A → Option World)
    → ((a : A) → k a ≡ l a)
    → (o >>= k) ≡ (o >>= l)
bind-same none k l e = refl
bind-same (some a) k l e = e a

pub if-same :
    (b : Bool) (x y u v : Option World)
    → x ≡ u
    → y ≡ v
    → (if b then x else y) ≡ (if b then u else v)
if-same true x y u v e f = e
if-same false x y u v e f = f

newf-same :
    (call other : Call) (side : Side) (flags : Flags) (id : Event) (word arg : Text) (w : World)
    → session_cmdq_newf call side flags id word arg w
      ≡ session_cmdq_newf other side flags id word arg w
unfolding session_cmdq_newf
newf-same call other side flags id word arg w =
    option-same (session side w) (some w) _ _ (λ s. add_command-same call other side s _ w)

pub send_mkd-same :
    (lion : Lion) (call other : Call) (side : Side) (w : World)
    → send_mkd lion call side w ≡ send_mkd lion other side w
unfolding send_mkd
send_mkd-same lion call other side w =
    bind-same (mkdname_decrease lion w) _ _
      (λ p. newf-same call other side no_flags phase_1_dst_mkd (codes "MKD ") p.0 p.1)

pub dst_cwd-same :
    (lion : Lion) (call other : Call) (reply : ℤ) (line : Text) (side : Side) (w : World)
    → dst_cwd lion call reply line side w ≡ dst_cwd lion other reply line side w
unfolding dst_cwd
dst_cwd-same lion call other reply line side w = if-same (is_2xx reply) _ _ _ _ refl (
    if-same (is_failure reply) _ _ _ _
      (bind-same (fail_dst line w) _ _ (send_mkd-same lion call other side)) refl)

pub dst_cwd2-same :
    (lion : Lion) (call other : Call) (reply : ℤ) (line : Text) (side : Side) (w : World)
    → dst_cwd2 lion call reply line side w ≡ dst_cwd2 lion other reply line side w
unfolding dst_cwd2
dst_cwd2-same lion call other reply line side w =
    if-same (is_2xx reply) _ _ _ _
      (if-same (w.queue.mkd_depth == 0) _ _ _ _ refl (send_mkd-same lion call other side w)) refl

-- The two events that a handler's own commands raise are handled alike.
pub record IsAlike (call other : Call) : Type 0 where
  pub on_idle : (side : Side) (w : World) → call side ev_idle w ≡ other side ev_idle w
  pub on_cwd2 :
      (side : Side) (reply : ℤ) (line : Text) (w : World)
      → call side (ev_cmd phase_1_dst_cwd2 reply line) w
        ≡ other side (ev_cmd phase_1_dst_cwd2 reply line) w

module _ (lion : Lion) (call other : Call) where
  to_handler-idle :
      (h : Option Handler) (side : Side) (w : World)
      → to_handler lion call h side ev_idle w ≡ to_handler lion other h side ev_idle w
  unfolding to_handler on_queue queue_event
  to_handler-idle none side w = refl
  to_handler-idle (some handler_withuser) side w = refl
  to_handler-idle (some handler_queue) side w = refl

  to_handler-cwd2 :
      (h : Option Handler) (side : Side) (reply : ℤ) (line : Text) (w : World)
      → to_handler lion call h side (ev_cmd phase_1_dst_cwd2 reply line) w
        ≡ to_handler lion other h side (ev_cmd phase_1_dst_cwd2 reply line) w
  unfolding to_handler on_queue queue_event on_queue_cmd
  to_handler-cwd2 none side reply line w = refl
  to_handler-cwd2 (some handler_withuser) side reply line w = refl
  to_handler-cwd2 (some handler_queue) side reply line w =
      if-same ((manager side w).qid == w.queue.id) _ _ _ _
        (dst_cwd2-same lion call other reply line side w) refl

  pub handle-IsAlike : IsAlike (handle lion call) (handle lion other)
  unfolding handle
  handle-IsAlike = record {
    on_idle =
        λ side w. option-same (session side w) (some w) _ _ (λ s. to_handler-idle s.handler side w);
    on_cwd2 = λ side reply line w.
        option-same (session side w) (some w) _ _
          (λ s. to_handler-cwd2 s.handler side reply line w);
  }
