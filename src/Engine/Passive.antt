-- ===== src/Engine/Passive.antt =====
-- The reply to PASV and the PORT command that is made of it.
use fxp_one.Prelude.{
  ℕ, Bool, true, false, not, ◌&&◌, [], ◌∷◌, ◌++◌, some, ◌≡◌, refl, ◌==◌, arith, Text, Option-cases,
  inl, inr, pos,
}
use fxp_one.Lion.{Lion}
use fxp_one.Queue.Types.{Side}
use fxp_one.Session.Events.{phase_7_pasv}
use fxp_one.Engine.World.{World, Call, set_queue}
use fxp_one.Engine.Handlers.{up_to_close, behind_open, on_queue_cmd}

-- The byte does not occur in the text.
unfoldable pub lacks : ℕ → Text → Bool
lacks b [] = true
lacks b (c ∷ cs) = not (c == b) && lacks b cs

and_not : (a b : Bool) → (not a && b) ≡ true → (a ≡ false) × (b ≡ true)
and_not a b h = (ground arith, ground arith)

abbrev pub in_brackets : Text → Text → Text → Text
in_brackets before t behind = before ++ b'(' ∷ (t ++ b')' ∷ behind)

closes_at : (xs : Text) → up_to_close (b')' ∷ xs) ≡ some []
unfolding up_to_close
closes_at xs = elim (Option-cases (up_to_close xs)) [ inl e ↦ rw e refl | inr (t, e) ↦ rw e refl ]

closes : (t behind : Text) → lacks b')' t ≡ true → up_to_close (t ++ b')' ∷ behind) ≡ some t
unfolding up_to_close lacks
closes [] behind h = closes_at behind
closes (c ∷ cs) behind h =
    let (here, later) = and_not (c == b')') _ h in rw (closes cs behind later, here) refl

opens :
    (before rest : Text)
    → lacks b'(' before ≡ true
    → behind_open (before ++ b'(' ∷ rest) ≡ some rest
unfolding behind_open lacks
opens [] rest b = refl
opens (c ∷ cs) rest b = let (here, later) = and_not (c == b'(') _ b in rw here (opens cs rest later)

kept :
    (lion : Lion) (call : Call) (w : World) (side : Side) (line rest t : Text)
    → behind_open line ≡ some rest
    → up_to_close rest ≡ some t
    → on_queue_cmd lion call phase_7_pasv (pos 227) line side w
      ≡ some (set_queue (record w.queue { pasv_line = some t }) w)
unfolding on_queue_cmd
kept lion call w side line rest t e f = ground (arith, e, f)

-- The address in a reply 227 is the text between the first '(' and the next ')', whatever stands
-- before and behind: the queue keeps exactly that text, and counts no failure.
pub on_queue_cmd-pasv :
    (lion : Lion) (call : Call) (w : World) (side : Side) (before t behind : Text)
    → lacks b'(' before ≡ true
    → lacks b')' t ≡ true
    → on_queue_cmd lion call phase_7_pasv (pos 227) (in_brackets before t behind) side w
      ≡ some (set_queue (record w.queue { pasv_line = some t }) w)
unfolding on_queue_cmd
on_queue_cmd-pasv lion call w side before t behind b h =
    kept lion call w side (in_brackets before t behind) (t ++ b')' ∷ behind) t
      (opens before (t ++ b')' ∷ behind) b) (closes t behind h)
