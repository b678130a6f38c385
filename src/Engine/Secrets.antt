-- ===== src/Engine/Secrets.antt =====
-- The protection of the data connection: phases two and three when the sites do not agree.
use fxp_one.Prelude.{
  Bool, true, false, not, ◌&&◌, ◌||◌, some, ◌≡◌, refl, arith, ◌⊎◌, inl, inr, ◌>>=◌, ap, ◌∙◌, List,
  ◌∷◌,
}
use fxp_one.Lion.{Lion}
use fxp_one.Site.{yna_no, is_local}
use fxp_one.Queue.Types.{
  Queue, Qitem, Side, north, south, queue_item_failed, phase_2_wait, phase_3_start,
}
use fxp_one.Engine.World.{
  World, Call, hurry, manager, session, set_state, set_queue, both_idle, has_failed,
}
use fxp_one.Session.{Session, session_feat}
use fxp_one.Engine.Commands.{session_ccsn}
use fxp_one.Engine.Process.{
  process_phase_2_start, process_phase_2_wait, process_phase_2_disable, wants_no_tls, insists,
  secure_off,
}

-- Neither method for secure data is known of the session.
abbrev pub has_no_method : World → Side → Bool
has_no_method w side =
    not (session_feat (session side w)).has_ccsn && not (session_feat (session side w)).has_sscn

abbrev plain : World → World
plain w = set_queue (record w.queue { secure_data = false; state = phase_3_start }) w

neither : (a b : Bool) → (not a && not b) ≡ true → (a ≡ false) × (b ≡ false)
neither a b h = (ground arith, ground arith)

secure_off-none :
    (lion : Lion) (call : Call) (w : World)
    → has_no_method w north ≡ true
    → has_no_method w south ≡ true
    → secure_off lion call w ≡ some w
unfolding secure_off
secure_off-none lion call w n s =
    let (a, b) = neither _ _ n in let (c, d) = neither _ _ s in rw (a, b, c, d) refl

manager-set_queue :
    (side : Side) (q : Queue) (w : World) → manager side (set_queue q w) ≡ manager side w
manager-set_queue north q w = refl
manager-set_queue south q w = refl

or_same : (a : Bool) → (a || a) ≡ true → a ≡ true
or_same a h = ground arith

or_cases :
    (a b : Bool)
    → (a || b) ≡ true
    → ((a ≡ true) × (b ≡ true)) ⊎ (((a ≡ true) × (b ≡ false)) ⊎ ((a ≡ false) × (b ≡ true)))
or_cases true true h = inl (refl, refl)
or_cases true false h = inr (inl (refl, refl))
or_cases false b h = inr (inr (refl, h))

-- If neither session knows a method for secure data, and the site of the source or of the destination
-- insists on secure data, then the state that turns protection off fails the item: the queue goes to
-- the state for failed items and the data is marked as not secure.
pub process_phase_2_disable-insisted :
    (lion : Lion) (call : Call) (w : World) (src dst : Side) (x : Qitem) (rest : List Qitem)
    → w.queue.src_mgr ≡ some src
    → w.queue.dst_mgr ≡ some dst
    → w.queue.items ≡ x ∷ rest
    → has_no_method w north ≡ true
    → has_no_method w south ≡ true
    → (insists lion call (manager src w).site || insists lion call (manager dst w).site) ≡ true
    → (v : World) × (process_phase_2_disable lion call w ≡ some v)
      × (v.queue.state ≡ queue_item_failed)
      × (v.queue.secure_data ≡ false)
unfolding process_phase_2_disable
process_phase_2_disable-insisted lion call w north north x rest es ed ei n s i =
    let a = or_same (insists lion call (manager north w).site) i in
    rw (secure_off-none lion call (plain w) n s, es, ed, ei, a, a) (_, refl, refl, refl)
process_phase_2_disable-insisted lion call w north south x rest es ed ei n s i =
    elim (or_cases (insists lion call (manager north w).site)
      (insists lion call (manager south w).site) i) [
        | inl (a, b) ↦
            rw (secure_off-none lion call (plain w) n s, es, ed, ei, a, b) (_, refl, refl, refl)
        | inr (inl (a, b)) ↦
            rw (secure_off-none lion call (plain w) n s, es, ed, ei, a, b) (_, refl, refl, refl)
        | inr (inr (a, b)) ↦
            rw (secure_off-none lion call (plain w) n s, es, ed, ei, a, b) (_, refl, refl, refl)
      ]
process_phase_2_disable-insisted lion call w south north x rest es ed ei n s i =
    elim (or_cases (insists lion call (manager south w).site)
      (insists lion call (manager north w).site) i) [
        | inl (a, b) ↦
            rw (secure_off-none lion call (plain w) n s, es, ed, ei, a, b) (_, refl, refl, refl)
        | inr (inl (a, b)) ↦
            rw (secure_off-none lion call (plain w) n s, es, ed, ei, a, b) (_, refl, refl, refl)
        | inr (inr (a, b)) ↦
            rw (secure_off-none lion call (plain w) n s, es, ed, ei, a, b) (_, refl, refl, refl)
      ]
process_phase_2_disable-insisted lion call w south south x rest es ed ei n s i =
    let a = or_same (insists lion call (manager south w).site) i in
    rw (secure_off-none lion call (plain w) n s, es, ed, ei, a, a) (_, refl, refl, refl)

abbrev waiting : World → World
waiting w = set_queue (record w.queue { secure_data = false; state = phase_2_wait }) w

start-silent :
    (lion : Lion) (call : Call) (w : World) (src dst : Side) (s : Session)
    → both_idle w ≡ true
    → w.queue.src_mgr ≡ some src
    → w.queue.dst_mgr ≡ some dst
    → session src w ≡ some s
    → s.site.data_tls ≡ yna_no
    → (session_feat (session src w)).has_ccsn ≡ true
    → (session_feat (session north w)).has_ssl ≡ true
    → (session_feat (session south w)).has_ssl ≡ true
    → (wants_no_tls lion call w north || wants_no_tls lion call w south) ≡ false
    → (is_local lion (manager src w).site || is_local lion (manager dst w).site) ≡ false
    → process_phase_2_start lion call w ≡ some (waiting w)
unfolding process_phase_2_start session_ccsn
start-silent lion call w north north s idle es ed e off c a b t l =
    rw (idle, es, ed, a, b, t, l, c, e, off, ed) refl
start-silent lion call w north south s idle es ed e off c a b t l =
    rw (idle, es, ed, a, b, t, l, c, e, off, ed) refl
start-silent lion call w south north s idle es ed e off c a b t l =
    rw (idle, es, ed, a, b, t, l, c, e, off, ed) refl
start-silent lion call w south south s idle es ed e off c a b t l =
    rw (idle, es, ed, a, b, t, l, c, e, off, ed) refl

wait-passes :
    (lion : Lion) (call : Call) (v : World) (x : Qitem) (rest : List Qitem)
    → both_idle v ≡ true
    → v.queue.items ≡ x ∷ rest
    → has_failed x ≡ false
    → process_phase_2_wait lion call v ≡ some (hurry (set_state phase_3_start v))
unfolding process_phase_2_wait
wait-passes lion call v x rest idle ei f = rw (idle, ei, f) refl

-- With both sessions idle and TLS on both servers, FXP_TLS turned off on neither side, neither site
-- local, an item that has not failed, and a session of the source that knows CCSN but whose site turns
-- secure data off, the queue sends nothing in phase two and goes on to phase three with data that is not
-- secure. No hypothesis is on the destination's setting for secure data: the two steps are the same
-- whether or not its site insists on it.
pub process_phase_2_start-unasked :
    (lion : Lion) (call : Call) (w : World) (src dst : Side) (s : Session) (x : Qitem)
    (rest : List Qitem)
    → both_idle w ≡ true
    → w.queue.src_mgr ≡ some src
    → w.queue.dst_mgr ≡ some dst
    → w.queue.items ≡ x ∷ rest
    → has_failed x ≡ false
    → session src w ≡ some s
    → s.site.data_tls ≡ yna_no
    → (session_feat (session src w)).has_ccsn ≡ true
    → (session_feat (session north w)).has_ssl ≡ true
    → (session_feat (session south w)).has_ssl ≡ true
    → (wants_no_tls lion call w north || wants_no_tls lion call w south) ≡ false
    → (is_local lion (manager src w).site || is_local lion (manager dst w).site) ≡ false
    → (process_phase_2_start lion call w >>= process_phase_2_wait lion call)
      ≡ some (hurry (set_queue (record w.queue { secure_data = false; state = phase_3_start }) w))
unfolding both_idle
process_phase_2_start-unasked lion call w src dst s x rest idle es ed ei f e off c a b t l =
    ap (λ o. o >>= process_phase_2_wait lion call)
      (start-silent lion call w src dst s idle es ed e off c a b t l)
    ∙ wait-passes lion call (waiting w) x rest idle ei f
