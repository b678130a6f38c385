-- ===== src/Engine/Lost.antt =====
-- A queue that finds a session gone while an item is in work.
use fxp_one.Prelude.{
  ◌-◌, ◌^◌, ◌<◌, true, false, none, some, ◌≡◌, ◌==◌, refl, arith, ◌⊎◌, inl, inr, if_true, if_false,
  ap, ◌∙◌, ◌>>=◌, List, ◌∷◌, Perm,
}
use fxp_one.Lion.{Lion}
use fxp_one.Queue.Types.{Qitem, north, south, queue_item_failed, QueueState}
use fxp_one.Engine.World.{World, Call, session, set_state}
use fxp_one.Engine.Process.{
  dispatch, queue_process, process_item_failed, may_miss_session, detects_failure, check_sessions,
}
use fxp_one.Engine.Outcomes.{once_more, fails, process_item_failed-outcome}

detects :
    (w : World)
    → may_miss_session w.queue.state ≡ false
    → (session north w ≡ none) ⊎ (session south w ≡ none)
    → w.queue.stop ≡ false
    → (w.queue.num_items == 0) ≡ false
    → detects_failure w ≡ true
unfolding detects_failure
detects w st (inl gone) go items = rw (st, gone, go, items)
detects w st (inr gone) go items = ground arith

may_miss : (w : World) → may_miss_session w.queue.state ≡ true → detects_failure w ≡ false
unfolding detects_failure
may_miss w e = rw e refl

module _ (lion : Lion) (call : Call) where
  first_step :
      (w : World)
      → may_miss_session w.queue.state ≡ false
      → (session north w ≡ none) ⊎ (session south w ≡ none)
      → w.queue.stop ≡ false
      → (w.queue.num_items == 0) ≡ false
      → queue_process lion call w ≡ some (process_item_failed (set_state queue_item_failed w))
  unfolding queue_process dispatch check_sessions
  first_step w st gone go items =
      ap (λ v. dispatch lion call v.queue.state v)
        (if_true (set_state queue_item_failed w) w (detects w st gone go items))

  -- A step in a state that may miss a session is the step of that state.
  next_step :
      (v : World) (st : QueueState)
      → v.queue.state ≡ st
      → may_miss_session st ≡ true
      → queue_process lion call v ≡ dispatch lion call st v
  unfolding queue_process check_sessions
  next_step v st e m =
      ap (λ u. dispatch lion call u.queue.state u)
        (if_false (set_state queue_item_failed v) v (may_miss v (ap may_miss_session e ∙ m)))
      ∙ ap (λ s. dispatch lion call s v) e

  -- If one of the two sessions is gone while an item is in work, and the queue is not told to stop, then
  -- two steps of the queue give the item up, whatever the state was: with its first failure it is back
  -- among the others, counted, and none is lost; with a later one it is out of the queue and in front of
  -- the items with errors. (A count of failures about to wrap around is excluded.)
  pub queue_process-lost :
      (w : World) (x : Qitem) (rest : List Qitem)
      → may_miss_session w.queue.state ≡ false
      → (session north w ≡ none) ⊎ (session south w ≡ none)
      → w.queue.stop ≡ false
      → (w.queue.num_items == 0) ≡ false
      → w.queue.items ≡ x ∷ rest
      → x.soft_errors < 2 ^ 32 - 1
      → (u : World) × ((queue_process lion call w >>= queue_process lion call) ≡ some u)
        × (x.soft_errors ≡ 0
            → Perm (once_more x ∷ rest) u.queue.items × (u.queue.err_items ≡ w.queue.err_items))
        × (¬ (x.soft_errors ≡ 0)
            → (u.queue.items ≡ rest) × (u.queue.err_items ≡ once_more x ∷ w.queue.err_items))
  unfolding dispatch may_miss_session
  queue_process-lost w x rest st gone go num e small =
      let v = process_item_failed (set_state queue_item_failed w) in
      let (first, later) =
        process_item_failed-outcome (set_state queue_item_failed w) x rest e small in
      let f = ap (λ o. o >>= queue_process lion call) (first_step w st gone go num) in
      elim (fails x) [
        | inl fresh ↦
            let (at, (u, ok, perm, kept)) = first fresh in
            (u, f ∙ next_step v _ at refl ∙ ok, λ h. (perm, kept), λ h. absurd (h fresh))
        | inr again ↦
            let (at, (u, ok, left, put)) = later again in
            (u, f ∙ next_step v _ at refl ∙ ok, λ h. absurd (again h), λ h. (left, put))
      ]
