-- ===== src/Engine/Budget.antt =====
-- How often the items of a queue can fail.
use fxp_one.Prelude.{
  ℕ, zero, suc, ◌+◌, ◌-◌, ◌*◌, ◌^◌, ◌<◌, ◌≤◌, length, List, [], ◌∷◌, Option, some, ◌≡◌, refl, sym,
  ap, ◌∙◌, ltb, if◌then◌else◌, insert_at, arith, Bool-cases, inl, inr,
}
use fxp_one.Lion.{Lion}
use fxp_one.Queue.Types.{Qitem, at_default}
use fxp_one.Queue.Insert.{insert_item, place}
use fxp_one.Queue.Insert.Places.{spliced-insert_at}
use fxp_one.Engine.World.{World, Call, notify}
use fxp_one.Engine.Process.{dispatch, process_item_failed, process_requeue_item, process_error_item}
use fxp_one.Engine.Outcomes.{
  once_more, fails, process_item_failed-outcome, failed_items, errored_items,
}

-- One for being in the queue, and one more for an item that has not failed yet.
pub price : Qitem → ℕ
price x = if ltb x.soft_errors 1 then 2 else 1

pub budget : List Qitem → ℕ
unfolding price
budget [] = 0
budget (x ∷ xs) = price x + budget xs

insert_at-budget :
    (n : ℕ) (x : Qitem) (xs : List Qitem) → budget (insert_at n x xs) ≡ price x + budget xs
unfolding budget
insert_at-budget zero x xs = refl
insert_at-budget (suc n) x [] = refl
insert_at-budget (suc n) x (y ∷ ys) = omega (arith, insert_at-budget n x ys)

once_more-price : (x : Qitem) → x.soft_errors ≡ 0 → price (once_more x) < price x
unfolding price
once_more-price x none_yet = rw none_yet (omega arith)

same_world : (o : Option World) (u v : World) → o ≡ some u → o ≡ some v → u ≡ v
same_world o u v a b = cc

price-pos : (x : Qitem) → 0 < price x
unfolding price
price-pos x = ground arith

requeued_at :
    (v : World) (y : Qitem) (rest : List Qitem)
    → v.queue.items ≡ y ∷ rest
    → (u : World) × (process_requeue_item v ≡ some u)
      × (u.queue.items ≡ insert_at (place at_default rest) y rest)
unfolding process_requeue_item insert_item notify
requeued_at v y rest e = elim (Bool-cases v.queue.stop) [
  | inl s ↦ rw (e, s) (_, refl, spliced-insert_at y at_default rest)
  | inr s ↦ rw (e, s) (_, refl, spliced-insert_at y at_default rest)
]

requeued-budget :
    (v u : World) (y : Qitem) (rest : List Qitem)
    → v.queue.items ≡ y ∷ rest
    → process_requeue_item v ≡ some u
    → budget u.queue.items ≡ price y + budget rest
requeued-budget v u y rest e step =
    let (t, f, is) = requeued_at v y rest e in
    ap (λ r. budget r.queue.items) (same_world (process_requeue_item v) u t step f)
    ∙ ap budget is
    ∙ insert_at-budget (place at_default rest) y rest

errored-budget :
    (v u : World) (y : Qitem) (rest : List Qitem)
    → v.queue.items ≡ y ∷ rest
    → process_error_item v ≡ some u
    → budget u.queue.items ≡ budget rest
errored-budget v u y rest e step =
    let (t, f, is, errs) = errored_items v y rest e in
    ap (λ r. budget r.queue.items) (same_world (process_error_item v) u t step f) ∙ ap budget is

budget-le : (xs : List Qitem) → budget xs ≤ 2 * length xs
unfolding budget price
budget-le [] = omega arith
budget-le (x ∷ xs) = ground (arith, budget-le xs)

-- Each failure of the item in front, with the step that follows it, makes the budget of the queue
-- smaller, which is at most two for each item. (A count of failures about to wrap around is excluded.)
pub process_item_failed-budget :
    (lion : Lion) (call : Call) (w u : World) (x : Qitem) (rest : List Qitem)
    → w.queue.items ≡ x ∷ rest
    → x.soft_errors < 2 ^ 32 - 1
    → let v = process_item_failed w in
      dispatch lion call v.queue.state v ≡ some u
      → (budget u.queue.items < budget w.queue.items)
        × (budget w.queue.items ≤ 2 * length w.queue.items)
unfolding dispatch budget
process_item_failed-budget lion call w u x rest e small step = (spent, budget-le w.queue.items)
  where
    spent : budget u.queue.items < budget w.queue.items
    spent =
        let v = process_item_failed w in
        let (items, errs, num, num_errs, state) = failed_items w x rest e in
        let (first, later) = process_item_failed-outcome w x rest e small in
        elim (fails x) [
          | inl fresh ↦ omega (
            arith,
            ap budget e,
            once_more-price x fresh,
            requeued-budget v u (once_more x) rest items
                (sym (ap (λ st. dispatch lion call st v) (first fresh).0) ∙ step),
          )
          | inr again ↦ omega (
            arith,
            ap budget e,
            price-pos x,
            errored-budget v u (once_more x) rest items
                (sym (ap (λ st. dispatch lion call st v) (later again).0) ∙ step),
          )
        ]
