-- ===== src/Engine/Outcomes.antt =====
-- What becomes of an item that failed or is done, and of the counters of the queue.
use fxp_one.Prelude.{
  ℕ, zero, suc, ◌⊎◌, ◌+◌, ◌-◌, ◌^◌, ◌<◌, List, ◌∷◌, some, ◌≡◌, refl, ap, ◌∙◌, length, leb, ◌==◌,
  if◌then◌else◌, u32, arith, Perm, Bool-cases, inl, inr,
}
use fxp_one.Queue.Types.{Qitem, Queue, queue_requeue_item, queue_error_item, at_default}
use fxp_one.Queue.Insert.{insert_item, queue_poptop}
use fxp_one.Queue.Insert.Places.{spliced-perm}
use fxp_one.Queue.Accounting.{IsCounted, insert_item-IsCounted, poptop-IsCounted}
use fxp_one.Engine.World.{World, notify}
use fxp_one.Engine.Process.{
  process_item_failed, process_requeue_item, process_error_item, process_remove_item,
}

-- The item with one more failure.
abbrev pub once_more : Qitem → Qitem
once_more x = record x { soft_errors = u32 (x.soft_errors + 1) }

pub failed_items :
    (w : World) (x : Qitem) (rest : List Qitem)
    → w.queue.items ≡ x ∷ rest
    → ((process_item_failed w).queue.items ≡ once_more x ∷ rest)
      × ((process_item_failed w).queue.err_items ≡ w.queue.err_items)
      × ((process_item_failed w).queue.num_items ≡ w.queue.num_items)
      × ((process_item_failed w).queue.num_errors ≡ w.queue.num_errors)
      × ((process_item_failed w).queue.state
          ≡ (if leb 2 (u32 (x.soft_errors + 1)) then queue_error_item else queue_requeue_item))
unfolding process_item_failed notify
failed_items w x rest e = elim (Bool-cases (x.src_failure == 0)) [
  | inl a ↦ elim (Bool-cases (x.dst_failure == 0)) [
    | inl b ↦ rw (e, a, b) (refl, refl, refl, refl, refl)
    | inr b ↦ rw (e, a, b) (refl, refl, refl, refl, refl)
  ]
  | inr a ↦ elim (Bool-cases (x.dst_failure == 0)) [
    | inl b ↦ rw (e, a, b) (refl, refl, refl, refl, refl)
    | inr b ↦ rw (e, a, b) (refl, refl, refl, refl, refl)
  ]
]

-- An item has not failed, or it has.
pub fails : (x : Qitem) → (x.soft_errors ≡ 0) ⊎ (¬ (x.soft_errors ≡ 0))
fails x = by_count x.soft_errors
  where
    by_count : (n : ℕ) → (n ≡ 0) ⊎ (¬ (n ≡ 0))
    by_count zero = inl refl
    by_count (suc n) = inr (λ e. omega (arith, e))

first_failure :
    (x : Qitem)
    → x.soft_errors ≡ 0
    → (if leb 2 (u32 (x.soft_errors + 1)) then queue_error_item else queue_requeue_item)
      ≡ queue_requeue_item
first_failure x none_yet = rw none_yet

next_failure :
    (x : Qitem)
    → ¬ (x.soft_errors ≡ 0)
    → x.soft_errors < 2 ^ 32 - 1
    → (if leb 2 (u32 (x.soft_errors + 1)) then queue_error_item else queue_requeue_item)
      ≡ queue_error_item
next_failure x later small = ground arith

requeued_items :
    (v : World) (y : Qitem) (rest : List Qitem)
    → v.queue.items ≡ y ∷ rest
    → (u : World) × (process_requeue_item v ≡ some u)
      × Perm (y ∷ rest) u.queue.items
      × (u.queue.err_items ≡ v.queue.err_items)
unfolding process_requeue_item insert_item notify
requeued_items v y rest e = elim (Bool-cases v.queue.stop) [
  | inl s ↦ rw (e, s) (_, refl, spliced-perm y at_default rest, refl)
  | inr s ↦ rw (e, s) (_, refl, spliced-perm y at_default rest, refl)
]

pub errored_items :
    (v : World) (y : Qitem) (rest : List Qitem)
    → v.queue.items ≡ y ∷ rest
    → (u : World) × (process_error_item v ≡ some u)
      × (u.queue.items ≡ rest)
      × (u.queue.err_items ≡ y ∷ v.queue.err_items)
unfolding process_error_item notify
errored_items v y rest e = elim (Bool-cases v.queue.stop) [
  | inl s ↦ rw (e, s) (_, refl, refl, refl)
  | inr s ↦ rw (e, s) (_, refl, refl, refl)
]

-- An item that fails for the first time, while it is at the front, is counted, and the next state puts
-- it back among the other items, of which none is lost; from its second failure on, the next state
-- takes it out of the queue and puts it in front of the items with errors. (An unsigned count of
-- failures that is about to wrap around is excluded.)
pub process_item_failed-outcome :
    (w : World) (x : Qitem) (rest : List Qitem)
    → w.queue.items ≡ x ∷ rest
    → x.soft_errors < 2 ^ 32 - 1
    → let v = process_item_failed w in
      (x.soft_errors ≡ 0
        → (v.queue.state ≡ queue_requeue_item)
          × ((u : World) × (process_requeue_item v ≡ some u)
              × Perm (once_more x ∷ rest) u.queue.items
              × (u.queue.err_items ≡ w.queue.err_items)))
      × (¬ (x.soft_errors ≡ 0)
          → (v.queue.state ≡ queue_error_item)
            × ((u : World) × (process_error_item v ≡ some u)
                × (u.queue.items ≡ rest)
                × (u.queue.err_items ≡ once_more x ∷ w.queue.err_items)))
unfolding process_item_failed
process_item_failed-outcome w x rest e small =
    let v = process_item_failed w in
    let (items, errs, num, num_errs, state) = failed_items w x rest e in
    let (u, ok, perm, kept) = requeued_items v (once_more x) rest items in
    let (u', ok', left, put) = errored_items v (once_more x) rest items in
    (
      λ fresh. (state ∙ first_failure x fresh, (u, ok, perm, kept ∙ errs)),
      λ later. (
        state ∙ next_failure x later small,
        (u', ok', left, put ∙ ap (λ es. once_more x ∷ es) errs),
      ),
    )

abbrev popped : World → List Qitem → Queue
popped w rest = record w.queue { items = rest; num_items = u32 (w.queue.num_items + (2 ^ 32 - 1)) }

popped-IsCounted :
    (w : World) (x : Qitem) (rest : List Qitem)
    → w.queue.items ≡ x ∷ rest
    → IsCounted w.queue
    → IsCounted (popped w rest)
popped-IsCounted w x rest e v = record {
  items_counted = omega (arith, v.items_counted, ap length e);
  errors_counted = v.errors_counted;
}

pub requeued-IsCounted :
    (w : World) (x : Qitem) (rest : List Qitem)
    → w.queue.items ≡ x ∷ rest
    → IsCounted w.queue
    → (u : World) × (process_requeue_item w ≡ some u) × IsCounted u.queue
unfolding process_requeue_item notify insert_item
requeued-IsCounted w x rest e v =
    let c = insert_item-IsCounted (popped w rest) x at_default (popped-IsCounted w x rest e v) in
    let n = c.items_counted in
    let k = c.errors_counted in
    elim (Bool-cases w.queue.stop) [
      | inl s ↦ rw (e, s) (_, refl, record { items_counted = n; errors_counted = k })
      | inr s ↦ rw (e, s) (_, refl, record { items_counted = n; errors_counted = k })
    ]

pub errored-IsCounted :
    (w : World) (x : Qitem) (rest : List Qitem)
    → w.queue.items ≡ x ∷ rest
    → IsCounted w.queue
    → (u : World) × (process_error_item w ≡ some u) × IsCounted u.queue
unfolding process_error_item notify
errored-IsCounted w x rest e v =
    let n = (popped-IsCounted w x rest e v).items_counted in
    let k : u32 (w.queue.num_errors + 1) ≡ u32 (suc (length w.queue.err_items)) =
      omega (arith, v.errors_counted) in
    elim (Bool-cases w.queue.stop) [
      | inl s ↦ rw (e, s) (_, refl, record { items_counted = n; errors_counted = k })
      | inr s ↦ rw (e, s) (_, refl, record { items_counted = n; errors_counted = k })
    ]

pub failed-IsCounted :
    (w : World) (x : Qitem) (rest : List Qitem)
    → w.queue.items ≡ x ∷ rest
    → IsCounted w.queue
    → IsCounted (process_item_failed w).queue
failed-IsCounted w x rest e v =
    let (items, errs, num, num_errs, state) = failed_items w x rest e in
    record {
      items_counted = omega (arith, v.items_counted, num, ap length items, ap length e);
      errors_counted = omega (arith, v.errors_counted, num_errs, ap length errs);
    }

pub removed-IsCounted : (w : World) → IsCounted w.queue → IsCounted (process_remove_item w).queue
unfolding process_remove_item notify
removed-IsCounted w v =
    let c = poptop-IsCounted w.queue v in
    let n = c.items_counted in
    let k = c.errors_counted in
    elim (Bool-cases (queue_poptop w.queue).stop) [
      | inl s ↦ rw s (record { items_counted = n; errors_counted = k })
      | inr s ↦ rw s (record { items_counted = n; errors_counted = k })
    ]

-- With an item in front, each of the states that end the work on it makes its step, and keeps num_items
-- and num_errors equal to the lengths of the two lists, whether or not the queue is told to stop.
pub ending-IsCounted :
    (w : World) (x : Qitem) (rest : List Qitem)
    → w.queue.items ≡ x ∷ rest
    → IsCounted w.queue
    → IsCounted (process_item_failed w).queue
      × IsCounted (process_remove_item w).queue
      × ((u : World) × (process_requeue_item w ≡ some u) × IsCounted u.queue)
      × ((u : World) × (process_error_item w ≡ some u) × IsCounted u.queue)
ending-IsCounted w x rest e v = (
  failed-IsCounted w x rest e v,
  removed-IsCounted w v,
  requeued-IsCounted w x rest e v,
  errored-IsCounted w x rest e v,
)
