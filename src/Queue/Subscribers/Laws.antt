-- ===== src/Queue/Subscribers/Laws.antt =====
-- Subscription as a set of users.
use fxp_one.Prelude.{
  ℕ, suc, ◌≤◌, true, not, ◌&&◌, ◌||◌, List, [], ◌∷◌, Option, none, some, ◌≡◌, refl, ◌==◌, length,
  arith,
}
use fxp_one.Queue.Types.{Queue}
use fxp_one.Queue.Subscribers.{
  is_member, fill_bay, clear_bays, queue_is_subscriber, queue_subscribe, queue_unsubscribe,
}

member-fill_bay :
    (ps : List (Option ℕ)) (user v : ℕ)
    → is_member (fill_bay ps user) v ≡ (user == v || is_member ps v)
unfolding is_member fill_bay
member-fill_bay [] user v = ground arith
member-fill_bay (none ∷ ps) user v = refl
member-fill_bay (some u ∷ ps) user v = ground (arith, member-fill_bay ps user v)

member-clear_bays :
    (ps : List (Option ℕ)) (user v : ℕ)
    → is_member (clear_bays ps user) v ≡ (not (user == v) && is_member ps v)
unfolding is_member clear_bays
member-clear_bays [] user v = ground arith
member-clear_bays (none ∷ ps) user v = ground (arith, member-clear_bays ps user v)
member-clear_bays (some u ∷ ps) user v = ground (arith, member-clear_bays ps user v)

length-clear_bays : (ps : List (Option ℕ)) (user : ℕ) → length (clear_bays ps user) ≡ length ps
unfolding clear_bays
length-clear_bays [] user = refl
length-clear_bays (p ∷ ps) user = omega (arith, length-clear_bays ps user)

length-fill_bay : (ps : List (Option ℕ)) (user : ℕ) → length (fill_bay ps user) ≤ suc (length ps)
unfolding fill_bay
length-fill_bay [] user = omega arith
length-fill_bay (none ∷ ps) user = omega arith
length-fill_bay (some u ∷ ps) user = omega (arith, length-fill_bay ps user)

-- Subscribing adds the user and nobody else, unsubscribing takes out the user and nobody else, and
-- a user who subscribes again changes nothing. Unsubscribing keeps the number of places, and
-- subscribing adds one at most.
pub queue_subscribe-set :
    (q : Queue) (user v : ℕ)
    → (queue_is_subscriber (queue_subscribe q user) v ≡ (user == v || queue_is_subscriber q v))
      × (queue_is_subscriber (queue_unsubscribe q user) v
          ≡ (not (user == v) && queue_is_subscriber q v))
      × (queue_is_subscriber q user ≡ true → queue_subscribe q user ≡ q)
      × (length (queue_unsubscribe q user).users ≡ length q.users)
      × (length (queue_subscribe q user).users ≤ suc (length q.users))
unfolding queue_is_subscriber queue_subscribe queue_unsubscribe
queue_subscribe-set q user v = (
  ground (arith, member-fill_bay q.users user v),
  member-clear_bays q.users user v,
  λ h. rw h,
  length-clear_bays q.users user,
  ground (arith, length-fill_bay q.users user),
)
