-- ===== src/Queue/Subscribers.antt =====
-- engine/queue.c: queue_is_subscriber, queue_subscribe, queue_unsubscribe, queue_unsubscribe_all.
-- A place that is `none` is NULL, an empty bay.
pub mod Laws
use fxp_one.Prelude.{
  ℕ, Bool, true, false, ◌||◌, List, [], ◌∷◌, Option, none, some, ◌==◌, if◌then◌else◌, map,
}
use fxp_one.Queue.Types.{Queue}

abbrev pub holds : Option ℕ → ℕ → Bool
holds none user = false
holds (some u) user = u == user

is_member : List (Option ℕ) → ℕ → Bool
is_member [] user = false
is_member (p ∷ ps) user = holds p user || is_member ps user

-- The first empty bay is used, and a new one is made at the end if there is none.
fill_bay : List (Option ℕ) → ℕ → List (Option ℕ)
fill_bay [] user = some user ∷ []
fill_bay (none ∷ ps) user = some user ∷ ps
fill_bay (some u ∷ ps) user = some u ∷ fill_bay ps user

clear_bays : List (Option ℕ) → ℕ → List (Option ℕ)
clear_bays [] user = []
clear_bays (p ∷ ps) user = (if holds p user then none else p) ∷ clear_bays ps user

unfoldable pub queue_is_subscriber : Queue → ℕ → Bool
unfolding is_member
queue_is_subscriber q user = is_member q.users user

unfoldable pub queue_subscribe : Queue → ℕ → Queue
unfolding is_member fill_bay
queue_subscribe q user =
    if is_member q.users user then q else record q { users = fill_bay q.users user }

unfoldable pub queue_unsubscribe : Queue → ℕ → Queue
unfolding clear_bays
queue_unsubscribe q user = record q { users = clear_bays q.users user }

unfoldable pub queue_unsubscribe_all : List Queue → ℕ → List Queue
unfolding queue_unsubscribe
queue_unsubscribe_all qs user = map (λ q. queue_unsubscribe q user) qs
