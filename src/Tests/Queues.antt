-- ===== src/Tests/Queues.antt =====
-- The theorems on the list of items, on what a directory expands to and on the subscribers.
use fxp_one.Prelude.{
  ℕ, true, false, not, ◌&&◌, ◌||◌, List, [], ◌∷◌, some, codes, ◌≡◌, refl, ◌==◌, ◌≤◌, ◌<◌, length,
  get_elem?, remove_at, ◌⊎◌,
}
use Prim.Native.Nat.{min}
use fxp_one.File.{File}
use fxp_one.Queue.Types.{queue_newnode, at_default, at_nth}
use fxp_one.Queue.Insert.{queue_insert, place, parse_position}
use fxp_one.Queue.Insert.Places.{plain_at, default_place-first_plain, queue_insert-at_place}
use fxp_one.Queue.Requests.{queue_move}
use fxp_one.Queue.Requests.Moves.{moves-keep_active}
use fxp_one.Queue.Accounting.{IsCounted}
use fxp_one.Queue.Subscribers.{queue_subscribe, queue_is_subscriber, queue_unsubscribe}
use fxp_one.Queue.Subscribers.Laws.{queue_subscribe-set}
use fxp_one.Queue.Think.{queue_directory_think}
use fxp_one.Queue.Think.Laws.{think-perm}
use fxp_one.Tests.Data.{lion, lion-CaseCompare, site, file, one, folder, items, queue}

queue-IsCounted : IsCounted queue
unfolding queue_newnode
queue-IsCounted = record { items_counted = refl; errors_counted = refl }

moves-keep_active_example :
    get_elem? (queue_move lion queue (codes "2") (codes "FIRST")).0.items 0 ≡ some one
moves-keep_active_example =
    (moves-keep_active lion lion-CaseCompare queue refl).0 (codes "2") (codes "FIRST")

default_place-first_plain_example :
    ((n : ℕ) → n < place at_default (one ∷ folder ∷ []) → plain_at (one ∷ folder ∷ []) n ≡ false)
    × ((place at_default (one ∷ folder ∷ []) ≡ 2)
        ⊎ (plain_at (one ∷ folder ∷ []) (place at_default (one ∷ folder ∷ [])) ≡ true))
default_place-first_plain_example = default_place-first_plain (one ∷ folder ∷ [])

queue_insert-at_place_example :
    let (q', n) = queue_insert lion queue folder (some (codes "2")) in
    (n ≤ 3)
    × (get_elem? q'.items n ≡ some folder)
    × (remove_at n q'.items ≡ items)
    × ((k : ℕ) → parse_position lion (some (codes "2")) ≡ at_nth k → n ≡ min k 3)
queue_insert-at_place_example = queue_insert-at_place lion queue folder (some (codes "2"))

queue_subscribe-set_example :
    (queue_is_subscriber (queue_subscribe queue 4) 9 ≡ (4 == 9 || queue_is_subscriber queue 9))
    × (queue_is_subscriber (queue_unsubscribe queue 4) 9
        ≡ (not (4 == 9) && queue_is_subscriber queue 9))
    × (queue_is_subscriber queue 4 ≡ true → queue_subscribe queue 4 ≡ queue)
    × (length (queue_unsubscribe queue 4).users ≡ 2)
    × (length (queue_subscribe queue 4).users ≤ 3)
queue_subscribe-set_example = queue_subscribe-set queue 4 9

abbrev listing : List File
listing = file (codes "a") 4 ∷ file (codes "skip.txt") 5 ∷ []

think-perm_example : IsCounted (
    queue_directory_think lion
      (site (codes "host"))
      false
      []
      (some (codes "/d"))
      true
      queue
      listing)
think-perm_example =
    (think-perm lion (site (codes "host")) false [] (some (codes "/d")) true listing queue).1
      queue-IsCounted
