-- ===== src/Protocol/Placing.antt =====
-- Where QADD puts an item of a queue that is at work.
use fxp_one.Prelude.{
  if◌then◌else◌, true, false, List, ◌∷◌, Option, none, some, Text, codes, ◌≡◌, refl, arith, case_eq,
  get_elem?,
}
use fxp_one.Lion.{Lion, CaseCompare}
use fxp_one.Site.{findkey}
use fxp_one.Queue.Types.{Qitem, Queue, is_idle, is_stop, at_last, at_default}
use fxp_one.Queue.Insert.{queue_insert, insert_item, parse_position, place}
use fxp_one.Queue.Insert.Places.{is_plain_directory, spliced-head}
use fxp_one.Queue.Requests.{move_target}
use fxp_one.Queue.Requests.Moves.{target-nth}
use fxp_one.Protocol.State.{Keys}
use fxp_one.Protocol.Adding.{add_item, add_target, build_item}

module _ (lion : Lion) (laws : CaseCompare lion) (q : Queue) (y : Qitem) (ys : List Qitem) where
  last-position : parse_position lion (some (codes "LAST")) ≡ at_last
  unfolding parse_position case_eq
  last-position = ground (
    arith,
    laws.same_text_lem (codes "FIRST") (codes "LAST"),
    laws.same_text_lem (codes "LAST") (codes "LAST"),
  )

  -- The queue, with its items written out.
  abbrev working : Queue
  working = record q { items = y ∷ ys }

  same_target : (at : Text) → add_target lion q (some at) ≡ move_target lion q at
  unfolding add_target move_target
  same_target at = refl

  behind_head :
      (x : Qitem) (at : Option Text)
      → is_idle q.state ≡ false
      → get_elem? (queue_insert lion working x (some (add_target lion q at))).0.items 0 ≡ some y
  unfolding queue_insert insert_item add_target place
  behind_head x none busy = rw last-position refl
  behind_head x (some at) busy =
      let (k, p) = target-nth lion q at laws busy in rw (same_target at, p) refl

  at_head :
      (x : Qitem) (at : Text)
      → case_eq (codes "FIRST") at ≡ true
      → get_elem? (queue_insert lion working x (some at)).0.items 0 ≡ some x
  unfolding queue_insert insert_item parse_position place
  at_head x at first = rw (laws.same_text_lem (codes "FIRST") at, first) refl

  -- QADD leaves the item in work at the head of a queue that is not idle, if it adds no STOP. A STOP is
  -- put where its place says, whatever the queue does: it takes the head if it is added at FIRST, and,
  -- if no place is named or one that is no number above 0, exactly if the item in work is a directory
  -- that no move-first rule has marked.
  pub add_item-keeps_active :
      (keys : Keys) (src_pwd dst_pwd : Option Text) (x : Qitem)
      → is_idle q.state ≡ false
      → (is_stop x.type ≡ false
          → get_elem? (add_item lion keys src_pwd dst_pwd x working).0.items 0 ≡ some y)
        × ((at : Text)
            → is_stop x.type ≡ true
            → findkey keys (codes "@") ≡ some at
            → case_eq (codes "FIRST") at ≡ true
            → get_elem? (add_item lion keys src_pwd dst_pwd x working).0.items 0 ≡ some x)
        × (is_stop x.type ≡ true
            → parse_position lion (findkey keys (codes "@")) ≡ at_default
            → get_elem? (add_item lion keys src_pwd dst_pwd x working).0.items 0
              ≡ some (if is_plain_directory y then x else y))
  unfolding add_item queue_insert insert_item
  add_item-keeps_active keys src_pwd dst_pwd x busy = (
    λ plain.
        rw plain
          (behind_head (build_item lion keys src_pwd dst_pwd x) (findkey keys (codes "@")) busy),
    λ at stop e first. rw (stop, e) (at_head x at first),
    λ stop p. rw (stop, p) (spliced-head x at_default y ys),
  )
