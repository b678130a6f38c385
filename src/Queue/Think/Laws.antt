-- ===== src/Queue/Think/Laws.antt =====
-- What queue_directory_think adds to a queue, and where.
use mathlib.Core.List.Perm
use mathlib.Core.List.{perm_middle}
use fxp_one.Prelude.{
  Perm, ◌++◌, ℕ, zero, suc, ◌<◌, Bool, true, false, List, [], ◌∷◌, Option, some, ◌≡◌, refl, Text,
  if◌then◌else◌, get_elem?, insert_at, arith, ℤ, pos, negsuc, is_zero, is_minus_one, Bool-cases,
  inl, inr, ◌⊎◌,
}
use fxp_one.Lion.{Lion}
use fxp_one.Site.{Site}
use fxp_one.File.{File}
use fxp_one.Queue.Types.{is_directory, is_file, is_stop, Qitem, Queue}
use fxp_one.Queue.Insert.{insert_item, place}
use fxp_one.Queue.Insert.Places.{spliced-perm, spliced-insert_at}
use fxp_one.Queue.Accounting.{IsCounted, insert_item-IsCounted}
use fxp_one.Queue.Skiplist.{queue_skiplist}
use fxp_one.Queue.Think.{
  raise_weight, think_position, find_name, is_wanted, make_item, think_insert, file_weight,
  think_file, queue_directory_think,
}

-- The weights that the loop gives to what it takes.
abbrev pub IsTakenWeight : ℤ → Type 0
IsTakenWeight w = (w ≡ pos 0) ⊎ (w ≡ negsuc 0)

-- An item goes behind a STOP that heads the queue.
think_position-behind_stop :
    (s : Qitem) (xs : List Qitem) (x : Qitem)
    → is_stop s.type ≡ true
    → IsTakenWeight x.weight
    → 0 < place (think_position (s ∷ xs) x) (s ∷ xs)
unfolding think_position place
think_position-behind_stop s xs x stop taken = ground arith

-- A directory that moves first, put into a queue that begins with a plain file, is not put first:
-- its place 0 is printed as "0", which asks for the default place.
pub think_insert-plain_head :
    (q : Queue) (x f : Qitem) (rest : List Qitem)
    → q.items ≡ f ∷ rest
    → is_file f.type ≡ true
    → is_zero f.weight ≡ true
    → is_directory x.type ≡ true
    → is_minus_one x.weight ≡ true
    → get_elem? (think_insert q x).items 0 ≡ some f
unfolding think_insert insert_item think_position place
think_insert-plain_head q x f rest is plain zero_w dir first = ground arith

insert_at-head :
    (n : ℕ) (x s : Qitem) (xs : List Qitem) → 0 < n → get_elem? (insert_at n x (s ∷ xs)) 0 ≡ some s
insert_at-head zero x s xs h = elim h [ ]
insert_at-head (suc n) x s xs h = refl

think_insert-keeps_stop :
    (q : Queue) (x s : Qitem) (xs : List Qitem)
    → q.items ≡ s ∷ xs
    → is_stop s.type ≡ true
    → IsTakenWeight x.weight
    → get_elem? (think_insert q x).items 0 ≡ some s
unfolding think_insert insert_item
think_insert-keeps_stop q x s xs is stop taken =
    rw (is, spliced-insert_at x (think_position (s ∷ xs) x) (s ∷ xs))
      (insert_at-head _ x s xs (think_position-behind_stop s xs x stop taken))

head-cons :
    (xs : List Qitem) {s : Qitem} → get_elem? xs 0 ≡ some s → (r : List Qitem) × (xs ≡ s ∷ r)
head-cons [] h = absurd (ground arith)
head-cons (x ∷ xs) h = (xs, ground arith)

module _ (lion : Lion) (site : Site) (dmovefirst : Bool) (listing : List File)
    (dst_fullpath : Option Text) (src_is_north : Bool) where
  unfoldable weight_of : File → ℤ
  weight_of = file_weight lion site dmovefirst

  think : Queue → List File → Queue
  think = queue_directory_think lion site dmovefirst listing dst_fullpath src_is_north

  unfoldable match_of : File → Option File
  match_of f = find_name lion listing f.name

  unfoldable pub item_of : File → Qitem
  unfolding weight_of match_of
  item_of f = make_item lion src_is_north (weight_of f) f (match_of f) dst_fullpath

  unfoldable pub takes : File → Bool
  unfolding weight_of match_of
  takes f = is_wanted false (weight_of f) f (match_of f)

  -- The items that a listing gives, in its order.
  unfoldable pub new_items : List File → List Qitem
  unfolding takes item_of
  new_items [] = []
  new_items (f ∷ fs) = if takes f then item_of f ∷ new_items fs else new_items fs

  takes-IsTakenWeight : (f : File) → takes f ≡ true → IsTakenWeight (item_of f).weight
  unfolding takes item_of make_item is_wanted file_weight raise_weight queue_skiplist
  takes-IsTakenWeight f h = ground arith

  think_file-cases :
      (P : Queue → Type 0) (q : Queue) (f : File)
      → (takes f ≡ false → P q)
      → (takes f ≡ true → P (think_insert q (item_of f)))
      → P (think_file lion site dmovefirst listing dst_fullpath src_is_north q f)
  unfolding think_file takes item_of
  think_file-cases P q f left taken = elim (Bool-cases (takes f)) [
    | inl e ↦ rw e (taken e)
    | inr e ↦ rw e (left e)
  ]

  think_insert-perm : (q : Queue) (x : Qitem) → Perm (x ∷ q.items) (think_insert q x).items
  unfolding think_insert insert_item
  think_insert-perm q x = spliced-perm x (think_position q.items x) q.items

  think_insert-IsCounted : (q : Queue) (x : Qitem) → IsCounted q → IsCounted (think_insert q x)
  unfolding think_insert
  think_insert-IsCounted q x v = insert_item-IsCounted q x (think_position q.items x) v

  -- What one more file adds.
  one_more-perm :
      (f : File) (fs : List File) (q : Queue) (ys : List Qitem)
      → Perm
          (new_items fs
            ++ (think_file lion site dmovefirst listing dst_fullpath src_is_north q f).items)
          ys
      → Perm (new_items (f ∷ fs) ++ q.items) ys
  unfolding new_items think_file takes item_of
  one_more-perm f fs q ys p = elim (Bool-cases (takes f)) [
    | inl e ↦ rw e (
        Perm.trans (Perm.symm (perm_middle (new_items fs) q.items)) (
          Perm.trans (Perm.append (Perm.refl (new_items fs)) (think_insert-perm q (item_of f)))
            (rw e at p)))
    | inr e ↦ rw e (rw e at p)
  ]

  -- The comparison adds one item for each file of the listing that it takes, drops and changes no
  -- item that was there, and keeps the counters equal to the lengths of the lists.
  pub think-perm :
      (fs : List File) (q : Queue)
      → Perm
          (new_items fs ++ q.items)
          (queue_directory_think lion site dmovefirst listing dst_fullpath src_is_north q fs).items
        × (IsCounted q
            → IsCounted
                (queue_directory_think lion site dmovefirst listing dst_fullpath src_is_north q fs))
  unfolding queue_directory_think new_items
  think-perm [] q = (Perm.refl q.items, λ v. v)
  think-perm (f ∷ fs) q =
      let q' = think_file lion site dmovefirst listing dst_fullpath src_is_north q f in
      let (p, c) = think-perm fs q' in
      (
        one_more-perm f fs q _ p,
        λ v.
            c (
              think_file-cases IsCounted q f (λ e. v)
                (λ e. think_insert-IsCounted q (item_of f) v)),
      )

  -- A STOP item at the head of the queue stays at the head: nothing that a directory expands to is
  -- put before it, move-first items included.
  pub think-keeps_stop :
      (fs : List File) (q : Queue) (s : Qitem)
      → get_elem? q.items 0 ≡ some s
      → is_stop s.type ≡ true
      → get_elem?
          (queue_directory_think lion site dmovefirst listing dst_fullpath src_is_north q fs).items
          0
        ≡ some s
  unfolding queue_directory_think
  think-keeps_stop [] q s h stop = h
  think-keeps_stop (f ∷ fs) q s h stop =
      think-keeps_stop fs (think_file lion site dmovefirst listing dst_fullpath src_is_north q f) s
        (think_file-cases (λ r. get_elem? r.items 0 ≡ some s) q f (λ e. h)
          (λ e.
            let (xs, is) = head-cons q.items h in
            think_insert-keeps_stop q (item_of f) s xs is stop (takes-IsTakenWeight f e)))
        stop
