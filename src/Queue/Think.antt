-- ===== src/Queue/Think.antt =====
-- engine/queue.c: queue_directory_think, the comparison of a source directory with a destination
-- directory, when it fills the queue (no QCOMPARE handle) and when it reports (with one). What is
-- sent to subscribers is left out; the ids that QCOMPARE prints are the list that is given back.
pub mod Laws
use fxp_one.Prelude.{
  ℕ, zero, suc, Bool, true, false, not, ◌&&◌, ◌||◌, List, [], ◌∷◌, ◌++◌, Option, none, some, Text,
  codes, ◌==◌, leb, if◌then◌else◌, ℤ, pos, negsuc, is_neg, is_pos, is_zero, is_minus_one,
}
use fxp_one.Lion.{Lion}
use fxp_one.Site.{Yna, is_yes, Site}
use fxp_one.File.{File, blank_file, file_dupe, file_makedest}
use fxp_one.Queue.Types.{
  QitemType, type_file, type_directory, type_stop, is_directory, is_file, is_stop, Qitem,
  blank_item, Queue, Position, at_first, at_default, at_nth,
}
use fxp_one.Queue.Insert.{insert_item}
use fxp_one.Queue.Skiplist.{queue_skiplist}

-- The weight of a file once the parent directory's is_dmovefirst is taken into account.
unfoldable pub raise_weight : Bool → ℤ → ℤ
raise_weight dmovefirst w = if is_zero w && dmovefirst then negsuc 0 else w

-- The place behind the items that move first and the STOP items.
unfoldable pub movefirst_place : List Qitem → ℕ
movefirst_place [] = 0
movefirst_place (x ∷ xs) =
    let rest = suc (movefirst_place xs) in
    if is_file x.type && is_minus_one x.weight || is_stop x.type then rest else 0

-- The place is printed and handed on as text, of which "0" means the default place.
abbrev pub number_position : ℕ → Position
number_position zero = at_default
number_position (suc n) = at_nth (suc n)

abbrev head_is_stop : List Qitem → Bool
head_is_stop [] = false
head_is_stop (x ∷ xs) = is_stop x.type

unfoldable pub think_position : List Qitem → Qitem → Position
unfolding movefirst_place
think_position items x =
    if is_directory x.type && is_minus_one x.weight
    then number_position (movefirst_place items)
    else if is_minus_one x.weight && head_is_stop items
    then at_nth 1
    else if is_zero x.weight
    then at_default
    else at_first

-- A file on the other side that is as big, or while comparing a directory there.
unfoldable pub is_complete : Bool → File → Option File → Bool
is_complete compare file none = false
is_complete compare file (some d) =
    not (is_yes d.directory) && leb file.size d.size || compare && is_yes d.directory

-- What the loop takes: no weight above 0, and not complete on the other side.
unfoldable pub is_wanted : Bool → ℤ → File → Option File → Bool
unfolding is_complete
is_wanted compare w file dst_file = not (is_pos w) && not (is_complete compare file dst_file)

unfoldable pub think_insert : Queue → Qitem → Queue
think_insert q x = (insert_item q x (think_position q.items x)).0

module _ (lion : Lion) where
  open lion use {same_text}

  same_name : Option Text → Option Text → Bool
  same_name none n = false
  same_name (some m) none = false
  same_name (some m) (some n) = same_text m n

  -- session_getname over the cached listing
  unfoldable pub find_name : List File → Option Text → Option File
  unfolding same_name
  find_name [] name = none
  find_name (f ∷ fs) name = if same_name f.name name then some f else find_name fs name

  dest_name : Option File → File
  dest_name none = blank_file
  dest_name (some d) = record blank_file { name = d.name }

  unfoldable pub make_item : Bool → ℤ → File → Option File → Option Text → Qitem
  unfolding dest_name
  make_item src_is_north w file dst_file dst_fullpath =
      let src = file_dupe blank_file file in
      record blank_item {
        type = if is_yes file.directory then type_directory else type_file;
        weight = w;
        src = src;
        dst = file_makedest lion (dest_name dst_file) src dst_fullpath;
        src_is_north = src_is_north;
      }

  unfoldable pub file_weight : Site → Bool → File → ℤ
  file_weight site dmovefirst file = raise_weight dmovefirst (queue_skiplist lion site file)

  -- The other side's site, its is_dmovefirst and its listing, and where the directory goes.
  module _ (site : Site) (dmovefirst : Bool) (listing : List File)
      (dst_fullpath : Option Text) where
    think_file : Bool → Queue → File → Queue
    unfolding file_weight think_insert
    think_file src_is_north q file =
        let w = file_weight site dmovefirst file in
        let d = find_name listing file.name in
        if is_wanted false w file d
        then think_insert q (make_item src_is_north w file d dst_fullpath)
        else q

    unfoldable pub queue_directory_think : Bool → Queue → List File → Queue
    unfolding think_file
    queue_directory_think src_is_north q [] = q
    queue_directory_think src_is_north q (f ∷ fs) =
        queue_directory_think src_is_north (think_file src_is_north q f) fs

    -- With a QCOMPARE handle: the ids to highlight.
    unfoldable pub compare_fids : List File → List ℕ
    unfolding file_weight
    compare_fids [] = []
    compare_fids (f ∷ fs) =
        if is_wanted true (file_weight site dmovefirst f) f (find_name listing f.name)
        then f.fid ∷ compare_fids fs
        else compare_fids fs
