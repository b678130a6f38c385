-- ===== src/Queue/Skiplist/Laws.antt =====
-- The verdict of queue_skiplist.
use fxp_one.Prelude.{
  Bool, not, ◌&&◌, ◌||◌, Option, ◌≡◌, Text, ◌==◌, if◌then◌else◌, arith, is_pos, is_neg,
}
use fxp_one.Lion.{Lion}
use fxp_one.Site.{is_yes, is_no, Site}
use fxp_one.File.{File}
use fxp_one.Queue.Skiplist.{on_list, off_list, queue_skiplist}

module _ (lion : Lion) (site : Site) (file : File) where
  -- What the three lists of the site say, by the type of the file.
  abbrev pub passlist : Option Text
  passlist = if is_yes file.directory then site.directory_passlist else site.file_passlist

  abbrev pub skiplist : Option Text
  skiplist = if is_yes file.directory then site.directory_skiplist else site.file_skiplist

  abbrev pub movefirst : Option Text
  movefirst = if is_yes file.directory then site.directory_movefirst else site.file_movefirst

  -- A file, not a directory, with no bytes, which the site is not set to keep.
  abbrev pub is_skipped_empty : Bool
  is_skipped_empty =
      not (is_yes file.directory) && file.size == 0 && not (is_no site.file_skipempty)

  abbrev pub is_rejected : Bool
  is_rejected =
      is_skipped_empty || off_list lion passlist file.name || on_list lion skiplist file.name

  -- A file is skipped exactly when it is an empty file and those are skipped, when a pass list is
  -- set that has no pattern for it, or when the skip list has one; it moves first exactly when it
  -- is not skipped and the move-first list has a pattern for it.
  pub queue_skiplist-verdict :
      (is_pos (queue_skiplist lion site file) ≡ is_rejected)
      × (is_neg (queue_skiplist lion site file)
          ≡ (not is_rejected && on_list lion movefirst file.name))
  unfolding queue_skiplist
  queue_skiplist-verdict = ground arith
