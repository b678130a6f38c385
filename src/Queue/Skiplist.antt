-- ===== src/Queue/Skiplist.antt =====
-- engine/queue.c: queue_skiplist.
pub mod Laws
use fxp_one.Prelude.{
  Bool, true, false, not, ◌&&◌, Option, none, some, Text, ◌==◌, if◌then◌else◌, ℤ, pos, negsuc,
}
use fxp_one.Lion.{Lion}
use fxp_one.Site.{Yna, is_yes, is_no, Site}
use fxp_one.File.{File, file_listmatch}

module _ (lion : Lion) where
  -- A list that is set and has a pattern for the name; a file always has a name.
  match_name : Text → Option Text → Bool
  match_name list none = false
  match_name list (some name) = file_listmatch lion list name

  unfoldable pub on_list : Option Text → Option Text → Bool
  unfolding match_name
  on_list none name = false
  on_list (some list) name = match_name list name

  -- A pass list is set and has no pattern for the name.
  unfoldable pub off_list : Option Text → Option Text → Bool
  unfolding match_name
  off_list none name = false
  off_list (some list) name = not (match_name list name)

  skip_directory : Site → File → ℤ
  skip_directory site file =
      if off_list site.directory_passlist file.name
      then pos 2
      else if on_list site.directory_skiplist file.name
      then pos 3
      else if on_list site.directory_movefirst file.name
      then negsuc 0
      else pos 0

  skip_file : Site → File → ℤ
  skip_file site file =
      if file.size == 0 && not (is_no site.file_skipempty)
      then pos 1
      else if off_list site.file_passlist file.name
      then pos 2
      else if on_list site.file_skiplist file.name
      then pos 3
      else if on_list site.file_movefirst file.name
      then negsuc 0
      else pos 0

  unfoldable pub queue_skiplist : Site → File → ℤ
  unfolding skip_directory skip_file
  queue_skiplist site file =
      if is_yes file.directory then skip_directory site file else skip_file site file
