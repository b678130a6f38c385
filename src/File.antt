-- ===== src/File.antt =====
-- engine/file.c, engine/file.h: the record of a remote file, and how a destination is made from a
-- source. File.Listing has file_parse.
pub mod Listing
use fxp_one.Prelude.{
  ℕ, Bool, false, List, [], ◌∷◌, Option, none, some, Text, ◌==◌, ◌||◌, if◌then◌else◌,
}
use fxp_one.Lion.{Lion}
use fxp_one.Site.{Yna, yna_no}

pub record File : Type 0 where
  pub fid : ℕ
  pub name : Option Text
  pub fullpath : Option Text
  pub dirname : Option Text
  pub date : ℕ
  pub size : ℕ
  pub rest : ℕ
  pub user : Option Text
  pub group : Option Text
  pub perm : Text
  pub directory : Yna
  pub soft_link : Yna
  pub raw : Option Text

-- What memset leaves.
abbrev pub blank_file : File
blank_file = record {
  fid = 0;
  name = none;
  fullpath = none;
  dirname = none;
  date = 0;
  size = 0;
  rest = 0;
  user = none;
  group = none;
  perm = [];
  directory = yna_no;
  soft_link = yna_no;
  raw = none;
}

-- The text before the last '/' and the text behind it: strrchr(s, '/').
unfoldable pub split_last_slash : Text → Option (Text × Text)
split_last_slash [] = none
split_last_slash (c ∷ cs) = elim (split_last_slash cs) [
  | some (before, behind) ↦ some (c ∷ before, behind)
  | none ↦ if c == b'/' then some ([], cs) else none
]

abbrev pub or_root : Text → Text
or_root [] = b'/' ∷ []
or_root (c ∷ cs) = c ∷ cs

-- A copy keeps the target's fid, since file_dupe does not name that field.
unfoldable pub file_dupe : File → File → File
file_dupe dst src = record src { fid = dst.fid }

-- `full` is set: the other two names come from it.
split_path : File → Text → File
unfolding split_last_slash
split_path f full = elim (split_last_slash full) [
  | none ↦ record f { dirname = some (b'/' ∷ []); name = some full }
  | some (before, behind) ↦ record f { dirname = some (or_root before); name = some behind }
]

module _ (lion : Lion) where
  open lion use {strjoin, matches, slash_tokens}

  join_path : File → Option Text → Option Text → Option Text → File
  join_path f (some cwd) (some name) dirname = record f {
    fullpath = some (strjoin cwd name);
    dirname = some cwd;
  }
  join_path f none (some name) (some dirname) = record f { fullpath = some (strjoin dirname name) }
  join_path f none (some name) none = f
  join_path f cwd none dirname = f

  make_path : Option Text → File → Option Text → File
  unfolding split_path join_path
  make_path (some full) f cwd = split_path f full
  make_path none f cwd = join_path f cwd f.name f.dirname

  unfoldable pub file_makepath : File → Option Text → File
  unfolding make_path
  file_makepath f cwd = make_path f.fullpath f cwd

  -- A destination with neither a path nor a name takes the source's name.
  name_dest : Option Text → Option Text → File → File → File
  name_dest none none dst src = record dst { name = src.name }
  name_dest none (some n) dst src = dst
  name_dest (some p) name dst src = dst

  unfoldable pub file_makedest : File → File → Option Text → File
  unfolding file_makepath name_dest
  file_makedest dst src cwd = record (file_makepath (name_dest dst.fullpath dst.name dst src) cwd) {
    directory = src.directory;
    soft_link = src.soft_link;
  }

  any_match : List Text → Text → Bool
  any_match [] name = false
  any_match (ext ∷ exts) name = matches ext name || any_match exts name

  -- The separators that misc_digtoken overwrites in the list are put back, so the list stays.
  unfoldable pub file_listmatch : Text → Text → Bool
  unfolding any_match
  file_listmatch list name = any_match (slash_tokens list) name
