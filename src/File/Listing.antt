-- ===== src/File/Listing.antt =====
-- engine/file.c: file_parse, which reads one line of a directory listing, and engine/session.c:
-- session_parse, session_getfid. Running out of memory is not modelled.
pub mod Laws
use fxp_one.Prelude.{
  ℕ, suc, ◌+◌, Bool, true, false, not, ◌&&◌, ◌||◌, List, [], ◌∷◌, ◌++◌, Option, none, some, Text,
  codes, text_eq, length, leb, ◌==◌, if◌then◌else◌, ◌>>=◌, ◌>>◌, guard, ◌%◌, ◌^◌, to_lower,
  is_alpha, strtoull,
}
use fxp_one.Lion.{Lion}
use fxp_one.Site.{Yna, yna_no, yna_yes, yna_auto}
use fxp_one.File.{File, blank_file, file_makepath}

blanks : Text
blanks = b' ' ∷ 9 ∷ 13 ∷ 10 ∷ []

-- The fields in front of the date, and what stands behind them.
pub record Fields : Type 0 where
  pub perm : Text
  pub user : Text
  pub group : Text
  pub size : Text
  pub rest : Text

-- Three letters where the size should be are the month: a field is missing, and the others move up.
is_month : Text → Bool
is_month (a ∷ b ∷ c ∷ []) = is_alpha a && (is_alpha b && is_alpha c)
is_month t = false

unfoldable pub align : Text → Text → Text → Text → Text → Text → Fields
unfolding is_month
align perm links user group size rest =
    if is_month size
    then record {
      perm = perm;
      user = links;
      group = user;
      size = group;
      rest = size ++ b' ' ∷ rest;
    }
    else record { perm = perm; user = user; group = group; size = size; rest = rest }

unfoldable pub skip_blank : Text → Text
skip_blank [] = []
skip_blank (c ∷ cs) = if c == b' ' then skip_blank cs else c ∷ cs

-- The date as text: three fields that fit, or the first day of 1970.
unfoldable pub date_text : Text → Text → Text → Text
date_text month day timeyear =
    if leb (length month + length day + length timeyear) 10
    then month ++ b' ' ∷ day ++ b' ' ∷ timeyear
    else codes "Jan 1 1970"

-- What the first letter of the permissions says: a directory and a link, or nothing for other kinds.
pub record Kind : Type 0 where
  pub directory : Yna
  pub soft_link : Yna

kind_of_letter : ℕ → Option Kind
kind_of_letter c =
    if to_lower c == b'd'
    then some (record { directory = yna_yes; soft_link = yna_no })
    else if to_lower c == b'-'
    then some (record { directory = yna_no; soft_link = yna_no })
    else if to_lower c == b'l'
    then some (record { directory = yna_auto; soft_link = yna_yes })
    else none

unfoldable pub kind_of : Text → Option Kind
unfolding kind_of_letter
kind_of [] = none
kind_of (c ∷ cs) = kind_of_letter c

unfoldable pub is_self : Text → Bool
is_self name = text_eq name (codes ".") || text_eq name (codes "..")

module _ (lion : Lion) where
  unfoldable pub token : Text → Option (Text × Text)
  unfolding blanks
  token t = lion.digtoken blanks t

  unfoldable pub make_file : Option Text → Fields → Text → Kind → Text → File
  make_file raw f date kind name = record blank_file {
    name = some name;
    date = lion.getdate date;
    size = strtoull f.size;
    user = some f.user;
    group = some f.group;
    perm = f.perm;
    directory = kind.directory;
    soft_link = kind.soft_link;
    raw = raw;
  }

  -- The date and the name.
  unfoldable pub parse_rest : Option Text → Fields → Option File
  unfolding token skip_blank date_text kind_of is_self make_file
  parse_rest raw f = do
    (month, at) ← token (skip_blank f.rest)
    (day, at) ← token at
    (timeyear, at) ← token at
    let name = skip_blank at
    kind ← kind_of f.perm
    guard (not (is_self name))
    some (make_file raw f (date_text month day timeyear) kind name)

  unfoldable pub parse_line : Option Text → Text → Option File
  unfolding token align parse_rest
  parse_line raw line = do
    (perm, at) ← token line
    guard (not (lion.same_text (codes "total") perm) && length perm == 10)
    (links, at) ← token at
    (user, at) ← token at
    (group, at) ← token at
    (size, at) ← token at
    parse_rest raw (align perm links user group size at)

  unfoldable pub file_parse : Text → Bool → Option File
  unfolding parse_line
  file_parse line raw = parse_line (if raw then some line else none) line

  -- A new file goes to the end of the listing; its fid is its position, from 1.
  unfoldable pub add_file : List File → Option Text → File → List File
  unfolding file_makepath
  add_file files pwd f =
      files ++ record (file_makepath lion f pwd) { fid = suc (length files) % 2 ^ 32 } ∷ []

  unfoldable pub session_parse : List File → Option Text → Bool → Text → List File
  unfolding file_parse add_file
  session_parse files pwd raw line = elim (file_parse line raw) [
    | none ↦ files
    | some f ↦ add_file files pwd f
  ]

-- The first file with the id.
unfoldable pub session_getfid : List File → ℕ → Option File
session_getfid [] fid = none
session_getfid (f ∷ fs) fid = if f.fid == fid then some f else session_getfid fs fid
