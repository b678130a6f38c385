-- ===== src/Engine/Commands/Paths.antt =====
-- session_pwd_reply: the working directory that a reply to PWD names.
use fxp_one.Prelude.{[], ◌∷◌, Option, none, some, Text}
use fxp_one.Lion.{Lion}
use fxp_one.Session.{Session}

-- The path in quotes, if there is one that is not empty.
quoted_path : Lion → Option Text → Option Text
quoted_path lion none = none
quoted_path lion (some []) = none
quoted_path lion (some (c ∷ cs)) = elim (lion.quoted (c ∷ cs)) [
  | none ↦ none
  | some [] ↦ none
  | some (x ∷ xs) ↦ some (x ∷ xs)
]

-- Otherwise the directory that the last CWD asked for is taken, if it is known.
or_saved : Option Text → Option Text → Option Text
or_saved none pwd = pwd
or_saved (some saved) pwd = some saved

unfoldable pub session_pwd_reply : Lion → Session → Option Text → Session
unfolding quoted_path or_saved
session_pwd_reply lion s line = elim (quoted_path lion line) [
  | some path ↦ record s { pwd = some path }
  | none ↦ record s { pwd = or_saved s.saved_cwd s.pwd }
]
