-- ===== src/Users.antt =====
-- engine/users.c: the list of users with their passwords: users_authenticate, users_setpass,
-- users_add. Writing and reading the file is not modelled.
pub mod Laws
use fxp_one.Prelude.{
  Bool, true, false, ◌&&◌, ◌||◌, List, [], ◌∷◌, Option, none, some, Text, codes, text_eq,
  if◌then◌else◌,
}
use fxp_one.Lion.{Lion}
use fxp_one.Site.{findkey}

-- users_head with its next pointers: names and passwords.
abbrev pub Users : Type 0
Users = List (Text × Text)

module _ (lion : Lion) where
  open lion use {same_text}

  unfoldable pub users_authenticate : Users → Text → Text → Bool
  users_authenticate [] name pass = false
  users_authenticate ((n, p) ∷ us) name pass =
      (same_text n name && text_eq p pass) || users_authenticate us name pass

  -- The first entry of that name.
  unfoldable pub users_setpass : Users → Text → Text → Users
  users_setpass [] name pass = []
  users_setpass ((n, p) ∷ us) name pass =
      let rest = users_setpass us name pass in
      if same_text n name then (n, pass) ∷ us else (n, p) ∷ rest

new_entry : Option Text → Option Text → Users → Users
new_entry none pass us = us
new_entry (some n) none us = us
new_entry (some n) (some p) us = (n, p) ∷ us

unfoldable pub users_add : List (Option Text × Text) → Users → Users
unfolding new_entry
users_add keys us = new_entry (findkey keys (codes "NAME")) (findkey keys (codes "PASS")) us
