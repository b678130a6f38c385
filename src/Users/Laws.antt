-- ===== src/Users/Laws.antt =====
-- What SETPASS does to the logins.
use fxp_one.Prelude.{
  Bool, true, false, ◌||◌, [], ◌∷◌, Text, text_eq_refl, case_eq, ◌≡◌, refl, arith,
}
use fxp_one.Lion.{Lion, CaseCompare}
use fxp_one.Site.Keys.Extras.{case_eq-left}
use fxp_one.Users.{Users, users_authenticate, users_setpass}

module _ (lion : Lion) where
  -- Some entry has the name.
  abbrev pub is_known : Users → Text → Bool
  is_known [] name = false
  is_known ((n, p) ∷ us) name = lion.same_text n name || is_known us name

  logs_in :
      (us : Users) (name pass : Text)
      → is_known us name ≡ true
      → users_authenticate lion (users_setpass lion us name pass) name pass ≡ true
  unfolding users_authenticate users_setpass
  logs_in [] name pass h = ground (arith, h)
  logs_in ((n, p) ∷ us) name pass h = ground (arith, text_eq_refl pass, logs_in us name pass)

module _ (lion : Lion) (cc : CaseCompare lion) where
  others :
      (us : Users) (name pass other word : Text)
      → case_eq name other ≡ false
      → users_authenticate lion (users_setpass lion us name pass) other word
        ≡ users_authenticate lion us other word
  unfolding users_authenticate users_setpass
  others [] name pass other word h = refl
  others ((n, p) ∷ us) name pass other word h = ground (
    arith,
    cc.same_text_lem n name,
    cc.same_text_lem n other,
    case_eq-left n name other,
    others us name pass other word h,
  )

  -- After SETPASS a known name logs in with the new password, and every other name, where case does not
  -- count, logs in with just the passwords that it had.
  pub users_setpass-authenticate :
      (us : Users) (name pass : Text)
      → (is_known lion us name ≡ true
          → users_authenticate lion (users_setpass lion us name pass) name pass ≡ true)
        × ((other word : Text)
            → case_eq name other ≡ false
            → users_authenticate lion (users_setpass lion us name pass) other word
              ≡ users_authenticate lion us other word)
  users_setpass-authenticate us name pass =
      (logs_in lion us name pass, λ other word h. others us name pass other word h)
