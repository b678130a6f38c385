-- ===== src/Site/Keys/Extras.antt =====
-- Extra keys of a site act as a map whose keys do not depend on case.
use fxp_one.Prelude.{
  true, false, List, [], ◌∷◌, Option, none, some, Text, ◌≡◌, refl, arith, case_eq, if◌then◌else◌,
  Bool-cases, inl, inr, ◌∙◌,
}
use fxp_one.Site.{findkey}
use fxp_one.Site.Keys.{has_key, replace_value, add_key, assign_key}

case_eq_refl : (t : Text) → case_eq t t ≡ true
unfolding case_eq
case_eq_refl [] = refl
case_eq_refl (c ∷ cs) = ground (arith, case_eq_refl cs)

-- Two texts that are spelled alike are spelled like the same texts.
case_eq-same : (a b c : Text) → case_eq a b ≡ true → case_eq c a ≡ case_eq c b
unfolding case_eq
case_eq-same [] [] c h = refl
case_eq-same [] (y ∷ b) c h = absurd (ground arith)
case_eq-same (x ∷ a) [] c h = absurd (ground arith)
case_eq-same (x ∷ a) (y ∷ b) [] h = refl
case_eq-same (x ∷ a) (y ∷ b) (z ∷ c) h = ground (arith, case_eq-same a b c)

case_eq_comm : (a b : Text) → case_eq a b ≡ case_eq b a
unfolding case_eq
case_eq_comm [] [] = refl
case_eq_comm [] (y ∷ b) = refl
case_eq_comm (x ∷ a) [] = refl
case_eq_comm (x ∷ a) (y ∷ b) = ground (arith, case_eq_comm a b)

-- A key that is spelled like another is spelled like the same keys.
pub case_eq-left : (a b c : Text) → case_eq a b ≡ true → case_eq a c ≡ case_eq b c
case_eq-left a b c h = case_eq_comm a c ∙ case_eq-same a b c h ∙ case_eq_comm c b

replace-find :
    (xs : List (Option Text × Text)) (k v j : Text)
    → findkey (replace_value xs k v) j
      ≡ (if case_eq j k then (if has_key xs k then some v else findkey xs j) else findkey xs j)
unfolding findkey replace_value has_key
replace-find [] k v j = ground arith
replace-find ((none, w) ∷ xs) k v j = ground (arith, replace-find xs k v j)
replace-find ((some i, w) ∷ xs) k v j =
    ground (arith, replace-find xs k v j, case_eq-same k i j, case_eq-left j k i)

add-find :
    (xs : List (Option Text × Text)) (k v j : Text)
    → has_key xs k ≡ false
    → findkey (add_key xs k v) j ≡ (if case_eq j k then some v else findkey xs j)
unfolding findkey add_key has_key
add-find [] k v j h = ground arith
add-find ((none, w) ∷ xs) k v j h = refl
add-find ((some i, w) ∷ xs) k v j h = ground (arith, add-find xs k v j, case_eq-left j k i)

-- Assigning a value to an extra key is an insertion into a map: the key, in whatever case it is
-- spelled, is found with the new value, and every other key with its old one.
pub assign_key-find :
    (extras : List (Option Text × Text)) (key value other : Text)
    → findkey (assign_key extras key value) other
      ≡ (if case_eq other key then some value else findkey extras other)
unfolding assign_key
assign_key-find extras key value other = elim (Bool-cases (has_key extras key)) [
  | inl there ↦ ground (arith, there, replace-find extras key value other)
  | inr new ↦ ground (arith, new, add-find extras key value other)
]
