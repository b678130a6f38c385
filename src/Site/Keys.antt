-- ===== src/Site/Keys.antt =====
-- engine/sites.c: sites_newnode and sites_parsekeys, which reads keys and values into a site. A key
-- that is taken out is NULL. Running out of memory is not modelled.
pub mod Laws
pub mod Extras
mod Fields
use fxp_one.Prelude.{
  ℕ, Bool, true, false, not, ◌&&◌, ◌||◌, List, [], ◌∷◌, Option, none, some, Text, codes, case_eq,
  atoi, if◌then◌else◌,
}
use fxp_one.Lion.{Lion}
unfoldable pub use Fields.*
use fxp_one.Site.{Yna, yna_no, yna_auto, Site, str2yna}

abbrev pub Pair : Type 0
Pair = Option Text × Option Text

unfoldable pub sites_newnode : Site
sites_newnode = record {
  id = 0;
  name = none;
  host = [];
  ip = 0;
  port = 21;
  iface = 0;
  iport = 0;
  user = [];
  pass = [];
  passive = yna_auto;
  fxp_passive = yna_auto;
  control_tls = yna_auto;
  data_tls = yna_auto;
  desired_type = yna_auto;
  resume = yna_auto;
  resume_last = yna_auto;
  pret = yna_auto;
  file_skiplist = none;
  directory_skiplist = none;
  file_passlist = none;
  directory_passlist = none;
  file_movefirst = none;
  directory_movefirst = none;
  file_skipempty = yna_auto;
  directory_skipempty = yna_auto;
  extras = [];
}

-- What the first loop leaves: the site, the bits, and the pairs that are left.
pub record Read : Type 0 where
  pub site : Site
  pub seen : Seen
  pub left : List Pair

pub data Reading : Type 0 where
  stopped : Site → Reading
  finished : Read → Reading

abbrev pub keep_pair : Pair → Reading → Reading
keep_pair p (stopped s) = stopped s
keep_pair p (finished r) = finished (record r { left = p ∷ r.left })

-- parser_findkey_once: the first key that is spelled like it is taken out.
unfoldable pub forget_key : List (Option Text × Text) → Text → List (Option Text × Text)
forget_key [] key = []
forget_key ((none, v) ∷ xs) key = (none, v) ∷ forget_key xs key
forget_key ((some k, v) ∷ xs) key =
    let rest = forget_key xs key in if case_eq key k then (none, v) ∷ xs else (some k, v) ∷ rest

abbrev pub is_blank : Option Text → Bool
is_blank none = true
is_blank (some []) = true
is_blank (some (c ∷ cs)) = false

-- A key without a value is deleted among the extras, and is not added.
unfoldable pub delete_empty : List Pair → List (Option Text × Text) → List (Option Text × Text)
unfolding forget_key
delete_empty [] extras = extras
delete_empty ((none, v) ∷ ps) extras = delete_empty ps extras
delete_empty ((some k, v) ∷ ps) extras =
    delete_empty ps (if is_blank v then forget_key extras k else extras)

unfoldable pub without_empty : List Pair → List Pair
without_empty [] = []
without_empty ((k, v) ∷ ps) =
    let rest = without_empty ps in if is_blank v then rest else (k, v) ∷ rest

-- The value goes to its key if it is there.
unfoldable pub has_key : List (Option Text × Text) → Text → Bool
has_key [] key = false
has_key ((none, v) ∷ xs) key = has_key xs key
has_key ((some k, v) ∷ xs) key = case_eq key k || has_key xs key

unfoldable pub replace_value : List (Option Text × Text) → Text → Text → List (Option Text × Text)
replace_value [] key value = []
replace_value ((none, v) ∷ xs) key value = (none, v) ∷ replace_value xs key value
replace_value ((some k, v) ∷ xs) key value =
    let rest = replace_value xs key value in
    if case_eq key k then (some k, value) ∷ xs else (some k, v) ∷ rest

-- Otherwise it goes to the first place that is empty, or to the end.
unfoldable pub add_key : List (Option Text × Text) → Text → Text → List (Option Text × Text)
add_key [] key value = (some key, value) ∷ []
add_key ((none, v) ∷ xs) key value = (some key, value) ∷ xs
add_key ((some k, v) ∷ xs) key value = (some k, v) ∷ add_key xs key value

unfoldable pub assign_key : List (Option Text × Text) → Text → Text → List (Option Text × Text)
unfolding has_key replace_value add_key
assign_key extras key value =
    if has_key extras key then replace_value extras key value else add_key extras key value

unfoldable pub assign_all : List Pair → List (Option Text × Text) → List (Option Text × Text)
unfolding assign_key
assign_all [] extras = extras
assign_all ((some k, some v) ∷ ps) extras = assign_all ps (assign_key extras k v)
assign_all ((none, v) ∷ ps) extras = assign_all ps extras
assign_all ((some k, none) ∷ ps) extras = assign_all ps extras

-- Keys are only deleted at a site that has extras.
unfoldable pub merge_extras : List Pair → List (Option Text × Text) → List (Option Text × Text)
unfolding delete_empty without_empty assign_all
merge_extras ps [] = assign_all ps []
merge_extras ps (x ∷ xs) = assign_all (without_empty ps) (delete_empty ps (x ∷ xs))

unfoldable pub finish_keys : Reading → ℕ × Site
unfolding merge_extras
finish_keys (stopped s) = (1504, s)
finish_keys (finished r) = (
  if all_seen r.seen then 0 else 1504,
  record r.site { extras = merge_extras r.left r.site.extras },
)

module _ (lion : Lion) where
  unfoldable pub read_pair : Pair → Site → Seen → Outcome
  unfolding set_field clear_field field_of
  read_pair (none, v) s b = kept s
  read_pair (some k, v) s b = elim (field_of k) [
    | none ↦ kept s
    | some f ↦ elim v [ none ↦ clear_field f s b | some t ↦ set_field lion f t s b ]
  ]

  -- A missing value of a required field ends the loop.
  unfoldable pub read_pairs : List Pair → Site → Seen → Reading
  unfolding read_pair
  read_pairs [] s b = finished (record { site = s; seen = b; left = [] })
  read_pairs (p ∷ ps) s b = elim (read_pair p s b) [
    | missing ↦ stopped s
    | used s' b' ↦ read_pairs ps s' b'
    | kept s' ↦ keep_pair p (read_pairs ps s' b)
  ]

  -- The code, 0 if all went well, and the site with what was read.
  unfoldable pub sites_parsekeys : List Pair → Site → ℕ × Site
  unfolding read_pairs finish_keys
  sites_parsekeys ps site = finish_keys (read_pairs ps site unseen)
