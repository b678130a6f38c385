-- ===== src/Site/Keys/Laws.antt =====
-- Which keys a site needs.
use fxp_one.Prelude.{
  Bool, true, false, not, ◌&&◌, ◌||◌, List, [], ◌∷◌, Option, none, some, Text, ◌≡◌, refl, ◌==◌,
  arith, if◌then◌else◌,
}
use fxp_one.Lion.{Lion}
use fxp_one.Site.{Site}
use fxp_one.Site.Keys.{
  Pair, Field, f_name, f_host, f_user, f_pass, field_of, Seen, unseen, all_seen, Outcome, used,
  kept, missing, set_field, clear_field, Reading, stopped, finished, keep_pair, read_pair,
  read_pairs, finish_keys, sites_parsekeys,
}

abbrev pub same_field : Field → Field → Bool
same_field f_name f_name = true
same_field f_host f_host = true
same_field f_user f_user = true
same_field f_pass f_pass = true
same_field f g = false

-- The pair gives a value to the field.
abbrev pub gives : Field → Pair → Bool
gives f (none, v) = false
gives f (some k, none) = false
gives f (some k, some v) = elim (field_of k) [ none ↦ false | some g ↦ same_field f g ]

abbrev pub is_required : Field → Bool
is_required f_name = true
is_required f_host = true
is_required f_user = true
is_required f_pass = true
is_required f = false

-- The pair names a required field without a value.
abbrev pub lacks_value : Pair → Bool
lacks_value (none, v) = false
lacks_value (some k, some v) = false
lacks_value (some k, none) = elim (field_of k) [ none ↦ false | some g ↦ is_required g ]

abbrev pub any_pair : (Pair → Bool) → List Pair → Bool
any_pair p [] = false
any_pair p (x ∷ xs) = p x || any_pair p xs

abbrev seen_more : Pair → Seen → Seen
seen_more p b = record {
  seen_name = b.seen_name || gives f_name p;
  seen_host = b.seen_host || gives f_host p;
  seen_user = b.seen_user || gives f_user p;
  seen_pass = b.seen_pass || gives f_pass p;
}

abbrev seen_all : List Pair → Seen → Seen
seen_all [] b = b
seen_all (p ∷ ps) b = seen_all ps (seen_more p b)

abbrev seen_of : Reading → Option Seen
seen_of (stopped s) = none
seen_of (finished r) = some r.seen

abbrev outcome_seen : Outcome → Seen → Option Seen
outcome_seen (used s b') b = some b'
outcome_seen (kept s) b = some b
outcome_seen missing b = none

module _ (lion : Lion) where
  by_value :
      (f : Field) (v : Option Text) (s : Site) (b : Seen)
      → outcome_seen (elim v [ none ↦ clear_field f s b | some t ↦ set_field lion f t s b ]) b
        ≡ elim v [
          | none ↦ if is_required f then none else some b
          | some t ↦ some (record {
            seen_name = b.seen_name || same_field f_name f;
            seen_host = b.seen_host || same_field f_host f;
            seen_user = b.seen_user || same_field f_user f;
            seen_pass = b.seen_pass || same_field f_pass f;
          })
        ]
  unfolding clear_field set_field
  by_value f_name none s b = refl
  by_value f_name (some t) s b = ground arith
  by_value f none s b = refl
  by_value f (some t) s b = ground arith

  read_pair-seen :
      (p : Pair) (s : Site) (b : Seen)
      → outcome_seen (read_pair lion p s b) b
        ≡ (if lacks_value p then none else some (seen_more p b))
  unfolding read_pair
  read_pair-seen (none, v) s b = ground arith
  read_pair-seen (some k, none) s b = bare (field_of k)
    where
      bare :
          (o : Option Field)
          → outcome_seen (elim o [ none ↦ kept s | some f ↦ clear_field f s b ]) b ≡ (
              if elim o [ none ↦ false | some f ↦ is_required f ]
              then none
              else some (record {
                seen_name = b.seen_name || false;
                seen_host = b.seen_host || false;
                seen_user = b.seen_user || false;
                seen_pass = b.seen_pass || false;
              }))
      bare none = ground arith
      bare (some f) = ground (arith, by_value f none s b)
  read_pair-seen (some k, some t) s b = valued (field_of k)
    where
      valued :
          (o : Option Field)
          → outcome_seen (elim o [ none ↦ kept s | some f ↦ set_field lion f t s b ]) b
            ≡ some (record {
              seen_name = b.seen_name || elim o [ none ↦ false | some f ↦ same_field f_name f ];
              seen_host = b.seen_host || elim o [ none ↦ false | some f ↦ same_field f_host f ];
              seen_user = b.seen_user || elim o [ none ↦ false | some f ↦ same_field f_user f ];
              seen_pass = b.seen_pass || elim o [ none ↦ false | some f ↦ same_field f_pass f ];
            })
      valued none = ground arith
      valued (some f) = by_value f (some t) s b

  seen-keep : (p : Pair) (r : Reading) → seen_of (keep_pair p r) ≡ seen_of r
  seen-keep p (stopped s) = refl
  seen-keep p (finished r) = refl

  read_pairs-seen :
      (ps : List Pair) (s : Site) (b : Seen)
      → seen_of (read_pairs lion ps s b)
        ≡ (if any_pair lacks_value ps then none else some (seen_all ps b))
  unfolding read_pairs
  read_pairs-seen [] s b = refl
  read_pairs-seen (p ∷ ps) s b =
      by_outcome (read_pairs-seen ps) (read_pair lion p s b) (read_pair-seen p s b)
    where
      by_outcome :
          ((s' : Site) (b' : Seen)
            → seen_of (read_pairs lion ps s' b')
              ≡ (if any_pair lacks_value ps then none else some (seen_all ps b')))
          → (o : Outcome)
          → outcome_seen o b ≡ (if lacks_value p then none else some (seen_more p b))
          → seen_of (elim o [
            | missing ↦ stopped s
            | used s' b' ↦ read_pairs lion ps s' b'
            | kept s' ↦ keep_pair p (read_pairs lion ps s' b)
          ])
            ≡ (if lacks_value p || any_pair lacks_value ps
                then none
                else some (seen_all ps (seen_more p b)))
      by_outcome rest missing h = ground arith
      by_outcome rest (used s' b') h = ground (arith, rest s' b')
      by_outcome rest (kept s') h = ground (arith, rest s' b, seen-keep p (read_pairs lion ps s' b))

seen_all-names :
    (ps : List Pair) (b : Seen)
    → ((seen_all ps b).seen_name ≡ (b.seen_name || any_pair (gives f_name) ps))
      × ((seen_all ps b).seen_host ≡ (b.seen_host || any_pair (gives f_host) ps))
      × ((seen_all ps b).seen_user ≡ (b.seen_user || any_pair (gives f_user) ps))
      × ((seen_all ps b).seen_pass ≡ (b.seen_pass || any_pair (gives f_pass) ps))
seen_all-names [] b = (ground arith, ground arith, ground arith, ground arith)
seen_all-names (p ∷ ps) b =
    let h = seen_all-names ps (seen_more p b) in
    (ground (arith, h.0), ground (arith, h.1), ground (arith, h.2), ground (arith, h.3))

code-seen :
    (r : Reading)
    → ((finish_keys r).0 == 0) ≡ elim (seen_of r) [ none ↦ false | some b ↦ all_seen b ]
unfolding finish_keys
code-seen (stopped s) = ground arith
code-seen (finished r) = ground arith

-- The code is 0 exactly when name, host, user and pass are each given a value by some key, spelled in
-- any case, and none of the four is named without a value.
pub sites_parsekeys-required :
    (lion : Lion) (ps : List Pair) (site : Site)
    → ((sites_parsekeys lion ps site).0 == 0) ≡ (
        not (any_pair lacks_value ps)
        && (any_pair (gives f_name) ps
            && (any_pair (gives f_host) ps
                && (any_pair (gives f_user) ps && any_pair (gives f_pass) ps))))
unfolding sites_parsekeys
sites_parsekeys-required lion ps site =
    let h = seen_all-names ps unseen in
    ground (
      arith,
      code-seen (read_pairs lion ps site unseen),
      read_pairs-seen lion ps site unseen,
      h.0,
      h.1,
      h.2,
      h.3,
    )
