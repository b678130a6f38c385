-- ===== src/File/Listing/Laws.antt =====
-- What a line of a listing can become, and how the files of a listing are numbered.
use mathlib.Core.Path.{subst}
use fxp_one.Prelude.{
  ℕ, zero, suc, ◌+◌, ◌^◌, ◌<◌, Bool, true, false, not, ◌&&◌, List, [], ◌∷◌, ◌++◌, Option, none,
  some, Text, ◌≡◌, refl, ◌==◌, length, get_elem?, arith, ◌⊎◌, inl, inr, Bool-cases, guard, ◌>>◌,
  ◌>>=◌, ap, ◌∙◌,
}
use fxp_one.Lion.{Lion}
use fxp_one.File.{File}
use fxp_one.File.Listing.{
  Fields, align, skip_blank, date_text, Kind, kind_of, is_self, make_file, token, parse_rest,
  parse_line, file_parse, add_file, session_parse, session_getfid,
}

abbrev pub head_blank : Text → Bool
head_blank [] = false
head_blank (c ∷ cs) = c == b' '

skip_blank-head : (t : Text) → head_blank (skip_blank t) ≡ false
unfolding skip_blank
skip_blank-head [] = refl
skip_blank-head (c ∷ cs) = elim (Bool-cases (c == b' ')) [
  | inl e ↦ rw e (skip_blank-head cs)
  | inr e ↦ rw e e
]

-- What is promised of a file that comes from a line.
pub record IsEntry (f : File) : Type 0 where
  pub ten_letters : length f.perm ≡ 10
  pub kind : kind_of f.perm ≡ some (record { directory = f.directory; soft_link = f.soft_link })
  pub name : (n : Text) × (f.name ≡ some n) × (is_self n ≡ false) × (head_blank n ≡ false)

align-perm :
    (perm links user group size rest : Text) → (align perm links user group size rest).perm ≡ perm
unfolding align
align-perm perm links user group size rest = ground arith

-- Every file that comes of it is an entry.
record Gives (o : Option File) : Type 0 where
  at : (f : File) → o ≡ some f → IsEntry f

Gives-bind {ℓ} :
    {A : Type ℓ} (o : Option A) (k : A → Option File) → ((a : A) → Gives (k a)) → Gives (o >>= k)
Gives-bind none k g = record { at = λ f e. absurd (ground arith) }
Gives-bind (some a) k g = g a

Gives-bind_known {ℓ} :
    {A : Type ℓ} (o : Option A) (k : A → Option File)
    → ((a : A) → o ≡ some a → Gives (k a))
    → Gives (o >>= k)
Gives-bind_known none k g = record { at = λ f e. absurd (ground arith) }
Gives-bind_known (some a) k g = g a refl

Gives-guard : (b : Bool) (k : Option File) → (b ≡ true → Gives k) → Gives (guard b >> k)
Gives-guard false k g = record { at = λ f e. absurd (ground arith) }
Gives-guard true k g = g refl

pub some-inj {ℓ} : {A : Type ℓ} {a b : A} → some a ≡ some b → a ≡ b
some-inj e = ground (arith, e)

ten_of : (b : Bool) (n : ℕ) → b && n == 10 ≡ true → n ≡ 10
ten_of true n h = ground arith
ten_of false n h = ground arith

module _ (lion : Lion) where
  made-Gives :
      (raw : Option Text) (f : Fields) (date at : Text) (kind : Kind)
      → length f.perm ≡ 10
      → kind_of f.perm ≡ some kind
      → not (is_self (skip_blank at)) ≡ true
      → Gives (some (make_file lion raw f date kind (skip_blank at)))
  unfolding make_file
  made-Gives raw f date at kind ten k n = record {
    at = λ g e. subst IsEntry (some-inj e) (record {
      ten_letters = ten;
      kind = k;
      name = (skip_blank at, refl, ground arith, skip_blank-head at);
    });
  }

  parse_rest-Gives :
      (raw : Option Text) (f : Fields) → length f.perm ≡ 10 → Gives (parse_rest lion raw f)
  unfolding parse_rest
  parse_rest-Gives raw f ten = Gives-bind (token lion (skip_blank f.rest)) _ λ (month, a).
      Gives-bind (token lion a) _ λ (day, b). Gives-bind (token lion b) _ λ (year, at).
        Gives-bind_known (kind_of f.perm) _ λ kind k.
          Gives-guard (not (is_self (skip_blank at))) _
            λ n. made-Gives raw f (date_text month day year) at kind ten k n

  parse_line-Gives : (raw : Option Text) (line : Text) → Gives (parse_line lion raw line)
  unfolding parse_line
  parse_line-Gives raw line = Gives-bind (token lion line) _ λ (perm, a). Gives-guard _ _ λ g.
      Gives-bind (token lion a) _ λ (links, b). Gives-bind (token lion b) _ λ (user, c).
        Gives-bind (token lion c) _ λ (group, d). Gives-bind (token lion d) _ λ (size, at).
          parse_rest-Gives raw (align perm links user group size at)
            (ap length (align-perm perm links user group size at) ∙ ten_of _ (length perm) g)

  -- A file that comes of a line has permissions of ten letters, of which the first says whether it is
  -- a directory or a link, and a name that does not begin with a space and is neither "." nor "..",
  -- whatever the tokens of the line are.
  pub file_parse-IsEntry :
      (line : Text) (raw : Bool) (f : File) → file_parse lion line raw ≡ some f → IsEntry f
  unfolding file_parse
  file_parse-IsEntry line raw f e = (parse_line-Gives _ line).at f e

-- The ids count the files from a number on.
abbrev pub NumberedFrom : ℕ → List File → Type 0
NumberedFrom n [] = Unit
NumberedFrom n (f ∷ fs) = (f.fid ≡ suc n) × NumberedFrom (suc n) fs

numbered-append :
    (n : ℕ) (fs : List File) (f : File)
    → NumberedFrom n fs
    → f.fid ≡ suc (n + length fs)
    → NumberedFrom n (fs ++ f ∷ [])
numbered-append n [] f h e = (omega (arith, e), tt)
numbered-append n (g ∷ fs) f h e = (h.0, numbered-append (suc n) fs f h.1 (omega (arith, e)))

getfid-numbered :
    (n : ℕ) (fs : List File) (i : ℕ)
    → NumberedFrom n fs
    → session_getfid fs (suc (n + i)) ≡ get_elem? fs i
unfolding session_getfid
getfid-numbered n [] i h = refl
getfid-numbered n (f ∷ fs) zero h = ground (arith, h.0)
getfid-numbered n (f ∷ fs) (suc i) h = ground (arith, h.0, getfid-numbered (suc n) fs i h.1)

getfid-position :
    (fs : List File) (i : ℕ) → NumberedFrom 0 fs → session_getfid fs (suc i) ≡ get_elem? fs i
getfid-position fs i h =
    let shift : 0 + i ≡ i = omega arith in rw shift at (getfid-numbered 0 fs i h)

-- While fewer than 2^32 files are listed, reading a line keeps the ids equal to the positions from 1
-- on, keeps the files that are there, adds one at most, and a file is found under its position.
pub session_parse-numbered :
    (lion : Lion) (fs : List File) (pwd : Option Text) (raw : Bool) (line : Text)
    → NumberedFrom 0 fs
    → suc (length fs) < 2 ^ 32
    → let gs = session_parse lion fs pwd raw line in
      NumberedFrom 0 gs
      × ((gs ≡ fs) ⊎ ((f : File) × (gs ≡ fs ++ f ∷ [])))
      × ((i : ℕ) → session_getfid gs (suc i) ≡ get_elem? gs i)
unfolding session_parse add_file
session_parse-numbered lion fs pwd raw line h small = by_parse (file_parse lion line raw)
  where
    parsed : Option File → List File
    parsed o = elim o [ none ↦ fs | some f ↦ add_file lion fs pwd f ]

    numbered : (o : Option File) → NumberedFrom 0 (parsed o)
    numbered none = h
    numbered (some f) = numbered-append 0 fs _ h (omega arith)

    grown : (o : Option File) → (parsed o ≡ fs) ⊎ ((f : File) × (parsed o ≡ fs ++ f ∷ []))
    grown none = inl refl
    grown (some f) = inr (_, refl)

    by_parse :
        (o : Option File)
        → NumberedFrom 0 (parsed o)
          × ((parsed o ≡ fs) ⊎ ((f : File) × (parsed o ≡ fs ++ f ∷ [])))
          × ((i : ℕ) → session_getfid (parsed o) (suc i) ≡ get_elem? (parsed o) i)
    by_parse o = (numbered o, grown o, λ i. getfid-position (parsed o) i (numbered o))
