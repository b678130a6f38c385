-- ===== src/Http/Request/Path.antt =====
-- The path that http_handler opens: under HTTP_DIR, each ".." masked, cut at a '?'.
use fxp_one.Prelude.{
  ℕ, zero, suc, ◌+◌, ◌≤◌, ◌<◌, false, ◌&&◌, [], ◌∷◌, ◌++◌, Option, none, some, Text, codes,
  if◌then◌else◌, ◌==◌, length, contains, starts_with, ◌≡◌, refl, arith, Bool-cases, inl, inr,
  Option-cases,
}
use fxp_one.Lion.{Lion}

abbrev pub http_dir : Text
http_dir = codes "./wfxp"

-- r = strstr(path, ".."); r[0] = r[1] = '_'; nothing if there is none.
unfoldable pub mask_first : Text → Option Text
mask_first [] = none
mask_first (a ∷ []) = none
mask_first (a ∷ b ∷ cs) =
    let rest = mask_first (b ∷ cs) in
    if a == b'.' && b == b'.'
    then some (b'_' ∷ b'_' ∷ cs)
    else elim rest [ none ↦ none | some t ↦ some (a ∷ t) ]

-- The loop over strstr. Each round takes two bytes of the path away as dots, so that its length is
-- fuel enough.
unfoldable pub mask_dots : ℕ → Text → Text
unfolding mask_first
mask_dots zero path = path
mask_dots (suc fuel) path = elim (mask_first path) [ none ↦ path | some t ↦ mask_dots fuel t ]

unfoldable pub cut_query : Text → Text
cut_query [] = []
cut_query (c ∷ cs) = let rest = cut_query cs in if c == b'?' then [] else c ∷ rest

unfoldable pub get_path : Lion → Text → Text
unfolding mask_dots cut_query
get_path lion name =
    let path = lion.strjoin http_dir name in cut_query (mask_dots (length path) path)

-- The dots of a path.
dots : Text → ℕ
dots [] = 0
dots (c ∷ cs) = (if c == b'.' then 1 else 0) + dots cs

mask_first-dots : (t u : Text) → mask_first t ≡ some u → dots u < dots t
unfolding mask_first dots
mask_first-dots [] u e = absurd (ground arith)
mask_first-dots (a ∷ []) u e = absurd (ground arith)
mask_first-dots (a ∷ b ∷ cs) u e = elim (Option-cases (mask_first (b ∷ cs))) [
  | inl n ↦ ground (arith, n)
  | inr (t, s) ↦ ground (arith, s, mask_first-dots (b ∷ cs) t s)
]

dots-length : (t : Text) → dots t ≤ length t
unfolding dots
dots-length [] = omega arith
dots-length (c ∷ cs) = ground (arith, dots-length cs)

mask_first-none : (t : Text) → mask_first t ≡ none → contains (codes "..") t ≡ false
unfolding mask_first contains starts_with
mask_first-none [] e = refl
mask_first-none (a ∷ []) e = ground arith
mask_first-none (a ∷ b ∷ cs) e = elim (Option-cases (mask_first (b ∷ cs))) [
  | inl n ↦ ground (arith, n, mask_first-none (b ∷ cs) n)
  | inr (t, s) ↦ absurd (ground (arith, s))
]

-- Every round masks a pair of dots, and so the loop ends with none left.
mask_dots-contains :
    (fuel : ℕ) (t : Text) → dots t ≤ fuel → contains (codes "..") (mask_dots fuel t) ≡ false
unfolding mask_dots
mask_dots-contains zero t h = elim (Option-cases (mask_first t)) [
  | inl n ↦ mask_first-none t n
  | inr (u, s) ↦ absurd (omega (arith, mask_first-dots t u s))
]
mask_dots-contains (suc fuel) t h = elim (Option-cases (mask_first t)) [
  | inl n ↦ rw (mask_dots, n) (mask_first-none t n)
  | inr (u, s) ↦
      rw (mask_dots, s) (mask_dots-contains fuel u (omega (arith, mask_first-dots t u s)))
]

-- A text that is cut has no ".." that it did not have.
cut_query-contains :
    (t : Text) → contains (codes "..") t ≡ false → contains (codes "..") (cut_query t) ≡ false
unfolding cut_query contains starts_with
cut_query-contains [] h = refl
cut_query-contains (c ∷ []) h = elim (Bool-cases (c == b'?')) [ inl e ↦ rw e refl | inr e ↦ rw e h ]
cut_query-contains (c ∷ d ∷ cs) h =
    let ih : contains (codes "..") (cut_query (d ∷ cs)) ≡ false =
      cut_query-contains (d ∷ cs) (ground arith) in
    elim (Bool-cases (c == b'?')) [
      | inl e ↦ rw e refl
      | inr e ↦ elim (Bool-cases (d == b'?')) [
        | inl f ↦ rw (e, f) (ground arith)
        | inr f ↦ rw (e, f) (ground (arith, f, ih, h))
      ]
    ]

-- A path stands under ./wfxp.
abbrev pub IsUnderDir : Text → Type 0
IsUnderDir t = (rest : Text) × (t ≡ http_dir ++ (b'/' ∷ rest))

mask_first-slash :
    (rest : Text)
    → mask_first (b'/' ∷ rest) ≡ elim (mask_first rest) [ none ↦ none | some t ↦ some (b'/' ∷ t) ]
unfolding mask_first
mask_first-slash [] = refl
mask_first-slash (c ∷ cs) = refl

mask_first-dir :
    (rest : Text)
    → mask_first (http_dir ++ (b'/' ∷ rest))
      ≡ elim (mask_first rest) [ none ↦ none | some t ↦ some (http_dir ++ (b'/' ∷ t)) ]
unfolding mask_first
mask_first-dir rest =
    rw (mask_first-slash rest)
      (elim (Option-cases (mask_first rest)) [ inl n ↦ rw n refl | inr (v, s) ↦ rw s refl ])

mask_dots-under : (fuel : ℕ) (rest : Text) → IsUnderDir (mask_dots fuel (http_dir ++ (b'/' ∷ rest)))
unfolding mask_dots
mask_dots-under zero rest = (rest, refl)
mask_dots-under (suc fuel) rest = elim (Option-cases (mask_first rest)) [
  | inl n ↦ rw (mask_dots, mask_first-dir rest, n) (rest, refl)
  | inr (v, s) ↦ rw (mask_dots, mask_first-dir rest, s) (mask_dots-under fuel v)
]

cut_query-under : (rest : Text) → IsUnderDir (cut_query (http_dir ++ (b'/' ∷ rest)))
unfolding cut_query
cut_query-under rest = (cut_query rest, refl)

-- misc_strjoin puts a path under the directory.
pub record JoinsPaths (lion : Lion) : Type 0 where
  pub strjoin_lem :
      (name : Text) → (rest : Text) × (lion.strjoin http_dir name ≡ http_dir ++ (b'/' ∷ rest))

pub get_path-IsUnderDir :
    (lion : Lion) (name : Text) → JoinsPaths lion → IsUnderDir (get_path lion name)
unfolding get_path
get_path-IsUnderDir lion name j =
    let joined = j.strjoin_lem name in
    let masked = mask_dots-under (length (http_dir ++ (b'/' ∷ joined.0))) joined.0 in
    rw (joined.1, masked.1) (cut_query-under masked.0)

pub get_path-contains :
    (lion : Lion) (name : Text) → contains (codes "..") (get_path lion name) ≡ false
unfolding get_path
get_path-contains lion name =
    let path = lion.strjoin http_dir name in
    cut_query-contains _ (mask_dots-contains (length path) path (dots-length path))
