-- ===== src/Parser/Laws.antt =====
-- How many pairs a line may have.
use fxp_one.Prelude.{
  ℕ, zero, suc, ◌<◌, List, [], ◌∷◌, ◌++◌, none, some, Text, codes, ◌≡◌, refl, length, ap, map,
  arith,
}
use fxp_one.Lion.{Lion}
use fxp_one.Parser.{split_pair, pair_end, read_pairs, keypairs_within, parser_keypairs}

module _ (lion : Lion) where
  -- The line holds at least so many words.
  abbrev pub HoldsWords : ℕ → Text → Type 0
  HoldsWords zero line = Unit
  HoldsWords (suc n) line =
      (word : Text) × (rest : Text) × (lion.digtoken (pair_end lion) line ≡ some (word, rest))
      × HoldsWords n rest

  -- The line holds exactly the words.
  abbrev pub Words : List Text → Text → Type 0
  Words [] line = lion.digtoken (pair_end lion) line ≡ none
  Words (w ∷ ws) line =
      (rest : Text) × (lion.digtoken (pair_end lion) line ≡ some (w, rest)) × Words ws rest

  read_pairs-full : (n : ℕ) (line : Text) → HoldsWords n line → length (read_pairs lion n line) ≡ n
  unfolding read_pairs
  read_pairs-full zero line h = refl
  read_pairs-full (suc n) line (word, rest, e, more) =
      ground (arith, e, read_pairs-full n rest more)

  read_pairs-map :
      (ws : List Text) (n : ℕ) (line : Text)
      → Words ws line
      → length ws < n
      → read_pairs lion n line ≡ map (split_pair lion) ws
  unfolding read_pairs
  read_pairs-map ws zero line h few = elim few [ ]
  read_pairs-map [] (suc n) line h few = ground (arith, h)
  read_pairs-map (w ∷ ws) (suc n) line (rest, e, more) few =
      ground (arith, e, read_pairs-map ws n rest more (omega arith))

  length-map : (ws : List Text) → length (map (split_pair lion) ws) ≡ length ws
  length-map [] = refl
  length-map (w ∷ ws) = ap suc (length-map ws)

  within :
      (n : ℕ) (ws : List Text) (command line : Text)
      → Words ws line
      → length ws < n
      → keypairs_within lion n command line
        ≡ some (map (split_pair lion) ws ++ (codes "type", command) ∷ [])
  unfolding keypairs_within
  within n ws command line h few =
      rw (read_pairs-map ws n line h few) (ground (arith, length-map ws))

  over :
      (n : ℕ) (command line : Text) → HoldsWords n line → keypairs_within lion n command line ≡ none
  unfolding keypairs_within
  over n command line h = ground (arith, read_pairs-full n line h)

  -- A line of fewer than 1000 words gives a pair for each, in their order, and the command under
  -- "type"; one of 1000 words or more writes behind the end of the arrays.
  pub parser_keypairs-bounds :
      (command line : Text)
      → ((ws : List Text)
          → Words ws line
          → length ws < 1000
          → parser_keypairs lion command line
            ≡ some (map (split_pair lion) ws ++ (codes "type", command) ∷ []))
        × (HoldsWords 1000 line → parser_keypairs lion command line ≡ none)
  unfolding parser_keypairs
  parser_keypairs-bounds command line =
      (λ ws h few. within 1000 ws command line h few, λ h. over 1000 command line h)
