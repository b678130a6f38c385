-- ===== src/Parser.antt =====
-- engine/parser.c: parser_command and parser_keypairs, which take a line of the protocol apart. The
-- arrays for keys and values have MAX_PAIRS places; a write behind them is `none`.
pub mod Laws
use fxp_one.Prelude.{
  ℕ, zero, suc, Bool, true, false, List, [], ◌∷◌, ◌++◌, Option, none, some, Text, codes, case_eq,
  length, leb, ◌==◌, if◌then◌else◌, ◌>>=◌,
}
use fxp_one.Lion.{Lion}

abbrev pub max_pairs : ℕ
max_pairs = 1000

abbrev pub Pair : Type 0
Pair = Text × Text

-- The characters '=' in front, which stay part of the key.
leading_equals : Text → Text
leading_equals [] = []
leading_equals (c ∷ cs) = let rest = leading_equals cs in if c == b'=' then c ∷ rest else []

-- The function that is called, `none` for the one that takes what is not in the table, and the pairs
-- that it gets; nothing is called for a line without a command, or without such a function.
pub data Parsed : Type 0 where
  unparsed : Parsed
  overrun : Parsed
  calls : Option ℕ → List Pair → Parsed

module _ (lion : Lion) where
  open lion use {digtoken, optchar}

  -- KEY=value; without '=' or without a value the value is empty.
  unfoldable pub split_pair : Text → Pair
  unfolding leading_equals
  split_pair word = elim (digtoken (codes "=") word) [
    | none ↦ (word, [])
    | some (key, value) ↦ (leading_equals word ++ key, value)
  ]

  unfoldable pub pair_end : Text
  pair_end = b'|' ∷ 13 ∷ 10 ∷ []

  -- The pairs of a line, as long as there is room.
  unfoldable pub read_pairs : ℕ → Text → List Pair
  unfolding split_pair pair_end
  read_pairs zero line = []
  read_pairs (suc room) line = elim (digtoken pair_end line) [
    | none ↦ []
    | some (word, rest) ↦ split_pair word ∷ read_pairs room rest
  ]

  -- keyv[itemc] = ...; valuev[itemc] = ...
  unfoldable pub store_pair : ℕ → List Pair → Pair → Option (List Pair)
  store_pair size pairs p = if leb size (length pairs) then none else some (pairs ++ p ∷ [])

  unfoldable pub keypairs_within : ℕ → Text → Text → Option (List Pair)
  unfolding read_pairs store_pair
  keypairs_within size command line = store_pair size (read_pairs size line) (codes "type", command)

  unfoldable pub parser_keypairs : Text → Text → Option (List Pair)
  unfolding keypairs_within
  parser_keypairs command line = keypairs_within max_pairs command line

  word_end : Text
  word_end = b':' ∷ b'|' ∷ 13 ∷ 10 ∷ []

  is_colon : Option ℕ → Bool
  is_colon none = false
  is_colon (some c) = c == b':'

  -- The command, behind "user:" if that is given, and what follows it.
  unfoldable pub command_word : Text → Option (Text × Text)
  unfolding word_end is_colon
  command_word line = do
    (word, rest) ← digtoken word_end line
    if is_colon (optchar word_end line) then digtoken word_end rest else some (word, rest)

  -- The place of the command in the table.
  find_command : List Text → Text → Option ℕ
  find_command [] command = none
  find_command (c ∷ cs) command = elim (find_command cs command) [
    | none ↦ if case_eq command c then some 0 else none
    | some n ↦ if case_eq command c then some 0 else some (suc n)
  ]

  call_with : Option ℕ → Option (List Pair) → Parsed
  call_with f none = overrun
  call_with f (some pairs) = calls f pairs

  unfoldable pub parser_command : List Text → Bool → Text → Parsed
  unfolding command_word find_command call_with parser_keypairs
  parser_command table has_default line = elim (command_word line) [
    | none ↦ unparsed
    | some (command, rest) ↦ elim (find_command table command) [
      | some n ↦ call_with (some n) (parser_keypairs command rest)
      | none ↦ if has_default then call_with none (parser_keypairs command rest) else unparsed
    ]
  ]
