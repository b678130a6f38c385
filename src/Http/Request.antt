-- ===== src/Http/Request.antt =====
-- http_handler: what the lines of a request leave in the parser. Answer has the blank line, Get the
-- sending of the file.
pub mod Path
pub mod Answer
pub mod Get
pub mod Laws
use fxp_one.Prelude.{
  ℕ, ◌+◌, ◌^◌, Bool, true, false, not, ◌&&◌, ◌||◌, List, [], ◌∷◌, ◌++◌, Option, none, some, Text,
  codes, if◌then◌else◌, ltb, leb, ◌==◌, case_starts_with, starts_with, case_eq, atoi, length, drop,
}
use fxp_one.Lion.{Lion}
use fxp_one.Http.Relay.{Relaying}

-- The fields of http_parser_struct that a request fills.
pub record HttpParser : Type 0 where
  pub path : Option Text
  pub request : Text
  pub host : Option Text
  pub upgrade : Option Text
  pub connection : Option Text
  pub key : Option Text
  pub origin : Option Text
  pub protocol : Option Text
  pub version : Option Text
  pub keep_alive : Bool

-- The connection of a browser: without a parser, with one, handed to http_framed_handler with its relay, or to
-- http_get_handler with a file that is open or has been closed, or gone.
pub data Serving : Type 0 where
  waiting : Serving
  reading : HttpParser → Serving
  relaying : Relaying → Serving
  sending : HttpParser → Bool → Serving
  ended : Serving

pub data HttpEffect : Type 0 where
  print : Text → HttpEffect
  disconnect : HttpEffect
  close : HttpEffect
  open_file : Text → HttpEffect
  disconnect_file : HttpEffect
  enable_read : HttpEffect
  disable_read : HttpEffect
  connect_engine : Text → ℕ → HttpEffect

-- base64_encode of the SHA-1 of a text, whether lion_open gives a file for a path, and VERSION.
pub record Outside : Type 0 where
  pub sha1_base64 : Text → Text
  pub is_file : Text → Bool
  pub version : Text

-- strcasestr(line, word) != NULL
unfoldable pub case_contains : Text → Text → Bool
case_contains word [] = case_starts_with word []
case_contains word (c ∷ cs) = case_starts_with word (c ∷ cs) || case_contains word cs

abbrev pub blanks : Text
blanks = codes " \r\n"

abbrev pub http_guid : Text
http_guid = codes "258EAFA5-E914-47DA-95CA-C5AB0DC85B11"

module _ (lion : Lion) where
  word_of : Option (Text × Text) → Option Text
  word_of none = none
  word_of (some (word, rest)) = some word

  -- The next word of a line, and the one behind it.
  unfoldable pub first_word : Text → Option Text
  unfolding word_of
  first_word line = word_of (lion.digtoken blanks line)

  unfoldable pub second_word : Text → Option Text
  unfolding first_word
  second_word line = elim (lion.digtoken blanks line) [
    | none ↦ none
    | some (word, rest) ↦ first_word rest
  ]

  unfoldable pub wanted_path : Option Text → Option Text
  wanted_path none = none
  wanted_path (some word) =
      some (if lion.same_text (codes "/") word then codes "wfxp.html" else word)

  unfoldable pub new_request : Text → HttpParser
  unfolding first_word second_word wanted_path
  new_request line = record {
    path = wanted_path (first_word (drop 4 line));
    request = line;
    host = none;
    upgrade = none;
    connection = none;
    key = none;
    origin = none;
    protocol = none;
    version = second_word (drop 4 line);
    keep_alive = false;
  }

  -- A header that has no word behind its name leaves what there was.
  kept : Option Text → Option Text → Option Text
  kept old none = old
  kept old (some word) = some word

  unfoldable pub header : HttpParser → Text → Text → HttpParser
  unfolding kept first_word
  header p name rest =
      let word = first_word rest in
      if case_eq (codes "Upgrade") name
      then record p { upgrade = kept p.upgrade word }
      else if case_eq (codes "Connection") name
      then record p { connection = some rest }
      else if case_eq (codes "Host") name
      then record p { host = kept p.host word }
      else if case_eq (codes "Sec-WebSocket-Key") name
      then record p { key = kept p.key word }
      else if case_eq (codes "Sec-WebSocket-Origin") name
      then record p { origin = kept p.origin word }
      else if case_eq (codes "Sec-WebSocket-Protocol") name
      then record p { protocol = kept p.protocol word }
      else if case_eq (codes "Sec-WebSocket-Version") name
      then record p { version = kept p.version word }
      else p

  unfoldable pub header_line : HttpParser → Text → HttpParser
  unfolding header
  header_line p line = elim (lion.digtoken (codes ": \r\n") line) [
    | none ↦ p
    | some (name, rest) ↦ header p name rest
  ]
