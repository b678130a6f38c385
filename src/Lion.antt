-- ===== src/Lion.antt =====
-- The routines of the lion library (lion.h, misc.h, lfnmatch.h) that engine/ calls. They are not
-- part of the repository, so each is a parameter; `CaseCompare` states what is relied on.
use fxp_one.Prelude.{length, ◌^◌, ◌<◌, some, ℕ, Bool, List, Option, Text, case_eq, ◌≡◌}

pub record Lion : Type 0 where
  -- mystrccmp(a, b) == 0
  pub same_text : Text → Text → Bool
  -- lfnmatch(pattern, name, LFNM_CASEFOLD) == 0
  pub matches : Text → Text → Bool
  -- the tokens that repeated calls of misc_digtoken(&ar, "/") give
  pub slash_tokens : Text → List Text
  -- misc_strjoin(dirname, name)
  pub strjoin : Text → Text → Text
  -- misc_url_encode and misc_url_decode
  pub url_encode : Text → Text
  pub url_decode : Text → Text
  -- the text between the first pair of '"' that misc_digtoken(&ar, "\"") gives from the first '"'
  pub quoted : Text → Option Text
  -- lion_ntoa of what lion_getsockname gives for the control connection to a host
  pub own_address : Text → Text
  -- what misc_stripslash leaves of a path
  pub stripslash : Text → Text
  -- misc_digtoken(&ar, delimiters): the first token, delimiters in front of it skipped, and what ar
  -- points at behind the delimiter that ends it
  pub digtoken : Text → Text → Option (Text × Text)
  -- misc_digtoken_optchar after it: the delimiter that ended the token, if one did
  pub optchar : Text → Text → Option ℕ
  -- misc_getdate
  pub getdate : Text → ℕ
  -- the host and the port that lion_ftp_pasv reads from a reply
  pub ftp_pasv : Text → Option (ℕ × ℕ)
  -- LION_CONNECTION_SECURE_ENABLED and LION_CONNECTION_SECURE_FAILED, as numbers
  pub secure_status : Bool → ℕ
  -- lion_addr and lion_ntoa
  pub addr : Text → ℕ
  pub ntoa : ℕ → Text
  -- what the build puts behind "FXP.One engine " in CLNT
  pub version : Text
  -- the argument of PORT for a new listening socket of a site, if lion_listen gives one
  pub listen_port : Text → Option Text

-- mystrccmp compares without regard to case.
pub record CaseCompare (lion : Lion) : Type 0 where
  pub same_text_lem : (a b : Text) → lion.same_text a b ≡ case_eq a b

-- An address of 32 bits is read back from its text.
pub record AddressText (lion : Lion) : Type 0 where
  pub addr-ntoa : (a : ℕ) → a < 2 ^ 32 → lion.addr (lion.ntoa a) ≡ a

-- misc_digtoken takes something away with each token.
pub record TokensShrink (lion : Lion) : Type 0 where
  pub rest-shorter :
      (ds t word rest : Text) → lion.digtoken ds t ≡ some (word, rest) → length rest < length t
