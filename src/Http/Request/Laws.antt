-- ===== src/Http/Request/Laws.antt =====
-- Which files a request opens, and whether its connection is kept alive.
use fxp_one.Prelude.{
  true, false, ◌&&◌, List, [], ◌∷◌, some, Text, codes, case_eq, to_lower, contains, starts_with,
  ◌≡◌, refl, arith, Bool-cases, Option-cases, inl, inr,
}
use fxp_one.Lion.{Lion, CaseCompare}
use fxp_one.Settings.{Settings}
use fxp_one.Http.Request.{
  HttpParser, Serving, waiting, reading, relaying, sending, ended, HttpEffect, open_file, Outside,
  case_contains, header_line, header,
}
use fxp_one.Http.Request.Path.{
  get_path, IsUnderDir, JoinsPaths, get_path-IsUnderDir, get_path-contains,
}
use fxp_one.Http.Request.Answer.{
  http_handler, http_input, HttpSignal, input, gone, connected, secure_enabled, secure_failed,
  first_line, request_line, end_of_header, handshake, switch_protocols, plain_get, get_file,
  keeps_alive, is_recent,
}

-- A file stands under ./wfxp, and its path has no "..".
abbrev pub IsSafe : HttpEffect → Type 0
IsSafe (open_file path) = IsUnderDir path × (contains (codes "..") path ≡ false)
IsSafe e = Unit

abbrev pub AllSafe : List HttpEffect → Type 0
AllSafe [] = Unit
AllSafe (e ∷ es) = IsSafe e × AllSafe es

module _ (lion : Lion) (s : Settings) (out : Outside) (joins : JoinsPaths lion) where
  get_file-safe :
      (p : HttpParser) (name : Text) → AllSafe (get_file lion out p (get_path lion name)).1
  unfolding get_file
  get_file-safe p name =
      let safe : IsUnderDir (get_path lion name)
          × (contains (codes "..") (get_path lion name) ≡ false) =
        (get_path-IsUnderDir lion name joins, get_path-contains lion name) in
      elim (Bool-cases (out.is_file (get_path lion name))) [
        | inl e ↦ rw e (safe, (tt, tt))
        | inr e ↦ rw e (safe, (tt, (tt, (tt, tt))))
      ]

  plain_get-safe : (p : HttpParser) → AllSafe (plain_get lion out p).1
  unfolding plain_get
  plain_get-safe p = elim (Option-cases p.path) [
    | inl e ↦ rw (plain_get, e) (tt, (tt, (tt, tt)))
    | inr (name, e) ↦ rw (plain_get, e) (get_file-safe p name)
  ]

  handshake-safe :
      (upgrade connection key version : Text)
      → AllSafe (handshake lion s out upgrade connection key version).1
  unfolding handshake switch_protocols
  handshake-safe upgrade connection key version =
      elim (Bool-cases (
        case_eq (codes "websocket") upgrade
        && (case_contains (codes "Upgrade") connection && is_recent lion version))) [
          | inl e ↦ rw e (tt, (tt, (tt, tt)))
          | inr e ↦ rw e tt
        ]

  end_of_header-safe : (p : HttpParser) → AllSafe (end_of_header lion s out p).1
  unfolding end_of_header
  end_of_header-safe p = elim (Option-cases p.upgrade) [
    | inl e ↦ rw (end_of_header, e) (plain_get-safe p)
    | inr (u, e) ↦ elim (Option-cases p.connection) [
      | inl f ↦ rw (end_of_header, e, f) (plain_get-safe p)
      | inr (c, f) ↦ elim (Option-cases p.key) [
        | inl g ↦ rw (end_of_header, e, f, g) (plain_get-safe p)
        | inr (k, g) ↦ elim (Option-cases p.version) [
          | inl h ↦ rw (end_of_header, e, f, g, h) (plain_get-safe p)
          | inr (v, h) ↦ rw (end_of_header, e, f, g, h) (handshake-safe u c k v)
        ]
      ]
    ]
  ]

  first_line-safe : (line : Text) → AllSafe (first_line lion line).1
  unfolding first_line
  first_line-safe line = elim (Bool-cases (starts_with (codes "GET ") line)) [
    | inl e ↦ rw e tt
    | inr e ↦ elim (Bool-cases (starts_with (codes "QUIT") line)) [
      | inl f ↦ rw (e, f) (tt, tt)
      | inr f ↦ rw (e, f) tt
    ]
  ]

  http_input-safe :
      (serving : Serving) (line : Text) → AllSafe (http_input lion s out serving line).1
  unfolding http_input request_line
  http_input-safe waiting line = first_line-safe line
  http_input-safe (reading p) [] = end_of_header-safe p
  http_input-safe (reading p) (c ∷ cs) = tt
  http_input-safe (relaying r) line = tt
  http_input-safe (sending p is_open) line = tt
  http_input-safe ended line = tt

  -- Whatever a browser asks for, a file that is opened stands under ./wfxp and its path has no "..", if
  -- misc_strjoin puts a path under the directory.
  pub http_handler-AllSafe :
      (serving : Serving) (signal : HttpSignal) → AllSafe (http_handler lion s out serving signal).1
  unfolding http_handler
  http_handler-AllSafe serving (input line) = http_input-safe serving line
  http_handler-AllSafe serving gone = tt
  http_handler-AllSafe serving secure_failed = (tt, tt)
  http_handler-AllSafe serving connected = tt
  http_handler-AllSafe serving secure_enabled = tt

connection-upgrade :
    (name : Text)
    → case_eq (codes "Connection") name ≡ true
    → case_eq (codes "Upgrade") name ≡ false
unfolding case_eq to_lower
connection-upgrade [] e = refl
connection-upgrade (c ∷ cs) e = ground arith

-- The value of a Connection header is kept with what stands in front of it.
header_line-connection :
    (lion : Lion) (p : HttpParser) (name rest line : Text)
    → lion.digtoken (codes ": \r\n") line ≡ some (name, rest)
    → case_eq (codes "Connection") name ≡ true
    → header_line lion p line ≡ record p { connection = some rest }
unfolding header_line header
header_line-connection lion p name rest line e c =
    rw (header_line, e, connection-upgrade name c, c) refl

-- keep-alive and close are not read behind a blank.
keeps_alive-blank :
    (lion : Lion) (version value : Text)
    → CaseCompare lion
    → keeps_alive lion (some version) (some (b' ' ∷ value)) ≡ case_eq (codes "HTTP/1.1") version
unfolding keeps_alive case_eq to_lower
keeps_alive-blank lion version value c =
    rw
      (
        keeps_alive,
        c.same_text_lem (codes "close") (b' ' ∷ value),
        c.same_text_lem (codes "keep-alive") (b' ' ∷ value),
        c.same_text_lem (codes "HTTP/1.1") version,
      )
      refl

-- After a Connection header whose value stands behind a blank, the version of the request alone
-- decides whether the connection is kept alive, if mystrccmp compares without regard to case.
pub header_line-keeps_alive :
    (lion : Lion) (p : HttpParser) (name value line version : Text)
    → CaseCompare lion
    → p.version ≡ some version
    → lion.digtoken (codes ": \r\n") line ≡ some (name, b' ' ∷ value)
    → case_eq (codes "Connection") name ≡ true
    → keeps_alive lion (header_line lion p line).version (header_line lion p line).connection
      ≡ case_eq (codes "HTTP/1.1") version
header_line-keeps_alive lion p name value line version compare v e c =
    rw (header_line-connection lion p name (b' ' ∷ value) line e c, v)
      (keeps_alive-blank lion version value compare)
