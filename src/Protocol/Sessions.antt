-- ===== src/Protocol/Sessions.antt =====
-- engine/command2.c: the requests on a session that its user controls: DIRLIST, QUOTE, CWD, PWD, SIZE,
-- DELE, MKD, RMD, SITE, REN, MDTM. A pointer that is followed although it is NULL is `none`.
use fxp_one.Prelude.{
  ℕ, Bool, true, false, [], ◌∷◌, Option, none, some, Text, codes, atoi, if◌then◌else◌,
}
use fxp_one.Lion.{Lion}
use fxp_one.Site.{findkey}
use fxp_one.File.{File}
use fxp_one.File.Listing.{session_getfid}
use fxp_one.Session.{Flags, no_flags}
use fxp_one.Engine.World.{Manager, Call}
use fxp_one.Engine.Managers.Asking.{
  manager_dirlist, manager_quote, manager_cwd, manager_pwd, manager_size, manager_mkd, manager_rmd,
  manager_dele, manager_site, manager_ren, manager_mdtm,
}
use fxp_one.Protocol.State.{Daemon, Keys, answer, on_manager, with_sid, with_key}

abbrev is_given : Option Text → Bool
is_given none = false
is_given (some t) = true

-- The flag LOG.
unfoldable pub log_flag : Keys → Flags
log_flag keys = record no_flags { flag_log = is_given (findkey keys (codes "LOG")) }

unfoldable pub list_flags : Keys → Flags
list_flags keys = record no_flags {
  flag_log = is_given (findkey keys (codes "LOG"));
  flag_rawlist = is_given (findkey keys (codes "RAW"));
  flag_cacheok = is_given (findkey keys (codes "CACHEOK"));
}

module _ (lion : Lion) (call : Call) (user : ℕ) where
  -- What a path that is missing is answered with.
  abbrev lacks_path : Text → Daemon → Option Text → (Text → Option Daemon) → Option Daemon
  lacks_path request d path k = with_key user request 1501 path d k

  -- strdup(file->fullpath), or file->fullpath itself, which may be NULL
  unfoldable pub path_of_file : Bool → Text → Daemon → File → (Text → Option Daemon) → Option Daemon
  path_of_file copies request d f k = elim f.fullpath [
    | some p ↦ k p
    | none ↦ if copies then none else lacks_path request d none k
  ]

  -- session_getfid(mgr->session, atoi(fid))->fullpath, 1515 without such a file
  unfoldable pub path_of_fid :
      Bool → Text → Daemon → Manager → Text → (Text → Option Daemon) → Option Daemon
  unfolding path_of_file
  path_of_fid copies request d m fid k = elim m.session [
    | none ↦ none
    | some s ↦ elim (session_getfid s.files (atoi fid)) [
      | none ↦ answer user request 1515 d
      | some f ↦ path_of_file copies request d f k
    ]
  ]

  abbrev pub from_fid :
      Bool → Text → Daemon → Manager → Option Text → (Text → Option Daemon) → Option Daemon
  from_fid copies request d m none k = lacks_path request d none k
  from_fid copies request d m (some []) k = lacks_path request d none k
  from_fid copies request d m (some (c ∷ cs)) k = path_of_fid copies request d m (c ∷ cs) k

  -- A path, or the path of a file that was listed.
  unfoldable pub with_path :
      Bool
      → Text
      → Daemon
      → Manager
      → Option Text
      → Option Text
      → (Text → Option Daemon)
      → Option Daemon
  unfolding path_of_fid
  with_path copies request d m path fid k = elim path [
    | some p ↦ k p
    | none ↦ from_fid copies request d m fid k
  ]

  abbrev pub decode : Option Text → Option Text
  decode none = none
  decode (some t) = some (lion.url_decode t)

  -- SID, which is required
  abbrev with_session_of : Text → Keys → Daemon → (Manager → Option Daemon) → Option Daemon
  with_session_of request keys d k =
      with_key user request 1501 (findkey keys (codes "SID")) d λ sid. with_sid user request sid d k

  unfoldable pub command2_cmd_dirlist : Keys → Daemon → Option Daemon
  unfolding with_sid on_manager list_flags
  command2_cmd_dirlist keys d = with_session_of (codes "DIRLIST") keys d λ m.
      on_manager m
        (λ side w.
          manager_dirlist lion call side (list_flags keys) (findkey keys (codes "ARGS"))
            (findkey keys (codes "PATH")) w)
        d

  -- SID and a second argument, both required before the session is looked for
  abbrev with_argument :
      Text → Text → Keys → Daemon → (Manager → Text → Option Daemon) → Option Daemon
  with_argument request key keys d k =
      with_key user request 1501 (findkey keys (codes "SID")) d λ sid.
        with_key user request 1501 (findkey keys key) d
          λ arg. with_sid user request sid d λ m. k m arg

  unfoldable pub command2_cmd_quote : Keys → Daemon → Option Daemon
  unfolding with_sid on_manager log_flag
  command2_cmd_quote keys d =
      with_argument (codes "QUOTE") (codes "MSG") keys d λ m msg.
        on_manager m (λ side w. manager_quote lion call side (log_flag keys) (some msg) w) d

  unfoldable pub command2_cmd_cwd : Keys → Daemon → Option Daemon
  unfolding with_sid with_path on_manager log_flag
  command2_cmd_cwd keys d = with_session_of (codes "CWD") keys d λ m.
      with_path false (codes "CWD") d m (findkey keys (codes "PATH")) (findkey keys (codes "FID"))
        λ p. on_manager m (λ side w. manager_cwd lion call side (log_flag keys) (some p) w) d

  unfoldable pub command2_cmd_pwd : Keys → Daemon → Option Daemon
  unfolding with_sid on_manager log_flag
  command2_cmd_pwd keys d =
      with_session_of (codes "PWD") keys d
        λ m. on_manager m (λ side w. manager_pwd lion call side (log_flag keys) w) d

  -- The path is decoded here, and not by the manager.
  abbrev with_decoded_path : Text → Keys → Daemon → Manager → (Text → Option Daemon) → Option Daemon
  with_decoded_path request keys d m k =
      with_path true request d m (decode (findkey keys (codes "PATH"))) (findkey keys (codes "FID"))
        k

  unfoldable pub command2_cmd_size : Keys → Daemon → Option Daemon
  unfolding with_sid with_path on_manager log_flag
  command2_cmd_size keys d = with_session_of (codes "SIZE") keys d λ m.
      with_decoded_path (codes "SIZE") keys d m
        λ p. on_manager m (λ side w. manager_size lion call side (log_flag keys) (some p) w) d

  unfoldable pub command2_cmd_dele : Keys → Daemon → Option Daemon
  unfolding with_sid with_path on_manager log_flag
  command2_cmd_dele keys d = with_session_of (codes "DELE") keys d λ m.
      with_path false (codes "DELE") d m (findkey keys (codes "PATH")) (findkey keys (codes "FID"))
        λ p. on_manager m (λ side w. manager_dele lion call side (log_flag keys) p w) d

  unfoldable pub command2_cmd_mkd : Keys → Daemon → Option Daemon
  unfolding with_sid on_manager log_flag
  command2_cmd_mkd keys d =
      with_argument (codes "MKD") (codes "PATH") keys d
        λ m path. on_manager m (λ side w. manager_mkd lion call side (log_flag keys) path w) d

  unfoldable pub command2_cmd_rmd : Keys → Daemon → Option Daemon
  unfolding with_sid with_path on_manager log_flag
  command2_cmd_rmd keys d = with_session_of (codes "RMD") keys d λ m.
      with_decoded_path (codes "RMD") keys d m
        λ p. on_manager m (λ side w. manager_rmd lion call side (log_flag keys) p w) d

  unfoldable pub command2_cmd_site : Keys → Daemon → Option Daemon
  unfolding with_sid on_manager log_flag
  command2_cmd_site keys d =
      with_argument (codes "SITE") (codes "CMD") keys d
        λ m path. on_manager m (λ side w. manager_site lion call side (log_flag keys) path w) d

  unfoldable pub command2_cmd_ren : Keys → Daemon → Option Daemon
  unfolding with_sid with_path on_manager log_flag
  command2_cmd_ren keys d = with_argument (codes "REN") (codes "TO") keys d λ m to.
      with_path true (codes "REN") d m (decode (findkey keys (codes "FROM")))
        (findkey keys (codes "FID"))
        λ from.
          on_manager m
            (λ side w. manager_ren lion call side (log_flag keys) from (lion.url_decode to) w) d

  unfoldable pub command2_cmd_mdtm : Keys → Daemon → Option Daemon
  unfolding with_sid with_path on_manager log_flag
  command2_cmd_mdtm keys d = with_session_of (codes "MDTM") keys d λ m.
      with_decoded_path (codes "MDTM") keys d m
        λ p. on_manager m (λ side w. manager_mdtm lion call side (log_flag keys) p w) d
