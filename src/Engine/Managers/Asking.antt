-- ===== src/Engine/Managers/Asking.antt =====
-- engine/manager.c: manager_dirlist, manager_quote, manager_cwd, manager_pwd, manager_size,
-- manager_mkd, manager_rmd, manager_dele, manager_site, manager_ren, manager_mdtm. What a refused
-- request is answered with is kept as the request, the id of the session and the code.
pub mod Laws
use fxp_one.Prelude.{
  ℕ, Bool, true, false, not, ◌&&◌, List, [], ◌∷◌, ◌++◌, Option, none, some, Text, codes, pos, ◌>>=◌,
  length, if◌then◌else◌,
}
use fxp_one.Lion.{Lion}
use fxp_one.File.{File}
use fxp_one.Queue.Types.{Side}
use fxp_one.Session.Events.{
  Event, dirlist_sendto_user, quote_reply, cwd_reply, pwd_reply, size_reply, dele_reply, mkd_reply,
  rmd_reply, site_reply, rnfr_reply, rnto_reply, mdtm_reply, ev_cmd,
}
use fxp_one.Session.{Session, Flags}
use fxp_one.Engine.World.{World, Call, Manager, manager, session, tell, request_refused}
use fxp_one.Engine.Commands.{
  session_cmdq_new, session_cmdq_newf, session_cwd, session_dirlist, crlf,
}
use fxp_one.Engine.Control.Relays.{id_or_none, call_handler}

-- lion_printf(huser, ...), which prints nothing without a user
abbrev pub refuse : Side → Event → ℕ → World → World
refuse side id code w = elim (manager side w).user [
  | none ↦ w
  | some u ↦ if w.online u then tell u (request_refused id (manager side w).id code) w else w
]

-- 1507 without a session
abbrev pub with_session : Side → Event → World → (Session → Option World) → Option World
with_session side id w k = elim (session side w) [
  | none ↦ some (refuse side id 1507 w)
  | some s ↦ k s
]

-- 1509 without an argument
abbrev pub with_text : Side → Event → Option Text → World → (Text → Option World) → Option World
with_text side id none w k = some (refuse side id 1509 w)
with_text side id (some []) w k = some (refuse side id 1509 w)
with_text side id (some (c ∷ cs)) w k = k (c ∷ cs)

-- A text that is set and not empty.
given : Option Text → Bool
given none = false
given (some []) = false
given (some (c ∷ cs)) = true

text_of : Option Text → Text
text_of none = []
text_of (some t) = t

-- args and path together if both are given, else args, else path, else the default.
unfoldable pub list_args : Option Text → Option Text → Text
unfolding given text_of
list_args args path =
    if given args && given path
    then text_of args ++ codes " " ++ text_of path
    else elim args [ some a ↦ a | none ↦ elim path [ some p ↦ p | none ↦ codes "-lL" ] ]

decoded : Lion → Option Text → Option Text
decoded lion none = none
decoded lion (some t) = some (lion.url_decode t)

has_files : List File → Bool
has_files [] = false
has_files (f ∷ fs) = true

module _ (lion : Lion) (call : Call) (side : Side) (flags : Flags) where
  -- A listing that is known is handed over as it is, if the user allows it.
  unfoldable pub manager_dirlist : Option Text → Option Text → World → Option World
  unfolding list_args decoded has_files call_handler
  manager_dirlist args path w = with_session side dirlist_sendto_user w λ s.
      if flags.flag_cacheok && has_files s.files
      then call_handler call side (ev_cmd (id_or_none s.files_reply_id) (pos (length s.files)) []) w
      else session_dirlist call lion side (list_args args (decoded lion path)) flags
          dirlist_sendto_user w

  unfoldable pub manager_quote : Option Text → World → Option World
  manager_quote args w = with_session side quote_reply w λ s.
      with_text side quote_reply args w
        λ t. session_cmdq_newf call side flags quote_reply [] (lion.url_decode t) w

  unfoldable pub manager_cwd : Option Text → World → Option World
  manager_cwd args w = with_session side cwd_reply w λ s.
      with_text side cwd_reply args w
        λ t. session_cwd call side flags (some cwd_reply) (some (lion.url_decode t)) w

  unfoldable pub manager_pwd : World → Option World
  manager_pwd w =
      with_session side pwd_reply w
        λ s. session_cmdq_new call side flags pwd_reply (codes "PWD" ++ crlf) w

  unfoldable pub manager_size : Option Text → World → Option World
  manager_size args w = with_session side size_reply w λ s.
      with_text side size_reply args w
        λ t. session_cmdq_newf call side flags size_reply (codes "SIZE ") t w

  unfoldable pub manager_mkd : Text → World → Option World
  manager_mkd args w =
      with_session side mkd_reply w
        λ s. session_cmdq_newf call side flags mkd_reply (codes "MKD ") (lion.url_decode args) w

  -- The argument of RMD is not decoded.
  unfoldable pub manager_rmd : Text → World → Option World
  manager_rmd args w =
      with_session side rmd_reply w
        λ s. session_cmdq_newf call side flags rmd_reply (codes "RMD ") args w

  unfoldable pub manager_dele : Text → World → Option World
  manager_dele args w =
      with_session side dele_reply w
        λ s. session_cmdq_newf call side flags dele_reply (codes "DELE ") (lion.url_decode args) w

  unfoldable pub manager_site : Text → World → Option World
  manager_site args w =
      with_session side site_reply w
        λ s. session_cmdq_newf call side flags site_reply (codes "SITE ") (lion.url_decode args) w

  -- RNTO is sent whatever comes of RNFR.
  unfoldable pub manager_ren : Text → Text → World → Option World
  manager_ren from to w = with_session side rnfr_reply w λ s. do
    w ← session_cmdq_newf call side flags rnfr_reply (codes "RNFR ") from w
    session_cmdq_newf call side flags rnto_reply (codes "RNTO ") to w

  unfoldable pub manager_mdtm : Text → World → Option World
  manager_mdtm args w =
      with_session side mdtm_reply w
        λ s. session_cmdq_newf call side flags mdtm_reply (codes "MDTM ") args w
