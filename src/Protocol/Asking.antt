-- ===== src/Protocol/Asking.antt =====
-- The counters of every queue under each of the requests on sessions.
use fxp_one.Prelude.{ℕ, true, false, List, [], ◌∷◌, some, codes}
use fxp_one.Lion.{Lion}
use fxp_one.Site.{findkey}
use fxp_one.Engine.Counting.{IsKeeping}
use fxp_one.Engine.Handlers.{deliver}
use fxp_one.Engine.Counting.Events.{deliver-IsKeeping}
use fxp_one.Engine.Counting.Asking.{
  manager_dirlist-Keeps, manager_quote-Keeps, manager_cwd-Keeps, manager_pwd-Keeps,
  manager_size-Keeps, sending-Keeps, manager_ren-Keeps,
}
use fxp_one.Engine.Managers.Asking.{
  manager_dirlist, manager_quote, manager_cwd, manager_pwd, manager_size, manager_mkd, manager_rmd,
  manager_dele, manager_site, manager_ren, manager_mdtm,
}
use fxp_one.Protocol.State.{Daemon, Keys}
use fxp_one.Protocol.Sessions.{
  command2_cmd_dirlist, command2_cmd_quote, command2_cmd_cwd, command2_cmd_pwd, command2_cmd_size,
  command2_cmd_dele, command2_cmd_mkd, command2_cmd_rmd, command2_cmd_site, command2_cmd_ren,
  command2_cmd_mdtm, log_flag, list_flags, decode,
}
use fxp_one.Protocol.Table.{Request}
use fxp_one.Protocol.Ownership.{session_requests}
use fxp_one.Protocol.Counted.{AllCounted}
use fxp_one.Protocol.Written.{KeepsAll}
use fxp_one.Protocol.Keeping.{key-KeepsAll, sid-KeepsAll, path-KeepsAll, on_manager-KeepsAll}

-- Each of the requests leaves every queue counted.
abbrev pub AllKeep : Keys → Daemon → List Request → Type 0
AllKeep keys d [] = Unit
AllKeep keys d (r ∷ rs) = KeepsAll (r.1 keys d) × AllKeep keys d rs

module _ (lion : Lion) (depth user : ℕ) (d : Daemon) (h : AllCounted d.queues) (keys : Keys) where
  good : IsKeeping (deliver lion depth)
  good = deliver-IsKeeping lion depth

  dirlist-KeepsAll : KeepsAll (command2_cmd_dirlist lion (deliver lion depth) user keys d)
  unfolding command2_cmd_dirlist
  dirlist-KeepsAll =
      key-KeepsAll d h user (codes "DIRLIST") 1501 (findkey keys (codes "SID")) _ λ sid.
        sid-KeepsAll d h user (codes "DIRLIST") sid _ λ m.
          on_manager-KeepsAll d h m
            (λ side w.
              manager_dirlist lion (deliver lion depth) side (list_flags keys)
                (findkey keys (codes "ARGS")) (findkey keys (codes "PATH")) w)
            (λ side w c.
              manager_dirlist-Keeps lion (deliver lion depth) good side (list_flags keys) _ _ w c)

  quote-KeepsAll : KeepsAll (command2_cmd_quote lion (deliver lion depth) user keys d)
  unfolding command2_cmd_quote
  quote-KeepsAll = key-KeepsAll d h user (codes "QUOTE") 1501 (findkey keys (codes "SID")) _ λ sid.
      key-KeepsAll d h user (codes "QUOTE") 1501 (findkey keys (codes "MSG")) _ λ arg.
        sid-KeepsAll d h user (codes "QUOTE") sid _ λ m.
          on_manager-KeepsAll d h m
            (λ side w. manager_quote lion (deliver lion depth) side (log_flag keys) (some arg) w)
            (λ side w c.
              manager_quote-Keeps lion (deliver lion depth) good side (log_flag keys) (some arg) w
                c)

  cwd-KeepsAll : KeepsAll (command2_cmd_cwd lion (deliver lion depth) user keys d)
  unfolding command2_cmd_cwd
  cwd-KeepsAll = key-KeepsAll d h user (codes "CWD") 1501 (findkey keys (codes "SID")) _ λ sid.
      sid-KeepsAll d h user (codes "CWD") sid _ λ m.
        path-KeepsAll d h user lion (deliver lion depth) false (codes "CWD") m _
          (λ p.
            on_manager-KeepsAll d h m
              (λ side w. manager_cwd lion (deliver lion depth) side (log_flag keys) (some p) w)
              (λ side w c.
                manager_cwd-Keeps lion (deliver lion depth) good side (log_flag keys) (some p) w c))
          (findkey keys (codes "PATH")) (findkey keys (codes "FID"))

  pwd-KeepsAll : KeepsAll (command2_cmd_pwd lion (deliver lion depth) user keys d)
  unfolding command2_cmd_pwd
  pwd-KeepsAll = key-KeepsAll d h user (codes "PWD") 1501 (findkey keys (codes "SID")) _ λ sid.
      sid-KeepsAll d h user (codes "PWD") sid _ λ m.
        on_manager-KeepsAll d h m
          (λ side w. manager_pwd lion (deliver lion depth) side (log_flag keys) w)
          (λ side w c. manager_pwd-Keeps lion (deliver lion depth) good side (log_flag keys) w c)

  size-KeepsAll : KeepsAll (command2_cmd_size lion (deliver lion depth) user keys d)
  unfolding command2_cmd_size
  size-KeepsAll = key-KeepsAll d h user (codes "SIZE") 1501 (findkey keys (codes "SID")) _ λ sid.
      sid-KeepsAll d h user (codes "SIZE") sid _ λ m.
        path-KeepsAll d h user lion (deliver lion depth) true (codes "SIZE") m _
          (λ p.
            on_manager-KeepsAll d h m
              (λ side w. manager_size lion (deliver lion depth) side (log_flag keys) (some p) w)
              (λ side w c.
                manager_size-Keeps lion (deliver lion depth) good side (log_flag keys) (some p) w
                  c))
          (decode lion (deliver lion depth) user (findkey keys (codes "PATH")))
          (findkey keys (codes "FID"))

  dele-KeepsAll : KeepsAll (command2_cmd_dele lion (deliver lion depth) user keys d)
  unfolding command2_cmd_dele
  dele-KeepsAll = key-KeepsAll d h user (codes "DELE") 1501 (findkey keys (codes "SID")) _ λ sid.
      sid-KeepsAll d h user (codes "DELE") sid _ λ m.
        path-KeepsAll d h user lion (deliver lion depth) false (codes "DELE") m _
          (λ p.
            on_manager-KeepsAll d h m
              (λ side w. manager_dele lion (deliver lion depth) side (log_flag keys) p w)
              (λ side w c.
                (sending-Keeps lion (deliver lion depth) good side (log_flag keys) p w c).2))
          (findkey keys (codes "PATH")) (findkey keys (codes "FID"))

  mkd-KeepsAll : KeepsAll (command2_cmd_mkd lion (deliver lion depth) user keys d)
  unfolding command2_cmd_mkd
  mkd-KeepsAll = key-KeepsAll d h user (codes "MKD") 1501 (findkey keys (codes "SID")) _ λ sid.
      key-KeepsAll d h user (codes "MKD") 1501 (findkey keys (codes "PATH")) _ λ arg.
        sid-KeepsAll d h user (codes "MKD") sid _ λ m.
          on_manager-KeepsAll d h m
            (λ side w. manager_mkd lion (deliver lion depth) side (log_flag keys) arg w)
            (λ side w c.
              (sending-Keeps lion (deliver lion depth) good side (log_flag keys) arg w c).0)

  rmd-KeepsAll : KeepsAll (command2_cmd_rmd lion (deliver lion depth) user keys d)
  unfolding command2_cmd_rmd
  rmd-KeepsAll = key-KeepsAll d h user (codes "RMD") 1501 (findkey keys (codes "SID")) _ λ sid.
      sid-KeepsAll d h user (codes "RMD") sid _ λ m.
        path-KeepsAll d h user lion (deliver lion depth) true (codes "RMD") m _
          (λ p.
            on_manager-KeepsAll d h m
              (λ side w. manager_rmd lion (deliver lion depth) side (log_flag keys) p w)
              (λ side w c.
                (sending-Keeps lion (deliver lion depth) good side (log_flag keys) p w c).1))
          (decode lion (deliver lion depth) user (findkey keys (codes "PATH")))
          (findkey keys (codes "FID"))

  site-KeepsAll : KeepsAll (command2_cmd_site lion (deliver lion depth) user keys d)
  unfolding command2_cmd_site
  site-KeepsAll = key-KeepsAll d h user (codes "SITE") 1501 (findkey keys (codes "SID")) _ λ sid.
      key-KeepsAll d h user (codes "SITE") 1501 (findkey keys (codes "CMD")) _ λ arg.
        sid-KeepsAll d h user (codes "SITE") sid _ λ m.
          on_manager-KeepsAll d h m
            (λ side w. manager_site lion (deliver lion depth) side (log_flag keys) arg w)
            (λ side w c.
              (sending-Keeps lion (deliver lion depth) good side (log_flag keys) arg w c).3)

  ren-KeepsAll : KeepsAll (command2_cmd_ren lion (deliver lion depth) user keys d)
  unfolding command2_cmd_ren
  ren-KeepsAll = key-KeepsAll d h user (codes "REN") 1501 (findkey keys (codes "SID")) _ λ sid.
      key-KeepsAll d h user (codes "REN") 1501 (findkey keys (codes "TO")) _ λ arg.
        sid-KeepsAll d h user (codes "REN") sid _ λ m.
          path-KeepsAll d h user lion (deliver lion depth) true (codes "REN") m _
            (λ p.
              on_manager-KeepsAll d h m
                (λ side w.
                  manager_ren lion (deliver lion depth) side (log_flag keys) p (lion.url_decode arg)
                    w)
                (λ side w c.
                  manager_ren-Keeps lion (deliver lion depth) good side (log_flag keys) p _ w c))
            (decode lion (deliver lion depth) user (findkey keys (codes "FROM")))
            (findkey keys (codes "FID"))

  mdtm-KeepsAll : KeepsAll (command2_cmd_mdtm lion (deliver lion depth) user keys d)
  unfolding command2_cmd_mdtm
  mdtm-KeepsAll = key-KeepsAll d h user (codes "MDTM") 1501 (findkey keys (codes "SID")) _ λ sid.
      sid-KeepsAll d h user (codes "MDTM") sid _ λ m.
        path-KeepsAll d h user lion (deliver lion depth) true (codes "MDTM") m _
          (λ p.
            on_manager-KeepsAll d h m
              (λ side w. manager_mdtm lion (deliver lion depth) side (log_flag keys) p w)
              (λ side w c.
                (sending-Keeps lion (deliver lion depth) good side (log_flag keys) p w c).4))
          (decode lion (deliver lion depth) user (findkey keys (codes "PATH")))
          (findkey keys (codes "FID"))

  -- Whatever a request on a session asks for, and whoever asks, every queue is counted afterwards if it
  -- was before, unless a NULL pointer is followed.
  pub session_requests-AllKeep : AllKeep keys d (session_requests lion (deliver lion depth) user)
  session_requests-AllKeep = (
    dirlist-KeepsAll,
    (
      quote-KeepsAll,
      (
        cwd-KeepsAll,
        (
          pwd-KeepsAll,
          (
            size-KeepsAll,
            (
              dele-KeepsAll,
              (mkd-KeepsAll, (rmd-KeepsAll, (site-KeepsAll, (ren-KeepsAll, (mdtm-KeepsAll, tt))))),
            ),
          ),
        ),
      ),
    ),
  )
