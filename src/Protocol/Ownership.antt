-- ===== src/Protocol/Ownership.antt =====
-- Who may use a session, and what a FID stands for.
use fxp_one.Prelude.{
  ℕ, false, List, [], ◌∷◌, Option, none, some, Text, codes, atoi, ◌≡◌, refl, ◌⊎◌, inl, inr, arith,
}
use fxp_one.Lion.{Lion}
use fxp_one.Site.{findkey}
use fxp_one.Engine.World.{Manager, Call}
use fxp_one.Engine.Managers.Registry.{manager_find_fromsid, is_user}
use fxp_one.Protocol.State.{Daemon, Keys, answer, managers, with_sid}
use fxp_one.Protocol.Sessions.{
  command2_cmd_dirlist, command2_cmd_quote, command2_cmd_cwd, command2_cmd_pwd, command2_cmd_size,
  command2_cmd_dele, command2_cmd_mkd, command2_cmd_rmd, command2_cmd_site, command2_cmd_ren,
  command2_cmd_mdtm,
}
use fxp_one.Protocol.Table.{Request}

module _ (lion : Lion) (call : Call) (user : ℕ) where
  -- The requests on a session.
  abbrev pub session_requests : List Request
  session_requests =
      (codes "DIRLIST", command2_cmd_dirlist lion call user)
      ∷ (codes "QUOTE", command2_cmd_quote lion call user)
      ∷ (codes "CWD", command2_cmd_cwd lion call user)
      ∷ (codes "PWD", command2_cmd_pwd lion call user)
      ∷ (codes "SIZE", command2_cmd_size lion call user)
      ∷ (codes "DELE", command2_cmd_dele lion call user)
      ∷ (codes "MKD", command2_cmd_mkd lion call user)
      ∷ (codes "RMD", command2_cmd_rmd lion call user)
      ∷ (codes "SITE", command2_cmd_site lion call user)
      ∷ (codes "REN", command2_cmd_ren lion call user)
      ∷ (codes "MDTM", command2_cmd_mdtm lion call user)
      ∷ []

  -- Nothing is done but to answer with 1501 or with 1508.
  abbrev pub Refuses : Keys → Daemon → Request → Type 0
  Refuses keys d r = (r.1 keys d ≡ answer user r.0 1501 d) ⊎ (r.1 keys d ≡ answer user r.0 1508 d)

  abbrev pub AllRefuse : Keys → Daemon → List Request → Type 0
  AllRefuse keys d [] = Unit
  AllRefuse keys d (r ∷ rs) = Refuses keys d r × AllRefuse keys d rs

  module _ (d : Daemon) (m : Manager) (keys : Keys) (sid : Text)
      (given : findkey keys (codes "SID") ≡ some sid)
      (found : manager_find_fromsid (managers d) (atoi sid) ≡ some m)
      (foreign : is_user m.user user ≡ false) where
    refused :
        (request : Text) (k : Manager → Option Daemon)
        → with_sid user request sid d k ≡ answer user request 1508 d
    unfolding with_sid
    refused request k = ground (arith, found, foreign)

    argument_refused :
        (request : Text) (arg : Option Text) (k : Text → Manager → Option Daemon)
        → (elim arg [
          | none ↦ answer user request 1501 d
          | some v ↦ with_sid user request sid d (k v)
        ]
            ≡ answer user request 1501 d)
          ⊎ (elim arg [
            | none ↦ answer user request 1501 d
            | some v ↦ with_sid user request sid d (k v)
          ]
              ≡ answer user request 1508 d)
    argument_refused request none k = inl refl
    argument_refused request (some v) k = inr (refused request (k v))

    -- A session that another user has, or none, is not touched by any of eleven requests: DIRLIST,
    -- QUOTE, CWD, PWD, SIZE, DELE, MKD, RMD, SITE, REN and MDTM do nothing but answer. SESSIONFREE is
    -- not among them.
    pub requests-refuse : AllRefuse keys d session_requests
    unfolding command2_cmd_dirlist command2_cmd_quote command2_cmd_cwd command2_cmd_pwd
        command2_cmd_size command2_cmd_dele command2_cmd_mkd command2_cmd_rmd command2_cmd_site
        command2_cmd_ren command2_cmd_mdtm
    requests-refuse = (
      inr (rw given (refused (codes "DIRLIST") _)),
      (
        rw given (argument_refused (codes "QUOTE") (findkey keys (codes "MSG")) _),
        (
          inr (rw given (refused (codes "CWD") _)),
          (
            inr (rw given (refused (codes "PWD") _)),
            (
              inr (rw given (refused (codes "SIZE") _)),
              (
                inr (rw given (refused (codes "DELE") _)),
                (
                  rw given (argument_refused (codes "MKD") (findkey keys (codes "PATH")) _),
                  (
                    inr (rw given (refused (codes "RMD") _)),
                    (
                      rw given (argument_refused (codes "SITE") (findkey keys (codes "CMD")) _),
                      (
                        rw given (argument_refused (codes "REN") (findkey keys (codes "TO")) _),
                        (inr (rw given (refused (codes "MDTM") _)), (tt)),
                      ),
                    ),
                  ),
                ),
              ),
            ),
          ),
        ),
      ),
    )
