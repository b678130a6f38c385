-- ===== src/Protocol/Staying.antt =====
-- What becomes of the managers of a queue when a session is freed, and when a user goes.
use mathlib.Core.Path.{subst}
use fxp_one.Prelude.{
  ℕ, true, false, List, [], ◌∷◌, Option, some, codes, atoi, ◌≡◌, ◌≢◌, refl, arith, ◌==◌, Bool-cases,
  Option-cases, inl, inr, ap, sym, ◌∙◌,
}
use fxp_one.Lion.{Lion}
use fxp_one.Site.{findkey}
use fxp_one.File.Listing.Laws.{some-inj}
use fxp_one.Engine.World.{Manager, Call}
use fxp_one.Engine.Managers.Registry.{
  manager_find_fromsid, manager_release, manager_unlink_all_user, unlink,
}
use fxp_one.Protocol.State.{Daemon, Keys, say, managers, with_key}
use fxp_one.Protocol.Sites.{release_first, command2_cmd_sessionfree}
use fxp_one.Protocol.Table.{user_gone}

found_head :
    (x : Manager) (ms : List Manager) (k : Manager) (sid : ℕ)
    → (x.id == sid) ≡ true
    → manager_find_fromsid (x ∷ ms) sid ≡ some k
    → x ≡ k
unfolding manager_find_fromsid
found_head x ms k sid hit found = some-inj (ground (arith, hit, found))

found_here :
    (x : Manager) (ms : List Manager) (sid : ℕ)
    → (x.id == sid) ≡ true
    → manager_find_fromsid (x ∷ ms) sid ≡ some x
unfolding manager_find_fromsid
found_here x ms sid hit = ground (arith, hit)

found_tail :
    (x : Manager) (ms : List Manager) (sid : ℕ)
    → (x.id == sid) ≡ false
    → manager_find_fromsid (x ∷ ms) sid ≡ manager_find_fromsid ms sid
unfolding manager_find_fromsid
found_tail x ms sid miss = ground (arith, miss)

-- The manager that is released is out of no queue, so it is not the one that is looked for.
released-find :
    (ms : List Manager) (m k : Manager) (sid : ℕ)
    → manager_find_fromsid ms m.id ≡ some m
    → m.qid ≡ 0
    → manager_find_fromsid ms sid ≡ some k
    → k.qid ≢ 0
    → sid ≢ 0
    → manager_find_fromsid (release_first m.id ms) sid ≡ some k
unfolding release_first manager_release
released-find [] m k sid e free found held real = found
released-find (x ∷ xs) m k sid e free found held real = elim (Bool-cases (x.id == m.id)) [
  | inl same ↦ elim (Bool-cases (x.id == sid)) [
    | inl hit ↦ absurd (
        held (
          ap (λ v. v.qid) (sym (found_head x xs k sid hit found) ∙ found_head x xs m m.id same e)
          ∙ free))
    | inr miss ↦
        rw (release_first, same)
          (found_tail (manager_release x) xs sid (ground (arith, real))
            ∙ (sym (found_tail x xs sid miss) ∙ found))
  ]
  | inr other ↦ elim (Bool-cases (x.id == sid)) [
    | inl hit ↦
        rw (release_first, other)
          (found_here x (release_first m.id xs) sid hit ∙ ap some (found_head x xs k sid hit found))
    | inr miss ↦
        rw (release_first, other)
          (found_tail x (release_first m.id xs) sid miss
            ∙ released-find xs m k sid (sym (found_tail x xs m.id other) ∙ e) free
                (sym (found_tail x xs sid miss) ∙ found) held real)
  ]
]

-- A manager with a queue keeps its session and its queue when a user goes.
abbrev pub Stays : List Manager → ℕ → Manager → Type 0
Stays ms sid k =
    (v : Manager) × (manager_find_fromsid ms sid ≡ some v)
    × (v.session ≡ k.session)
    × (v.qid ≡ k.qid)

unlink-Stays :
    (user : ℕ) (x : Manager) (ms : List Manager) (sid : ℕ)
    → (x.id == sid) ≡ true
    → x.qid ≢ 0
    → Stays (unlink user x ∷ ms) sid x
unfolding unlink manager_find_fromsid
unlink-Stays user x ms sid hit held = (
  unlink user x,
  found_here (unlink user x) ms sid (ground (arith, hit, held)),
  ground (arith, held),
  ground (arith, held),
)

unlink-miss :
    (user : ℕ) (x : Manager) (sid : ℕ)
    → (x.id == sid) ≡ false
    → sid ≢ 0
    → ((unlink user x).id == sid) ≡ false
unfolding unlink manager_release
unlink-miss user x sid miss real = ground (arith, miss, real)

unlink_all-Stays :
    (user : ℕ) (ms : List Manager) (sid : ℕ) (k : Manager)
    → manager_find_fromsid ms sid ≡ some k
    → k.qid ≢ 0
    → sid ≢ 0
    → Stays (manager_unlink_all_user user ms) sid k
unfolding manager_unlink_all_user manager_find_fromsid
unlink_all-Stays user [] sid k found held real = absurd (ground (arith, found))
unlink_all-Stays user (x ∷ xs) sid k found held real = elim (Bool-cases (x.id == sid)) [
  | inl hit ↦
      let same = found_head x xs k sid hit found in
      subst (λ v. Stays (unlink user x ∷ manager_unlink_all_user user xs) sid v) same
        (unlink-Stays user x (manager_unlink_all_user user xs) sid hit
          (λ none_left. held (ap (λ v. v.qid) (sym same) ∙ none_left)))
  | inr miss ↦
      let (v, there, same_session, same_qid) =
        unlink_all-Stays user xs sid k (sym (found_tail x xs sid miss) ∙ found) held real in
      (
        v,
        found_tail (unlink user x) (manager_unlink_all_user user xs) sid
              (unlink-miss user x sid miss real)
            ∙ there,
        same_session,
        same_qid,
      )
]

find-id :
    (ms : List Manager) (sid : ℕ) (m : Manager) → manager_find_fromsid ms sid ≡ some m → m.id ≡ sid
unfolding manager_find_fromsid
find-id [] sid m e = absurd (ground (arith, e))
find-id (x ∷ xs) sid m e = elim (Bool-cases (x.id == sid)) [
  | inl hit ↦ ap (λ v. v.id) (sym (found_head x xs m sid hit e)) ∙ ground (arith, hit)
  | inr miss ↦ find-id xs sid m (sym (found_tail x xs sid miss) ∙ e)
]

-- There is a result, and the manager is found in it as it was.
abbrev pub Finds : ℕ → Manager → Option Daemon → Type 0
Finds sid k o = (d' : Daemon) × (o ≡ some d') × (manager_find_fromsid (managers d') sid ≡ some k)

module _ (lion : Lion) (user : ℕ) (d : Daemon) (sid : ℕ) (k : Manager)
    (found : manager_find_fromsid (managers d) sid ≡ some k) (held : k.qid ≢ 0)
    (real : sid ≢ 0) where
  freed-Finds : (keys : Keys) → Finds sid k (command2_cmd_sessionfree lion user keys d)
  unfolding command2_cmd_sessionfree say
  freed-Finds keys = elim (Option-cases (findkey keys (codes "SID"))) [
    | inl e ↦ rw (command2_cmd_sessionfree, e) (_, refl, found)
    | inr (s, e) ↦ elim (Option-cases (manager_find_fromsid (managers d) (atoi s))) [
      | inl e' ↦ rw (command2_cmd_sessionfree, e, with_key, e') (_, refl, found)
      | inr (m, e') ↦ elim (Bool-cases (m.qid == 0)) [
        | inl free ↦
            rw (command2_cmd_sessionfree, e, with_key, e', free)
              (
                _,
                refl,
                released-find (managers d) m k sid
                    (subst (λ n. manager_find_fromsid (managers d) n ≡ some m)
                      (sym (find-id (managers d) (atoi s) m e')) e')
                    (ground (arith, free)) found held real,
              )
        | inr taken ↦ rw (command2_cmd_sessionfree, e, with_key, e', taken) (_, refl, found)
      ]
    ]
  ]

  -- A manager with a queue is found as it was after SESSIONFREE of any session, and with its session
  -- and its queue after any user has gone.
  pub requests-keep_managers :
      (call : Call)
      → ((keys : Keys) → Finds sid k (command2_cmd_sessionfree lion user keys d))
        × Stays (managers (user_gone lion call user d)) sid k
  unfolding user_gone
  requests-keep_managers call =
      (λ keys. freed-Finds keys, unlink_all-Stays user (managers d) sid k found held real)
