-- ===== src/Engine/Managers/Registry/Laws.antt =====
-- The list of managers: ids, users who leave, and how often the cleaning has to run.
use fxp_one.Prelude.{
  ℕ, zero, suc, ◌-◌, ◌%◌, ◌^◌, ◌≤◌, ◌<◌, Bool, List, [], ◌∷◌, Option, some, ◌≡◌, refl, ◌==◌,
  if◌then◌else◌, arith, map, ◌∙◌, Bool-cases, inl, inr,
}
use fxp_one.Lion.{Lion}
use fxp_one.Site.{Site}
use fxp_one.Engine.World.{Manager}
use fxp_one.Engine.Managers.Registry.{
  Registry, UserFlags, manager_new, free_old, manager_cleanup, manager_find_fromsid,
}

-- The managers that are not released, and how many are.
abbrev pub live : List Manager → List Manager
live [] = []
live (m ∷ ms) = if m.id == 0 then live ms else m ∷ live ms

abbrev pub released : List Manager → ℕ
released [] = 0
released (m ∷ ms) = if m.id == 0 then suc (released ms) else released ms

abbrev pub cleanings : ℕ → List Manager → List Manager
cleanings zero ms = ms
cleanings (suc n) ms = cleanings n (manager_cleanup ms)

free_old-id : (m : Manager) → (free_old m).id ≡ m.id
unfolding free_old
free_old-id m = ground arith

free_old-twice : (m : Manager) → free_old (free_old m) ≡ free_old m
unfolding free_old
free_old-twice m = ground arith

-- A cleaning takes one released manager away, if there is one, and frees in front of it.
live-cleanup :
    (ms : List Manager) → map free_old (live (manager_cleanup ms)) ≡ map free_old (live ms)
unfolding manager_cleanup
live-cleanup [] = refl
live-cleanup (m ∷ ms) = elim (Bool-cases (m.id == 0)) [
  | inl gone ↦ ground (arith, gone)
  | inr stays ↦ ground (arith, stays, free_old-id m, free_old-twice m, live-cleanup ms)
]

released-cleanup : (ms : List Manager) → suc (released (manager_cleanup ms)) ≤ suc (released ms - 1)
unfolding manager_cleanup
released-cleanup [] = omega arith
released-cleanup (m ∷ ms) = ground (arith, free_old-id m, released-cleanup ms)

cleanup-all_live :
    (ms : List Manager) → released ms ≡ 0 → manager_cleanup ms ≡ map free_old (live ms)
unfolding manager_cleanup
cleanup-all_live [] h = refl
cleanup-all_live (m ∷ ms) h = ground (arith, cleanup-all_live ms)

-- After one cleaning more than there are released managers, the managers that are left are those that
-- were not released, in their order, and no old session is left to be freed.
pub manager_cleanup-finishes :
    (n : ℕ) (ms : List Manager) → released ms ≤ n → cleanings (suc n) ms ≡ map free_old (live ms)
manager_cleanup-finishes zero ms h = cleanup-all_live ms (omega arith)
manager_cleanup-finishes (suc n) ms h =
    manager_cleanup-finishes n (manager_cleanup ms) (omega (arith, released-cleanup ms))
    ∙ live-cleanup ms

-- Every id that was given out is below the next one.
abbrev pub AllBelow : ℕ → List Manager → Type 0
AllBelow n [] = Unit
AllBelow n (m ∷ ms) = (m.id < n) × AllBelow n ms

AllBelow-suc : (n : ℕ) (ms : List Manager) → AllBelow n ms → AllBelow (suc n) ms
AllBelow-suc n [] h = tt
AllBelow-suc n (m ∷ ms) h = (omega (arith, h.0), AllBelow-suc n ms h.1)

find-below :
    (n sid : ℕ) (ms : List Manager) (m : Manager)
    → AllBelow n ms
    → manager_find_fromsid ms sid ≡ some m
    → sid < n
unfolding manager_find_fromsid
find-below n sid [] m h e = absurd (ground arith)
find-below n sid (k ∷ ms) m h e = ground (arith, h.0, find-below n sid ms m h.1)

-- Until 2^32 sessions have been made, a new manager is found under its id, every other stays to be
-- found under its own, and the ids given out stay below the next one.
pub manager_new-fresh :
    (lion : Lion) (server_ssl : Bool) (user : Option ℕ) (site : Site) (flags : UserFlags)
    (r : Registry)
    → AllBelow r.next_id r.managers
    → suc r.next_id < 2 ^ 32
    → let (r', m) = manager_new lion server_ssl user site flags r in
      (manager_find_fromsid r'.managers m.id ≡ some m)
      × ((sid : ℕ) (k : Manager)
          → manager_find_fromsid r.managers sid ≡ some k
          → manager_find_fromsid r'.managers sid ≡ some k)
      × AllBelow r'.next_id r'.managers
unfolding manager_new manager_find_fromsid
manager_new-fresh lion server_ssl user site flags r h small = (
  ground arith,
  λ sid k e. ground (arith, find-below r.next_id sid r.managers k h),
  (omega arith, grow (omega arith)),
)
  where
    grow : suc r.next_id % 2 ^ 32 ≡ suc r.next_id → AllBelow (suc r.next_id % 2 ^ 32) r.managers
    grow e = rw e (AllBelow-suc r.next_id r.managers h)
