-- ===== src/Protocol/Keeping.antt =====
-- The counters of every queue under the requests on sessions.
use fxp_one.Prelude.{
  ℕ, Bool, true, false, [], ◌∷◌, Option, none, some, Text, atoi, ◌≡◌, refl, ◌==◌, if◌then◌else◌,
  ◌>>=◌, arith,
}
use fxp_one.Lion.{Lion}
use fxp_one.Queue.Types.{Queue, queue_newnode, Side, north, south}
use fxp_one.Queue.Accounting.{IsCounted}
use fxp_one.File.{File}
use fxp_one.File.Listing.{session_getfid}
use fxp_one.Engine.World.{World, Call, Manager}
use fxp_one.Engine.Managers.Registry.{manager_find_fromsid, is_user}
use fxp_one.Engine.Counting.{IsCountedWorld, Keeps}
use fxp_one.Protocol.State.{
  Daemon, answer, say, managers, on_manager, on_queue_of, managers_of, world_of, take_world,
  set_managers, put_manager, queue_findbyqid, with_sid,
}
use fxp_one.Protocol.Sessions.{with_path, path_of_fid, path_of_file, from_fid}
use fxp_one.Protocol.Counted.{AllCounted, found-IsCounted}
use fxp_one.Protocol.Written.{KeepsAll, known-KeepsAll, none-KeepsAll, on_managers-KeepsAll}

pub if-KeepsAll :
    (b : Bool) (x y : Option Daemon) → KeepsAll x → KeepsAll y → KeepsAll (if b then x else y)
if-KeepsAll true x y p q = p
if-KeepsAll false x y p q = q

pub option-KeepsAll {ℓ} :
    {A : Type ℓ} (o : Option A) (x : Option Daemon) (f : A → Option Daemon)
    → KeepsAll x
    → ((a : A) → KeepsAll (f a))
    → KeepsAll (elim o [ none ↦ x | some a ↦ f a ])
option-KeepsAll none x f p q = p
option-KeepsAll (some a) x f p q = q a

module _ (d : Daemon) (h : AllCounted d.queues) where
  pub answer-KeepsAll :
      (user : ℕ) (request : Text) (code : ℕ) → KeepsAll (answer user request code d)
  unfolding say
  answer-KeepsAll user request code = known-KeepsAll _ h

  alone-KeepsAll :
      (o : Option World)
      → KeepsAll
          (o >>= (λ w. some (set_managers (put_manager w.north_mgr (managers d)) (take_world w d))))
  unfolding take_world
  alone-KeepsAll none = none-KeepsAll
  alone-KeepsAll (some w) = known-KeepsAll _ h

  by_queue :
      (m : Manager) (op : Side → World → Option World) (o : Option Queue)
      → ((q : Queue) → o ≡ some q → IsCounted q)
      → ((side : Side) (w : World) → IsCountedWorld w → Keeps (op side w))
      → KeepsAll (elim o [
        | some q ↦ on_queue_of d q (op (if q.north_mgr == m.id then north else south))
        | none ↦ do
          w ← op north (world_of d (queue_newnode 0) m m)
          some (set_managers (put_manager w.north_mgr (managers d)) (take_world w d))
      ])
  by_queue m op none c k = alone-KeepsAll (op north (world_of d (queue_newnode 0) m m))
  by_queue m op (some q) c k =
      on_managers-KeepsAll d q _ (managers_of d q) h (c q refl)
        (λ w v. k (if q.north_mgr == m.id then north else south) w v)

  own_queue :
      (b : Bool) (qid : ℕ) (q : Queue)
      → (if b then none else queue_findbyqid d.queues qid) ≡ some q
      → IsCounted q
  own_queue true qid q e = absurd (ground (arith, e))
  own_queue false qid q e = found-IsCounted d.queues qid q h e

  pub on_manager-KeepsAll :
      (m : Manager) (op : Side → World → Option World)
      → ((side : Side) (w : World) → IsCountedWorld w → Keeps (op side w))
      → KeepsAll (on_manager m op d)
  unfolding on_manager
  on_manager-KeepsAll m op k = by_queue m op _ (own_queue (m.qid == 0) m.qid) k

  module _ (user : ℕ) where
    pub key-KeepsAll :
        (request : Text) (code : ℕ) (value : Option Text) (k : Text → Option Daemon)
        → ((v : Text) → KeepsAll (k v))
        → KeepsAll (elim value [ none ↦ answer user request code d | some v ↦ k v ])
    key-KeepsAll request code value k f =
        option-KeepsAll value _ k (answer-KeepsAll user request code) f

    pub sid-KeepsAll :
        (request sid : Text) (k : Manager → Option Daemon)
        → ((m : Manager) → KeepsAll (k m))
        → KeepsAll (with_sid user request sid d k)
    unfolding with_sid
    sid-KeepsAll request sid k f =
        option-KeepsAll (manager_find_fromsid (managers d) (atoi sid)) _ _
          (answer-KeepsAll user request 1506)
          (λ m. if-KeepsAll (is_user m.user user) _ _ (f m) (answer-KeepsAll user request 1508))

    module _ (lion : Lion) (call : Call) (copies : Bool) (request : Text) (m : Manager)
        (k : Text → Option Daemon) (f : (p : Text) → KeepsAll (k p)) where
      file-KeepsAll : (x : File) (b : Bool) → KeepsAll (path_of_file lion call user b request d x k)
      unfolding path_of_file
      file-KeepsAll x true = option-KeepsAll x.fullpath _ k none-KeepsAll f
      file-KeepsAll x false = option-KeepsAll x.fullpath _ k (answer-KeepsAll user request 1501) f

      fid-KeepsAll : (fid : Text) → KeepsAll (path_of_fid lion call user copies request d m fid k)
      unfolding path_of_fid
      fid-KeepsAll fid = option-KeepsAll m.session none _ none-KeepsAll (λ s.
          option-KeepsAll (session_getfid s.files (atoi fid)) _ _
            (answer-KeepsAll user request 1515) (λ x. file-KeepsAll x copies))

      from-KeepsAll :
          (fid : Option Text) → KeepsAll (from_fid lion call user copies request d m fid k)
      from-KeepsAll none = answer-KeepsAll user request 1501
      from-KeepsAll (some []) = answer-KeepsAll user request 1501
      from-KeepsAll (some (c ∷ cs)) = fid-KeepsAll (c ∷ cs)

      pub path-KeepsAll :
          (path fid : Option Text)
          → KeepsAll (with_path lion call user copies request d m path fid k)
      unfolding with_path
      path-KeepsAll path fid = option-KeepsAll path _ k (from-KeepsAll fid) f
