-- ===== src/Engine/Counting/Mkd.antt =====
-- Naming the part of a path that MKD is to make keeps the counters.
use fxp_one.Prelude.{
  Bool, true, false, Option, none, some, Text, ◌≡◌, if◌then◌else◌, ◌>>=◌, arith, leb,
}
use fxp_one.Lion.{Lion}
use fxp_one.Engine.World.{World, Store}
use fxp_one.Engine.Handlers.{mkdname_decrease, shorten, next_mkdname, refill, dst_dirname}
use fxp_one.Engine.Counting.{IsCountedWorld, counted_like}

-- As Keeps, for a step that also gives a name.
record KeepsNamed (o : Option (Text × World)) : Type 0 where
  pub at : (t : Text) (v : World) → o ≡ some (t, v) → IsCountedWorld v

KeepsNamed-some : (t : Text) (w : World) → IsCountedWorld w → KeepsNamed (some (t, w))
KeepsNamed-some t w c = record { at = λ u v e. ground (arith, c) }

KeepsNamed-bind {ℓ} :
    {A : Type ℓ} (o : Option A) (k : A → Option (Text × World))
    → ((a : A) → KeepsNamed (k a))
    → KeepsNamed (o >>= k)
KeepsNamed-bind none k a = record { at = λ u v e. absurd (ground arith) }
KeepsNamed-bind (some y) k a = a y

KeepsNamed-if :
    (b : Bool) (x y : Option (Text × World))
    → KeepsNamed x
    → KeepsNamed y
    → KeepsNamed (if b then x else y)
KeepsNamed-if true x y a b = a
KeepsNamed-if false x y a b = b

shorten-counted :
    (lion : Lion) (w : World) (st : Store) → IsCountedWorld w → KeepsNamed (shorten lion w st)
unfolding shorten
shorten-counted lion w st c = KeepsNamed-some _ _ (search counted_like)

next_mkdname-counted :
    (lion : Lion) (w : World) (dir : Text) → IsCountedWorld w → KeepsNamed (next_mkdname lion w dir)
unfolding next_mkdname
next_mkdname-counted lion w dir c =
    KeepsNamed-if (leb w.queue.mkd_depth 1) _ _ (KeepsNamed-some _ _ (search counted_like))
      (KeepsNamed-bind (refill w.store dir) _ (λ st. shorten-counted lion w st c))

pub mkdname_decrease-counted :
    (lion : Lion) (w v : World) (t : Text)
    → mkdname_decrease lion w ≡ some (t, v)
    → IsCountedWorld w
    → IsCountedWorld v
unfolding mkdname_decrease
mkdname_decrease-counted lion w v t e c =
    (KeepsNamed-bind (dst_dirname w) _ (λ dir. next_mkdname-counted lion w dir c)).at t v e
