-- ===== src/Engine/Handlers/Mkd.antt =====
-- engine/queue.c: get_mkdname_by_depth, which names the part of a path that MKD is to make.
use fxp_one.Prelude.{ℕ, zero, suc, ◌-◌, Option, none, some, Text, length, leb, if◌then◌else◌, ◌>>=◌}
use fxp_one.Lion.{Lion}
use fxp_one.File.{split_last_slash}
use fxp_one.Engine.World.{World, Store, head_item}

-- Cuts the path at its last '/', as often as told.
parent : Text → Text
unfolding split_last_slash
parent t = elim (split_last_slash t) [ none ↦ t | some (before, behind) ↦ before ]

unfoldable pub cut_dirs : ℕ → Text → Text
unfolding parent
cut_dirs zero t = t
cut_dirs (suc n) t = cut_dirs n (parent t)

-- The destination directory of the item in work.
unfoldable pub dst_dirname : World → Option Text
dst_dirname w = elim (head_item w.queue.items) [ none ↦ none | some x ↦ x.dst.dirname ]

-- SAFE_COPY makes the buffer as long as the text; strcpy into one that is too short is a fault.
unfoldable pub refill : Option Store → Text → Option Store
refill none t = some (record { room = length t; text = t })
refill (some st) t = if leb (length t) st.room then some (record st { text = t }) else none

abbrev store_depth : World → Option Store → ℕ → World
store_depth w st d = record w { store = st; queue = record w.queue { mkd_depth = d } }

module _ (lion : Lion) where
  unfoldable pub shorten : World → Store → Option (Text × World)
  unfolding cut_dirs
  shorten w st =
      let t = cut_dirs (w.queue.mkd_depth - 1) (lion.stripslash st.text) in
      some (t, store_depth w (some (record st { text = t })) (w.queue.mkd_depth - 1))

  unfoldable pub next_mkdname : World → Text → Option (Text × World)
  unfolding refill shorten
  next_mkdname w dir =
      if leb w.queue.mkd_depth 1
      then some (dir, store_depth w none 0)
      else (refill w.store dir >>= shorten w)

  -- decrease is 1
  unfoldable pub mkdname_decrease : World → Option (Text × World)
  unfolding next_mkdname
  mkdname_decrease w = dst_dirname w >>= next_mkdname w

-- decrease is 0
unfoldable pub mkdname_same : World → Option Text
mkdname_same w = elim w.store [ none ↦ dst_dirname w | some st ↦ some st.text ]
