-- ===== src/Engine/Resuming.antt =====
-- What a transfer does with a destination that already has a part of the file.
use fxp_one.Prelude.{◌<◌, ◌≤◌, Bool, true, false, ◌≡◌, ◌↔◌, arith}
use fxp_one.Queue.Types.{queue_requeue_item, queue_remove_item, phase_6_start, Qitem}
use fxp_one.Engine.Process.{decide_resume}

-- For an item with no offset yet, all that is decided: it counts as done exactly if both sizes are the
-- same and not 0; it is put back exactly if the destination has a part of the file, not 0 bytes and
-- shorter than the source, and its site resumes last, and the item has not been put back before; it
-- resumes, with an offset above 0, exactly if it goes on with such a part. The offsets of both sides are
-- the same, and either 0 or the size of the destination, so that none is past the end of a file. An item
-- that was put back resumes when it is decided again, whatever the site says then.
pub decide_resume-offsets :
    (last : Bool) (x : Qitem)
    → x.src.rest ≡ 0
    → x.dst.rest ≡ 0
    → let (st, y) = decide_resume last x in
      (st ≡ queue_remove_item ↔ (0 < x.dst.size) × (x.src.size ≡ x.dst.size))
      × (st ≡ queue_requeue_item
          ↔ (0 < x.dst.size)
            × (x.dst.size < x.src.size)
            × (last ≡ true)
            × (x.flag_requeued ≡ false))
      × (0 < y.src.rest ↔ (st ≡ phase_6_start) × (0 < x.dst.size) × (x.dst.size < x.src.size))
      × (y.src.rest ≡ y.dst.rest)
      × (0 < y.src.rest → y.src.rest ≡ x.dst.size)
      × (y.src.rest ≤ x.dst.size)
      × (y.src.rest ≤ x.src.size)
      × (st ≡ queue_requeue_item
          → (again : Bool)
          → let (st', z) = decide_resume again y in
            (st' ≡ phase_6_start) × (z.src.rest ≡ x.dst.size) × (z.dst.rest ≡ x.dst.size))
unfolding decide_resume
decide_resume-offsets last x s d = (
  (λ h. (ground arith, ground arith), λ (a, b). ground arith),
  (λ h. (ground arith, ground arith, ground arith, ground arith), λ (a, b, c, e). ground arith),
  (λ h. (ground arith, ground arith, ground arith), λ (a, b, c). ground arith),
  ground arith,
  λ h. ground arith,
  ground arith,
  ground arith,
  λ h again. (ground arith, ground arith, ground arith),
)
