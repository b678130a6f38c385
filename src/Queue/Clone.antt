-- ===== src/Queue/Clone.antt =====
-- engine/queue.c: queue_dupeitem and the loop of queue_clone.
use fxp_one.Prelude.{List, [], ◌∷◌}
use fxp_one.File.{blank_file, file_dupe}
use fxp_one.Queue.Types.{Qitem, blank_item, Queue, at_last}
use fxp_one.Queue.Insert.{insert_item}

unfoldable pub queue_dupeitem : Qitem → Qitem
unfolding blank_item file_dupe
queue_dupeitem x = record blank_item {
  type = x.type;
  src = file_dupe blank_file x.src;
  dst = file_dupe blank_file x.dst;
  src_is_north = x.src_is_north;
  weight = x.weight;
  flag_resume = x.flag_resume;
  flag_overwrite = x.flag_overwrite;
  flag_requeued = x.flag_requeued;
}

-- The loop of queue_clone that fills the new queue.
unfoldable pub clone_items : Queue → List Qitem → Queue
unfolding insert_item queue_dupeitem
clone_items q [] = q
clone_items q (x ∷ xs) = clone_items (insert_item q (queue_dupeitem x) at_last).0 xs
