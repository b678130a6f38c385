-- ===== src/Queue/Errors.antt =====
-- engine/queue.c: queue_adderr_src and queue_adderr_dst.
use fxp_one.Prelude.{◌+◌, List, [], ◌∷◌, Text, u32, ◌++◌}
use fxp_one.Queue.Types.{Qitem}

-- `line && *line` and the reason kept, with the count of failures.
add_reason : Text → List Text → List Text
add_reason [] rs = rs
add_reason (c ∷ cs) rs = rs ++ (c ∷ cs) ∷ []

unfoldable pub queue_adderr_src : Qitem → Text → Qitem
unfolding add_reason
queue_adderr_src x line = record x {
  src_failure = u32 (x.src_failure + 1);
  src_reasons = add_reason line x.src_reasons;
}

unfoldable pub queue_adderr_dst : Qitem → Text → Qitem
unfolding add_reason
queue_adderr_dst x line = record x {
  dst_failure = u32 (x.dst_failure + 1);
  dst_reasons = add_reason line x.dst_reasons;
}
