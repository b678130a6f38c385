-- ===== src/Engine/Handlers/Phases.antt =====
-- engine/handler.c: the replies that handler_queue takes, by the phase of the transfer.
use fxp_one.Prelude.{
  ℕ, ◌+◌, Bool, true, false, not, ◌&&◌, ◌||◌, [], ◌∷◌, Option, none, some, Text, codes, ℤ, pos,
  negsuc, u32, ◌==◌, if◌then◌else◌, ◌>>=◌, contains, case_starts_with, drop,
}
use fxp_one.Lion.{Lion}
use fxp_one.Queue.Types.{Side, Qitem}
use fxp_one.Queue.Requests.{queue_xdupe_item}
use fxp_one.Session.Events.{
  Event, phase_1_src_cwd, phase_1_dst_cwd, phase_1_dst_mkd, phase_1_dst_cwd2, phase_2_src_secure,
  phase_2_dst_secure, phase_3_src_prot, phase_3_dst_prot, phase_5_src_size, phase_5_dst_size,
  phase_7_pasv, phase_8_port, phase_9_src_rest, phase_9_dst_rest, phase_10_stor, phase_11_retr,
  phase_12_src_226, phase_12_dst_226, dir_1_src_cwd, dir_1_dst_cwd, dir_2_src_dirlist,
  dir_2_dst_dirlist, dir_2_dst_mkd,
}
use fxp_one.Session.{no_flags}
use fxp_one.Engine.World.{
  World, Call, Notice, qs_srccwd, qs_dstcwd, qs_mkd, session, set_queue, head_item, on_head, notify,
}
use fxp_one.Engine.Commands.{session_cmdq_newf, session_cwd}
use fxp_one.Engine.Handlers.Mkd.{mkdname_decrease, mkdname_same}
use fxp_one.Engine.Handlers.Replies.{
  is_2xx, is_failure, is_reply, scan_size, up_to_close, behind_open, fail_src, fail_dst,
}

-- The subscribers hear of a change of directory unless it was answered from the cache.
unfoldable pub tell_cwd : Text → (Qitem → Notice) → World → Option World
tell_cwd line n w = if contains (codes "cached") line then some w else elim w.queue.users [
  | [] ↦ some w
  | u ∷ us ↦ elim (head_item w.queue.items) [ none ↦ none | some x ↦ some (notify (n x) w) ]
]

unfoldable pub src_cwd : (Qitem → Notice) → ℤ → Text → World → Option World
unfolding tell_cwd
src_cwd n reply line w = if is_2xx reply then tell_cwd line n w else fail_src line w

abbrev pub set_sizes : Bool → ℕ → Qitem → Qitem
set_sizes true n x = record x { src = record x.src { size = n } }
set_sizes false n x = record x { dst = record x.dst { size = n } }

unfoldable pub got_size : Bool → ℤ → Text → World → Option World
got_size is_src reply line w =
    if is_reply reply 213
    then elim (scan_size line) [ none ↦ some w | some n ↦ on_head (set_sizes is_src n) w ]
    else some w

-- The side that was sent PASV, or PORT, has failed.
unfoldable pub fail_side : Bool → Text → World → Option World
fail_side true line w = fail_src line w
fail_side false line w = fail_dst line w

-- The line is read from behind the '(' on, also as the reason of a failure.
unfoldable pub got_address : Text → World → Option World
unfolding fail_side
got_address t w = elim (up_to_close t) [
  | some address ↦ some (set_queue (record w.queue { pasv_line = some address }) w)
  | none ↦ fail_side w.queue.srcpasv t w
]

unfoldable pub got_pasv : ℤ → Text → World → Option World
unfolding got_address
got_pasv reply line w =
    if is_reply reply 227
    then elim (behind_open line) [
      | none ↦ fail_side w.queue.srcpasv line w
      | some t ↦ got_address t w
    ]
    else fail_side w.queue.srcpasv line w

unfoldable pub secured : Bool → ℤ → Text → World → Option World
unfolding fail_side
secured is_src reply line w =
    if is_2xx reply
    then some (set_queue (record w.queue { secure_data = true }) w)
    else fail_side is_src line w

unfoldable pub unless_code : ℕ → Bool → ℤ → Text → World → Option World
unfolding fail_side
unless_code code is_src reply line w =
    if is_reply reply code then some w else fail_side is_src line w

unfoldable pub unless_2xx : Bool → ℤ → Text → World → Option World
unfolding fail_side
unless_2xx is_src reply line w = if is_2xx reply then some w else fail_side is_src line w

-- The counters of the transfer: 1 is started, 2 is finished. STOR and RETR each count the other side.
count_src : Qitem → Qitem
count_src x = record x { src_transfer = u32 (x.src_transfer + 1) }

count_dst : Qitem → Qitem
count_dst x = record x { dst_transfer = u32 (x.dst_transfer + 1) }

-- Without an item nothing is counted.
unfoldable pub count_if_any : (Qitem → Qitem) → World → World
count_if_any f w = elim (on_head f w) [ none ↦ w | some w' ↦ w' ]

started : ℤ → Bool
started reply = is_reply reply 150 || is_reply reply 125

-- A line before the last of STOR's reply.
unfoldable pub look_for_xdupe : Lion → Side → Text → World → World
look_for_xdupe lion side line w = elim (session side w) [
  | none ↦ w
  | some s ↦
      if s.status.on_xdupe && case_starts_with (codes "226-+X-DUPE%3A+") line
      then set_queue (queue_xdupe_item lion w.queue (drop 15 line)) w
      else w
]

unfoldable pub got_stor : Lion → ℤ → Text → Side → World → Option World
unfolding look_for_xdupe started count_src
got_stor lion (negsuc n) line side w = some (look_for_xdupe lion side line w)
got_stor lion (pos r) line side w = if started (pos r) then on_head count_src w else fail_dst line w

unfoldable pub got_retr : ℤ → Text → World → Option World
unfolding started count_dst
got_retr reply line w = if started reply then on_head count_dst w else fail_src line w

unfoldable pub dir_dst_cwd : ℤ → Text → World → Option World
unfolding tell_cwd
dir_dst_cwd reply line w =
    if is_2xx reply
    then tell_cwd line (λ x. qs_dstcwd x.dst.fullpath)
        (set_queue (record w.queue { mkd_depth = 0 }) w)
    else do
      w ← fail_dst line w
      some (set_queue (record w.queue { mkd_depth = u32 (w.queue.mkd_depth + 1) }) w)

-- MKD went well: the subscribers hear of it and the destination's failures are cleared.
unfoldable pub made_dir : World → Option World
made_dir w = elim w.queue.users [
  | [] ↦ on_head (λ x. record x { dst_failure = 0 }) w
  | u ∷ us ↦ do
    name ← mkdname_same w
    on_head (λ x. record x { dst_failure = 0 }) (notify (qs_mkd name) w)
]

unfoldable pub made_dir_or_fail : (World → Option World) → ℤ → Text → World → Option World
unfolding made_dir
made_dir_or_fail next reply line w =
    if is_2xx reply
    then (made_dir w >>= next)
    else if is_failure reply
    then fail_dst line w
    else some w

module _ (lion : Lion) (call : Call) where
  unfoldable pub send_mkd : Side → World → Option World
  send_mkd side w = do
    (name, w') ← mkdname_decrease lion w
    session_cmdq_newf call side no_flags phase_1_dst_mkd (codes "MKD ") name w'

  unfoldable pub cwd_again : Side → World → Option World
  cwd_again side w = session_cwd call side no_flags (some phase_1_dst_cwd2) (mkdname_same w) w

  -- A failure is counted, and making the directory is tried.
  unfoldable pub dst_cwd : ℤ → Text → Side → World → Option World
  unfolding tell_cwd send_mkd
  dst_cwd reply line side w =
      if is_2xx reply
      then tell_cwd line (λ x. qs_dstcwd x.dst.dirname) w
      else if is_failure reply
      then (fail_dst line w >>= send_mkd side)
      else some w

  unfoldable pub dst_cwd2 : ℤ → Text → Side → World → Option World
  unfolding send_mkd
  dst_cwd2 reply line side w =
      if is_2xx reply
      then (if w.queue.mkd_depth == 0 then some w else send_mkd side w)
      else if is_failure reply
      then fail_dst line w
      else some w

  unfoldable pub on_queue_cmd : Event → ℤ → Text → Side → World → Option World
  unfolding src_cwd dst_cwd dst_cwd2 cwd_again secured unless_2xx got_size got_pasv unless_code
      got_stor got_retr count_if_any count_src count_dst dir_dst_cwd made_dir_or_fail
  on_queue_cmd phase_1_src_cwd reply line side w =
      src_cwd (λ x. qs_srccwd x.src.dirname) reply line w
  on_queue_cmd phase_1_dst_cwd reply line side w = dst_cwd reply line side w
  on_queue_cmd phase_1_dst_mkd reply line side w = made_dir_or_fail (cwd_again side) reply line w
  on_queue_cmd phase_1_dst_cwd2 reply line side w = dst_cwd2 reply line side w
  on_queue_cmd phase_2_src_secure reply line side w = secured true reply line w
  on_queue_cmd phase_2_dst_secure reply line side w = secured false reply line w
  on_queue_cmd phase_3_src_prot reply line side w = unless_2xx true reply line w
  on_queue_cmd phase_3_dst_prot reply line side w = unless_2xx false reply line w
  on_queue_cmd phase_5_src_size reply line side w = got_size true reply line w
  on_queue_cmd phase_5_dst_size reply line side w = got_size false reply line w
  on_queue_cmd phase_7_pasv reply line side w = got_pasv reply line w
  on_queue_cmd phase_8_port reply line side w = unless_code 200 (not w.queue.srcpasv) reply line w
  on_queue_cmd phase_9_src_rest reply line side w = unless_code 350 true reply line w
  on_queue_cmd phase_9_dst_rest reply line side w = unless_code 350 false reply line w
  on_queue_cmd phase_10_stor reply line side w = got_stor lion reply line side w
  on_queue_cmd phase_11_retr reply line side w = got_retr reply line w
  on_queue_cmd phase_12_src_226 reply line side w =
      unless_code 226 true reply line (count_if_any count_src w)
  on_queue_cmd phase_12_dst_226 reply line side w =
      unless_code 226 false reply line (count_if_any count_dst w)
  on_queue_cmd dir_1_src_cwd reply line side w =
      src_cwd (λ x. qs_srccwd x.src.fullpath) reply line w
  on_queue_cmd dir_1_dst_cwd reply line side w = dir_dst_cwd reply line w
  on_queue_cmd dir_2_src_dirlist reply line side w = on_head (λ x. record x { src_transfer = 1 }) w
  on_queue_cmd dir_2_dst_dirlist reply line side w = on_head (λ x. record x { dst_transfer = 1 }) w
  on_queue_cmd dir_2_dst_mkd reply line side w = made_dir_or_fail some reply line w
  on_queue_cmd _ reply line side w = some w
