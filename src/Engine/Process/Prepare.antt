-- ===== src/Engine/Process/Prepare.antt =====
-- engine/queue.c, queue_process: phases four to nine, up to the point where both sides know each
-- other and where to start.
use fxp_one.Prelude.{
  Bool, true, false, not, ◌&&◌, ◌||◌, ◌++◌, Option, none, some, Text, codes, ltb, ◌==◌,
  if◌then◌else◌, ◌>>=◌,
}
use fxp_one.Lion.{Lion}
use fxp_one.Site.{Site, is_yes, is_no, is_auto, is_local}
use fxp_one.Queue.Types.{
  Side, north, south, QueueState, queue_idle, queue_item_failed, queue_requeue_item,
  queue_remove_item, phase_5_start, phase_5_rest_wait, phase_6_start, phase_7_start, phase_7_wait,
  phase_8_start, phase_8_wait, phase_9_start, phase_9_rest, phase_10_start, Qitem,
}
use fxp_one.Session.Events.{
  phase_4_type, phase_5_src_size, phase_5_dst_size, phase_6_pret, phase_7_pasv, phase_8_port,
  phase_9_src_rest, phase_9_dst_rest, phase_9_src_rest2, phase_9_dst_rest2,
}
use fxp_one.Session.{no_flags, session_feat}
use fxp_one.Engine.World.{
  World, Call, manager, session, set_queue, set_state, hurry, notify, on_head, when_idle, at_item,
  at_src, at_dst, has_failed,
}
use fxp_one.Engine.Commands.{
  session_cmdq_new, session_cmdq_newf, session_type, session_size, session_rest, crlf,
}
use fxp_one.Engine.World.{qs_equalsize}

-- A text that is printed by %s, and NULL.
unfoldable pub printed : Option Text → Text
printed none = codes "(null)"
printed (some t) = t

-- What QUEUE_FILE_PHASE_5_REST_WAIT does with an item when the destination's site re-queues resumes or
-- not: the state that follows, and the item.
unfoldable pub decide_resume : Bool → Qitem → QueueState × Qitem
decide_resume last x =
    if not (x.src.rest == 0) || not (x.dst.rest == 0)
    then (phase_6_start, x)
    else if not (x.dst.size == 0) && ltb x.dst.size x.src.size
    then (if last && not x.flag_requeued
        then (queue_requeue_item, record x { flag_requeued = true })
        else (
          phase_6_start,
          record x {
            src = record x.src { rest = x.dst.size };
            dst = record x.dst { rest = x.dst.size };
          },
        ))
    else if not (x.dst.size == 0) && x.src.size == x.dst.size
    then (queue_remove_item, x)
    else (phase_6_start, x)

abbrev pub is_remove : QueueState → Bool
is_remove queue_remove_item = true
is_remove _ = false

module _ (lion : Lion) (call : Call) where
  unfoldable pub process_phase_4_start : World → Option World
  process_phase_4_start w = when_idle w (do
    w ← session_type call north no_flags (some phase_4_type) true (set_state phase_5_start w)
    session_type call south no_flags (some phase_4_type) true w)

  unfoldable pub dst_size : Side → World → Option World
  dst_size dst w = at_item w λ x.
      if not x.flag_overwrite && not (is_no (manager dst w).site.resume)
      then session_size call dst no_flags phase_5_dst_size (printed x.dst.name)
          (set_state phase_5_rest_wait w)
      else some w

  unfoldable pub process_phase_5_start : World → Option World
  unfolding dst_size
  process_phase_5_start w = when_idle w (
      at_item w λ x. at_src w λ src. at_dst w λ dst. do
        w ←
            session_size call src no_flags phase_5_src_size (printed x.src.name)
              (set_state phase_6_start w)
        dst_size dst w)

  unfoldable pub resume_with : QueueState × Qitem → World → Option World
  resume_with (st, x) w = do
    w ← on_head (λ y. x) (set_state st w)
    some (hurry (if is_remove st then notify qs_equalsize w else w))

  unfoldable pub process_phase_5_rest_wait : World → Option World
  unfolding resume_with
  process_phase_5_rest_wait w = when_idle w (
      at_item w λ x.
        at_dst w λ dst. resume_with (decide_resume (is_yes (manager dst w).site.resume_last) x) w)

  pret : Side → Text → Text → World → Option World
  pret side word path w =
      let site = (manager side w).site in
      if is_yes site.pret || is_auto site.pret && (session_feat (session side w)).has_pret
      then session_cmdq_newf call side no_flags phase_6_pret word path w
      else some w

  unfoldable pub process_phase_6_start : World → Option World
  unfolding pret
  process_phase_6_start w = when_idle w (
      at_item w λ x. at_src w λ src. at_dst w λ dst. do
        w ← pret src (codes "PRET RETR ") (printed x.src.fullpath) (set_state phase_7_start w)
        w ← pret dst (codes "PRET STOR ") (printed x.dst.fullpath) w
        some (hurry w))

  -- The source listens, unless it cannot or the destination can do nothing else.
  unfoldable pub src_listens : Site → Site → Bool
  src_listens src dst = not (is_no src.fxp_passive || is_yes dst.fxp_passive)

  send_pasv : Side → Side → World → Option World
  send_pasv side other w =
      if is_local lion (manager side w).site
      then session_cmdq_newf call side no_flags phase_7_pasv (codes "PASV ")
          (lion.own_address (manager other w).site.host) w
      else session_cmdq_new call side no_flags phase_7_pasv (codes "PASV" ++ crlf) w

  ask_pasv : Side → Side → World → Option World
  unfolding src_listens send_pasv
  ask_pasv src dst w =
      let listens = src_listens (manager src w).site (manager dst w).site in
      let w' = set_queue (record w.queue { state = phase_7_wait; srcpasv = listens }) w in
      if listens then send_pasv src dst w' else send_pasv dst src w'

  unfoldable pub process_phase_7_start : World → Option World
  unfolding ask_pasv
  process_phase_7_start w = when_idle w (
      if w.queue.stop
      then some (set_state queue_idle w)
      else at_src w λ src. at_dst w λ dst. ask_pasv src dst w)

  unfoldable pub process_phase_7_wait : World → Option World
  process_phase_7_wait w = when_idle w (
      at_item w
        λ x. some (hurry (set_state (if has_failed x then queue_item_failed else phase_8_start) w)))

  -- The side that does not listen is told where to connect; the line is used once.
  unfoldable pub process_phase_8_start : World → Option World
  process_phase_8_start w = when_idle w (
      at_src w λ src. at_dst w λ dst. do
        let side = if w.queue.srcpasv then dst else src
        w ←
            session_cmdq_newf call side no_flags phase_8_port (codes "PORT ")
              (printed w.queue.pasv_line) (set_state phase_8_wait w)
        some (set_queue (record w.queue { pasv_line = none }) w))

  unfoldable pub process_phase_8_wait : World → Option World
  process_phase_8_wait w = when_idle w (
      at_item w
        λ x. some (hurry (set_state (if has_failed x then queue_item_failed else phase_9_start) w)))

  -- When the sessions are not idle the code falls through to the next state, which then waits too.
  unfoldable pub process_phase_9_start : World → Option World
  process_phase_9_start w = when_idle w (
      at_item w λ x. at_src w λ src. at_dst w λ dst. do
        w ←
            session_rest call src no_flags (some phase_9_src_rest) x.src.rest
              (set_state phase_9_rest w)
        at_item w λ y. session_rest call dst no_flags (some phase_9_dst_rest) y.dst.rest w)

  clear_rest : Side → Side → World → Option World
  clear_rest src dst w = do
    w ← session_rest call src no_flags (some phase_9_src_rest2) 0 w
    session_rest call dst no_flags (some phase_9_dst_rest2) 0 w

  unfoldable pub process_phase_9_rest : World → Option World
  unfolding clear_rest
  process_phase_9_rest w = when_idle w (
      at_item w λ x.
        let w' = set_state phase_10_start w in
        if not (has_failed x)
        then some (hurry w')
        else at_src w λ src. at_dst w λ dst. clear_rest src dst w')
