-- ===== src/Engine/Process/Directory.antt =====
-- engine/queue.c, queue_process: an item that is a directory is listed and replaced by what it holds.
use fxp_one.Prelude.{
  Bool, true, false, not, ◌&&◌, ◌||◌, List, [], ◌∷◌, Option, none, some, codes, is_neg, ◌==◌,
  if◌then◌else◌, ◌>>=◌,
}
use fxp_one.Lion.{Lion}
use fxp_one.Site.{is_no, site_get_listargs}
use fxp_one.File.{File}
use fxp_one.Queue.Types.{
  Side, north, south, queue_start, queue_item_failed, directory_phase_1_idle,
  directory_phase_2_start, directory_phase_2_mkd, directory_phase_2_compare, Qitem,
}
use fxp_one.Session.Events.{
  Event, dir_1_src_cwd, dir_1_dst_cwd, dir_2_src_dirlist, dir_2_dst_dirlist, dir_2_dst_mkd,
}
use fxp_one.Session.{no_flags, Session}
use fxp_one.Engine.World.{
  World, Call, manager, set_manager, set_queue, set_state, hurry, notify, on_head, when_idle,
  at_item, at_src, at_dst, at_session,
}
use fxp_one.Engine.Commands.{session_cmdq_newf, session_cwd, session_dirlist}
use fxp_one.Engine.World.{qs_start_directory, qc_remove, qs_refresh}
use fxp_one.Engine.Process.Prepare.{printed}
use fxp_one.Queue.Insert.{queue_poptop}
use fxp_one.Queue.Skiplist.{queue_skiplist}
use fxp_one.Queue.Think.{queue_directory_think}

abbrev pub is_north : Side → Bool
is_north north = true
is_north south = false

-- Both paths are set.
abbrev pub tell_paths : Qitem → World → World
tell_paths x w = elim x.src.fullpath [
  | none ↦ w
  | some s ↦ elim x.dst.fullpath [
    | none ↦ w
    | some d ↦ notify (qs_start_directory (some s) (some d)) w
  ]
]

module _ (lion : Lion) (call : Call) where
  unfoldable pub process_directory_start : World → Option World
  process_directory_start w = when_idle w (
      at_src w λ src. at_dst w λ dst. do
        w ←
            on_head (λ x. record x { src_failure = 0; dst_failure = 0 })
              (set_state directory_phase_1_idle w)
        at_item w λ x. do
          w ← session_cwd call src no_flags (some dir_1_src_cwd) x.src.fullpath (tell_paths x w)
          at_item w λ y. session_cwd call dst no_flags (some dir_1_dst_cwd) y.dst.fullpath w)

  -- The debug line reads the state of both sessions.
  unfoldable pub process_directory_phase_1_idle : World → Option World
  process_directory_phase_1_idle w = at_src w λ src. at_dst w λ dst. at_session src w λ s.
      at_session dst w λ d. when_idle w (
        at_item w λ x. some (
          hurry (
            set_state
              (if not (x.src_failure == 0) then queue_item_failed else directory_phase_2_start) w)))

  unfoldable pub list_side : Side → Event → World → Option World
  list_side side id w =
      at_session side w λ s. session_dirlist call lion side (site_get_listargs s.site) no_flags id w

  -- Where the destination directory is missing its listing counts as done, and empty.
  unfoldable pub list_dst : Side → World → Option World
  unfolding list_side
  list_dst dst w = at_item w λ x.
      if x.dst_failure == 0
      then (on_head (λ y. record y { dst_transfer = 0 }) w >>= list_side dst dir_2_dst_dirlist)
      else on_head (λ y. record y { dst_transfer = 2; dst_failure = 0 }) w

  unfoldable pub process_directory_phase_2_start : World → Option World
  unfolding list_side list_dst
  process_directory_phase_2_start w = when_idle w (
      at_src w λ src. at_dst w λ dst. do
        w ← on_head (λ x. record x { src_transfer = 0 }) (set_state directory_phase_2_mkd w)
        w ← list_side src dir_2_src_dirlist w
        list_dst dst w)

  abbrev no_files : List File → Bool
  no_files [] = true
  no_files (f ∷ fs) = false

  unfoldable pub process_directory_phase_2_mkd : World → Option World
  process_directory_phase_2_mkd w = when_idle w (
      at_item w λ x. at_src w λ src. at_dst w λ dst. at_session src w λ s.
        let w' = set_state directory_phase_2_compare w in
        if is_no (manager dst w).site.directory_skipempty
          && (not (x.src_transfer == 0) && (x.dst_transfer == 2 && no_files s.files))
        then session_cmdq_newf call dst no_flags dir_2_dst_mkd (codes "MKD ")
            (printed x.dst.fullpath) w'
        else some w')

  unfoldable pub refresh : List File → World → World
  refresh [] w = w
  refresh (f ∷ fs) w = notify qs_refresh w

  -- The directory is dropped and what its listing gives is queued; is_dmovefirst is set for it.
  unfoldable pub expand : Side → Side → Qitem → Session → Session → World → World
  unfolding refresh
  expand src dst x s d w =
      let m = manager dst w in
      let first = if is_neg (queue_skiplist lion m.site x.src) then true else m.is_dmovefirst in
      let q =
        queue_directory_think lion m.site first d.files x.dst.fullpath (is_north src)
          (queue_poptop w.queue) s.files in
      hurry (
        set_state queue_start (
          set_manager dst (record m { is_dmovefirst = false })
            (refresh s.files (set_queue q (notify qc_remove w)))))

  unfoldable pub process_directory_phase_2_compare : World → Option World
  unfolding expand
  process_directory_phase_2_compare w = at_src w λ src. at_dst w λ dst. at_session src w λ s.
      at_session dst w λ d. when_idle w (
        at_item w λ x.
          if x.src_transfer == 0 || x.dst_transfer == 0
          then some w
          else some (expand src dst x s d w))
