-- ===== src/Protocol/Adding.antt =====
-- engine/command2.c: command2_cmd_qadd. The item that a request describes is built first; a request
-- without a side is refused, and so is a FID that is not among the files of the source's session.
use fxp_one.Prelude.{
  ℕ, Bool, true, false, not, ◌&&◌, ◌||◌, List, [], ◌∷◌, Option, none, some, Text, codes, atoi,
  strtoull, ◌==◌, if◌then◌else◌,
}
use fxp_one.Lion.{Lion}
use fxp_one.Site.{findkey, is_yes}
use fxp_one.File.{File, file_dupe, file_makepath, file_makedest}
use fxp_one.File.Listing.{session_getfid}
use fxp_one.Queue.Types.{Qitem, blank_item, Queue, type_file, type_directory, is_stop, is_idle}
use fxp_one.Queue.Insert.{queue_insert, queue_str2type}
use fxp_one.Engine.World.{Manager, answered}
use fxp_one.Engine.Managers.Registry.{manager_find_fromsid}
use fxp_one.Protocol.State.{
  Daemon, Keys, say, answer, managers, set_queue_of, put_queue, with_qid, with_key,
}

-- A value that is set and not empty.
abbrev pub nonempty : Option Text → Option Text
nonempty none = none
nonempty (some []) = none
nonempty (some (c ∷ cs)) = some (c ∷ cs)

abbrev pub value_of : Keys → Text → Option Text
value_of keys key = nonempty (findkey keys key)

abbrev has : Keys → Text → Bool
has keys key = elim (findkey keys key) [ none ↦ false | some t ↦ true ]

abbrev number_or : ℕ → Option Text → ℕ
number_or old none = old
number_or old (some t) = strtoull t

pwd_of : Option Manager → Option Text
pwd_of none = none
pwd_of (some m) = elim m.session [ none ↦ none | some s ↦ s.pwd ]

files_of : Option Manager → List File
files_of none = []
files_of (some m) = elim m.session [ none ↦ [] | some s ↦ s.files ]

module _ (lion : Lion) where
  open lion use {same_text}

  -- SRC=NORTH or SOUTH
  read_side : Text → Option Bool
  read_side src =
      if same_text (codes "NORTH") src
      then some true
      else if same_text (codes "SOUTH") src
      then some false
      else none

  -- NAME and PATH of one side; either makes the path that was there out of date.
  unfoldable pub name_file : Option Text → Option Text → File → File
  name_file name path f =
      let named : File = elim name [
        | none ↦ f
        | some n ↦ record f { name = some (lion.url_decode n); fullpath = none }
      ] in
      elim path [ none ↦ named | some p ↦ record named { fullpath = some (lion.url_decode p) } ]

  sized : Option Text → Option Text → File → File
  sized size rest f = record f { size = number_or f.size size; rest = number_or f.rest rest }

  -- What the FID gives; the fid is kept as well.
  unfoldable pub take_file : File → Qitem → Qitem
  unfolding file_dupe
  take_file f x = record x {
    src = record (file_dupe x.src f) { fid = f.fid };
    type = if is_yes f.directory then type_directory else type_file;
  }

  abbrev with_type : Keys → Qitem → Qitem
  with_type keys x = elim (value_of keys (codes "QTYPE")) [
    | none ↦ x
    | some t ↦ record x { type = queue_str2type lion (some t) }
  ]

  unfoldable pub with_source : Keys → Option Text → Qitem → Qitem
  unfolding name_file sized
  with_source keys pwd x = record x {
    src =
        file_makepath lion
          (sized (value_of keys (codes "SRCSIZE")) (value_of keys (codes "SRCREST"))
            (name_file (value_of keys (codes "SRCNAME")) (value_of keys (codes "SRCPATH")) x.src))
          pwd;
  }

  unfoldable pub with_destination : Keys → Option Text → Qitem → Qitem
  unfolding name_file sized
  with_destination keys pwd x = record x {
    dst =
        file_makedest lion
          (sized (value_of keys (codes "DSTSIZE")) (value_of keys (codes "DSTREST"))
            (name_file (value_of keys (codes "DSTNAME")) (value_of keys (codes "DSTPATH")) x.dst))
          x.src pwd;
  }

  with_flags : Keys → Qitem → Qitem
  with_flags keys x = record x {
    flag_resume = has keys (codes "RESUME") || x.flag_resume;
    flag_overwrite =
        (not (has keys (codes "RESUME")) && has keys (codes "OVERWRITE")) || x.flag_overwrite;
  }

  -- The item, without the STOP that is inserted as it is.
  unfoldable pub build_item : Keys → Option Text → Option Text → Qitem → Qitem
  unfolding with_source with_destination with_flags
  build_item keys src_pwd dst_pwd x =
      with_flags keys (with_destination keys dst_pwd (with_source keys src_pwd x))

  -- A place that is no number above 0 becomes "1" while the queue runs; without a place it is the last.
  unfoldable pub add_target : Queue → Option Text → Text
  add_target q none = codes "LAST"
  add_target q (some at) = if not (is_idle q.state) && atoi at == 0 then codes "1" else at

  -- The place is not looked at for a STOP.
  unfoldable pub add_item : Keys → Option Text → Option Text → Qitem → Queue → Queue × ℕ
  unfolding build_item add_target queue_insert
  add_item keys src_pwd dst_pwd x q =
      if is_stop x.type
      then queue_insert lion q x (findkey keys (codes "@"))
      else queue_insert lion q (build_item keys src_pwd dst_pwd x)
          (some (add_target q (findkey keys (codes "@"))))

  module _ (user : ℕ) where
    unfoldable pub added : Queue × ℕ → Daemon → Option Daemon
    unfolding say put_queue
    added (q, n) d =
        some (say user (answered (codes "QADD") 0 (q.id ∷ q.num_items ∷ n ∷ [])) (set_queue_of q d))

    -- The managers at the source and at the destination.
    abbrev source_of : Bool → Queue → Daemon → Option Manager
    source_of is_north q d =
        manager_find_fromsid (managers d) (if is_north then q.north_mgr else q.south_mgr)

    abbrev destination_of : Bool → Queue → Daemon → Option Manager
    destination_of is_north q d =
        manager_find_fromsid (managers d) (if is_north then q.south_mgr else q.north_mgr)

    unfoldable pub add_typed : Keys → Bool → Queue → Qitem → Daemon → Option Daemon
    unfolding added add_item pwd_of
    add_typed keys is_north q x d =
        added
          (add_item keys (pwd_of (source_of is_north q d)) (pwd_of (destination_of is_north q d))
            (with_type keys x) q)
          d

    unfoldable pub add_from : Keys → Bool → Queue → Daemon → Option Daemon
    unfolding add_typed take_file files_of
    add_from keys is_north q d =
        let x : Qitem = record blank_item { src_is_north = is_north } in
        elim (value_of keys (codes "FID")) [
          | none ↦ add_typed keys is_north q x d
          | some fid ↦ elim (session_getfid (files_of (source_of is_north q d)) (atoi fid)) [
            | none ↦ answer user (codes "QADD") 1515 d
            | some f ↦ add_typed keys is_north q (take_file f x) d
          ]
        ]

    names_item : Keys → Bool
    names_item keys =
        has keys (codes "FID")
        || (has keys (codes "SRCNAME") || (has keys (codes "SRCPATH") || has keys (codes "QTYPE")))

    unfoldable pub command2_cmd_qadd : Keys → Daemon → Option Daemon
    unfolding names_item add_from read_side with_qid
    command2_cmd_qadd keys d =
        with_key user (codes "QADD") 1501 (findkey keys (codes "QID")) d λ qid.
          with_key user (codes "QADD") 1501 (findkey keys (codes "SRC")) d λ src.
            with_qid user (codes "QADD") keys d λ q.
              if not (names_item keys)
              then answer user (codes "QADD") 1501 d
              else elim (read_side src) [
                | none ↦ answer user (codes "QADD") 1513 d
                | some is_north ↦ add_from keys is_north q d
              ]
