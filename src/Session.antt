-- ===== src/Session.antt =====
-- engine/session.h, engine/session_states.h, engine/handler.h: a control session with its command
-- queue, and the events that it reports. The operations are in Engine.
pub mod Events
use fxp_one.Prelude.{
  ℕ, Bool, true, false, List, [], ◌∷◌, Option, none, some, Text, ◌+◌, if◌then◌else◌,
}
use fxp_one.Site.{Site}
use fxp_one.File.{File}
use Events.{SessionState, below_idle, Event}

-- The flags of a queued command.
pub record Flags : Type 0 where
  pub flag_log : Bool
  pub flag_internal : Bool
  pub flag_rawlist : Bool
  pub flag_cacheok : Bool
  pub flag_force : Bool

abbrev pub no_flags : Flags
no_flags = record {
  flag_log = false;
  flag_internal = false;
  flag_rawlist = false;
  flag_cacheok = false;
  flag_force = false;
}

-- flags | SESSION_CMDQ_FLAG_INTERNAL
abbrev pub internally : Flags → Flags
internally f = record f { flag_internal = true }

pub record Cmd : Type 0 where
  pub cmd : Text
  pub id : Event
  pub subid : Option Event
  pub flags : Flags

pub record Features : Type 0 where
  pub has_ssl : Bool
  pub has_sscn : Bool
  pub has_ccsn : Bool
  pub has_size : Bool
  pub has_pret : Bool
  pub has_xdupe : Bool

-- The word of the FEATURE_ bits.
unfoldable pub features_word : Features → ℕ
features_word f =
    (if f.has_ssl then 1 else 0)
    + (if f.has_sscn then 2 else 0)
    + (if f.has_ccsn then 4 else 0)
    + (if f.has_size then 8 else 0)
    + (if f.has_pret then 16 else 0)
    + (if f.has_xdupe then 32 else 0)

pub record Status : Type 0 where
  pub on_ssl : Bool
  pub on_binary : Bool
  pub on_sscn : Bool
  pub on_ccsn : Bool
  pub on_privacy : Bool
  pub on_size : Bool
  pub on_rest : Bool
  pub on_xdupe : Bool

-- The data connection: whether it is to be secured, and whether it is read from.
pub record Link : Type 0 where
  pub secured : Bool
  pub reading : Bool

-- Which function takes the session's events.
pub data Handler : Type 0 where
  handler_withuser handler_queue : Handler

-- `online` says that the handle is not NULL; `sent` is what went to the server, in order; `cmdq` has
-- `cmdq_size` commands.
pub record Session : Type 0 where
  pub site : Site
  pub online : Bool
  pub handler : Option Handler
  pub cmdq : List Cmd
  -- the command that was answered last, which is left in the first place of an empty queue
  pub answered : Option Cmd
  pub pwd : Option Text
  pub saved_cwd : Option Text
  pub state : SessionState
  pub isidle : Bool
  pub forcebusy : Bool
  pub features : Features
  pub status : Status
  pub link : Option Link
  pub files : List File
  pub files_reply_id : Option Event
  pub sent : List Text

abbrev pub no_commands : List Cmd → Bool
no_commands [] = true
no_commands (c ∷ cs) = false

idle_now : Session → Bool
idle_now s = if no_commands s.cmdq then (if below_idle s.state then false else s.isidle) else false

unfoldable pub session_isidle : Option Session → Bool
unfolding idle_now
session_isidle none = false
session_isidle (some s) = idle_now s

abbrev pub no_features : Features
no_features = record {
  has_ssl = false;
  has_sscn = false;
  has_ccsn = false;
  has_size = false;
  has_pret = false;
  has_xdupe = false;
}

unfoldable pub session_feat : Option Session → Features
session_feat none = no_features
session_feat (some s) = s.features
