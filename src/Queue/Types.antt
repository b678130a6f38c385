-- ===== src/Queue/Types.antt =====
-- engine/queue.h: the queue and its items, as queue_newnode and queue_newitem make them.
use fxp_one.Prelude.{ℕ, Bool, true, false, List, [], Option, none, Text, ℤ, pos}
use fxp_one.File.{File, blank_file}

pub data QueueState : Type 0 where
  queue_idle queue_start queue_isconnected queue_start_next_item queue_active : QueueState
  queue_file_start : QueueState
  phase_1_start phase_1_idle : QueueState
  phase_2_start phase_2_wait phase_2_disable : QueueState
  phase_3_start phase_3_wait : QueueState
  phase_4_start : QueueState
  phase_5_start phase_5_rest_wait phase_5_rest : QueueState
  phase_6_start : QueueState
  phase_7_start phase_7_wait : QueueState
  phase_8_start phase_8_wait : QueueState
  phase_9_start phase_9_rest : QueueState
  phase_10_start phase_10_wait : QueueState
  phase_11_start phase_11_wait : QueueState
  phase_12_start : QueueState
  directory_start directory_phase_1_idle directory_phase_2_start : QueueState
  directory_phase_2_mkd directory_phase_2_compare : QueueState
  queue_other_is_busy : QueueState
  queue_item_failed queue_requeue_item queue_error_item queue_remove_item queue_empty : QueueState

abbrev pub is_idle : QueueState → Bool
is_idle queue_idle = true
is_idle _ = false

pub data QitemType : Type 0 where
  type_none type_file type_directory type_stop : QitemType

abbrev pub is_directory : QitemType → Bool
is_directory type_directory = true
is_directory _ = false

abbrev pub is_stop : QitemType → Bool
is_stop type_stop = true
is_stop _ = false

abbrev pub is_file : QitemType → Bool
is_file type_file = true
is_file _ = false

-- The flags are one field each.
pub record Qitem : Type 0 where
  pub type : QitemType
  pub src : File
  pub dst : File
  pub src_is_north : Bool
  pub weight : ℤ
  pub flag_resume : Bool
  pub flag_overwrite : Bool
  pub flag_requeued : Bool
  pub src_failure : ℕ
  pub dst_failure : ℕ
  pub soft_errors : ℕ
  pub src_reasons : List Text
  pub dst_reasons : List Text
  pub src_transfer : ℕ
  pub dst_transfer : ℕ

-- Which of the two managers a pointer means.
pub data Side : Type 0 where
  north south : Side

-- `users` has `num_users` places, of which an empty one is NULL. The managers stand beside the queue:
-- north_mgr and south_mgr, pointers in the source, are the ids of the managers that they point to, which
-- stay when a session is lost, while the sids become 0.
pub record Queue : Type 0 where
  pub id : ℕ
  pub state : QueueState
  pub stop : Bool
  pub north_sid : ℕ
  pub south_sid : ℕ
  pub north_mgr : ℕ
  pub south_mgr : ℕ
  pub src_mgr : Option Side
  pub dst_mgr : Option Side
  pub num_items : ℕ
  pub items : List Qitem
  pub num_errors : ℕ
  pub err_items : List Qitem
  pub secure_data : Bool
  pub srcpasv : Bool
  pub pasv_line : Option Text
  pub users : List (Option ℕ)
  pub mkd_depth : ℕ

unfoldable pub queue_newnode : ℕ → Queue
queue_newnode id = record {
  id = id;
  state = queue_idle;
  stop = false;
  north_sid = 0;
  south_sid = 0;
  north_mgr = 0;
  south_mgr = 0;
  src_mgr = none;
  dst_mgr = none;
  num_items = 0;
  items = [];
  num_errors = 0;
  err_items = [];
  secure_data = false;
  srcpasv = false;
  pasv_line = none;
  users = [];
  mkd_depth = 0;
}

-- What a request about the list of items is answered with.
pub data Reply : Type 0 where
  done : Reply
  active_item : Reply
  no_such_item : Reply

-- The place that a request names.
pub data Position : Type 0 where
  at_first at_last at_default : Position
  at_nth : ℕ → Position

unfoldable pub blank_item : Qitem
blank_item = record {
  type = type_none;
  src = blank_file;
  dst = blank_file;
  src_is_north = false;
  weight = pos 0;
  flag_resume = false;
  flag_overwrite = false;
  flag_requeued = false;
  src_failure = 0;
  dst_failure = 0;
  soft_errors = 0;
  src_reasons = [];
  dst_reasons = [];
  src_transfer = 0;
  dst_transfer = 0;
}
