-- ===== src/Tests/Data.antt =====
-- Sites, files, items, queues and a world to try the theorems on. The routines of the lion library
-- are instantiated by small functions that are enough for these inputs.
use fxp_one.Prelude.{
  ℕ, Bool, true, false, ◌||◌, ◌==◌, if◌then◌else◌, Option, List, [], ◌∷◌, ◌++◌, none, some, Text,
  codes, case_eq, refl, text_eq, strtoull, print_number,
}
use fxp_one.Lion.{Lion, CaseCompare}
use fxp_one.Site.{Site, yna_yes, yna_auto}
use fxp_one.File.{File, blank_file}
use fxp_one.Queue.Types.{
  phase_12_start, QitemType, type_file, type_directory, type_stop, Qitem, blank_item, north, south,
  Queue, queue_newnode,
}
use fxp_one.Session.Events.{st_idle}
use fxp_one.Session.{Session, handler_queue, no_features}
use fxp_one.Engine.World.{World, Manager, Call}
use fxp_one.Engine.Handlers.{deliver}

-- misc_digtoken for one delimiter or more: those in front are skipped.
is_in : ℕ → Text → Bool
is_in c [] = false
is_in c (d ∷ ds) = c == d || is_in c ds

skip_in : Text → Text → Text
skip_in ds [] = []
skip_in ds (c ∷ cs) = if is_in c ds then skip_in ds cs else c ∷ cs

cut_in : Text → Text → Text × Text
cut_in ds [] = ([], [])
cut_in ds (c ∷ cs) = if is_in c ds then ([], cs) else (c ∷ (cut_in ds cs).0, (cut_in ds cs).1)

token_of : Text → Text → Option (Text × Text)
unfolding cut_in
token_of ds [] = none
token_of ds (c ∷ cs) = some (cut_in ds (c ∷ cs))

unfoldable pub digtoken : Text → Text → Option (Text × Text)
unfolding token_of skip_in is_in
digtoken ds t = token_of ds (skip_in ds t)

ends_at : Text → Text → Option ℕ
unfolding is_in
ends_at ds [] = none
ends_at ds (c ∷ cs) = let rest = ends_at ds cs in if is_in c ds then some c else rest

unfoldable pub optchar : Text → Text → Option ℕ
unfolding ends_at skip_in is_in
optchar ds t = ends_at ds (skip_in ds t)

abbrev pub lion : Lion
lion = record {
  same_text = case_eq;
  matches = λ pattern name. text_eq pattern name;
  slash_tokens = λ list. list ∷ [];
  strjoin = λ dir name. dir ++ codes "/" ++ name;
  url_encode = λ t. t;
  url_decode = λ t. t;
  quoted = λ t. none;
  own_address = λ host. codes "127,0,0,1";
  stripslash = λ t. t;
  listen_port = λ t. none;
  digtoken = digtoken;
  optchar = optchar;
  getdate = λ t. 0;
  ftp_pasv = λ t. none;
  addr = strtoull;
  ntoa = print_number;
  secure_status = λ enabled. if enabled then 12 else 13;
  version = codes "1.0";
}

pub lion-CaseCompare : CaseCompare lion
lion-CaseCompare = record { same_text_lem = λ a b. refl }

abbrev pub site : Text → Site
site host = record {
  id = 1;
  name = some host;
  host = host;
  ip = 0;
  port = 21;
  iface = 0;
  iport = 0;
  user = codes "user";
  pass = codes "pass";
  passive = yna_yes;
  fxp_passive = yna_auto;
  control_tls = yna_auto;
  data_tls = yna_auto;
  desired_type = yna_auto;
  resume = yna_yes;
  resume_last = yna_yes;
  pret = yna_auto;
  file_skiplist = some (codes "skip.txt");
  directory_skiplist = none;
  file_passlist = none;
  directory_passlist = none;
  file_movefirst = some (codes "first.sfv");
  directory_movefirst = none;
  file_skipempty = yna_yes;
  directory_skipempty = yna_yes;
  extras = [];
}

abbrev pub file : Text → ℕ → File
file name size = record blank_file { fid = size; name = some name; size = size }

abbrev pub item : QitemType → Text → Qitem
item t name = record blank_item {
  type = t;
  src = file name 7;
  dst = file name 3;
  src_is_north = true;
}

abbrev pub one : Qitem
one = item type_file (codes "one")

abbrev pub two : Qitem
two = item type_file (codes "two")

abbrev pub three : Qitem
three = item type_file (codes "three")

abbrev pub folder : Qitem
folder = item type_directory (codes "folder")

abbrev pub halt : Qitem
halt = item type_stop (codes "halt")

abbrev pub items : List Qitem
items = one ∷ two ∷ three ∷ []

-- A queue at work on its first item.
abbrev pub queue : Queue
queue = record (queue_newnode 5) {
  state = phase_12_start;
  items = items;
  num_items = 3;
  users = some 9 ∷ none ∷ [];
  north_sid = 1;
  south_sid = 2;
  north_mgr = 1;
  south_mgr = 2;
  src_mgr = some north;
  dst_mgr = some south;
}

abbrev pub idle_session : Text → Session
idle_session host = record {
  site = site host;
  online = true;
  handler = some handler_queue;
  cmdq = [];
  answered = none;
  pwd = none;
  saved_cwd = none;
  state = st_idle;
  isidle = true;
  forcebusy = false;
  features = record no_features { has_ssl = true; has_size = true };
  status = record {
    on_ssl = true;
    on_binary = false;
    on_sscn = false;
    on_ccsn = false;
    on_privacy = false;
    on_size = false;
    on_rest = false;
    on_xdupe = false;
  };
  link = none;
  files = [];
  files_reply_id = none;
  sent = [];
}

abbrev pub mgr : ℕ → Text → Manager
mgr id host = record {
  site = site host;
  session = some (idle_session host);
  old_session = none;
  id = id;
  connected = true;
  user = none;
  locked = yna_yes;
  qid = 5;
  is_dmovefirst = false;
  userflag_log = false;
  userflag_rnfr_ok = false;
}

abbrev pub world : World
world = record {
  queue = queue;
  north_mgr = mgr 1 (codes "north.example");
  south_mgr = mgr 2 (codes "south.example");
  nodelay = false;
  server_ssl = false;
  online = λ u. true;
  store = none;
  notices = [];
}

abbrev pub call : Call
call = deliver lion 3
