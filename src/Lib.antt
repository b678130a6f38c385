-- ===== src/Lib.antt =====
-- The FXP.One engine moves files between two FTP servers: it keeps a queue of items, holds one
-- control session to each of the two servers, and drives both through the phases of a transfer
-- (engine/queue.c).
--
-- The parts and how they interact:
--
-- - A queue (engine/queue.h) has a list of items, a list of items with errors, two managers and
--   the users that subscribe to it. Requests change the list (queue_insert, queue_del,
--   queue_move), a listing of a directory expands an item into many (queue_directory_think), and
--   queue_process makes one step of the queue's state machine.
-- - A manager (engine/manager.h) holds the session to one server. A session (engine/session.c)
--   has a queue of commands, and calls its handler for each reply, when it becomes idle, and
--   when it is lost.
-- - The handler (engine/handler.c) is handler_withuser while a user owns the session, and
--   handler_queue while a queue runs. It counts failures of the item at the front and gives the
--   session more commands.
-- - Users send lines to the command port (engine/command.c, engine/command2.c); a browser does
--   so through the web server (engine/http.c), which unpacks its frames and packs the answers.
--
-- Which file models what:
--
-- - Prelude: numbers, Booleans, lists, C integers (Int) and C strings as lists of bytes (Bytes).
-- - Lion: the routines of the lion library that engine/ calls, which are not part of the
--   repository, as a record that every definition takes; CaseCompare, AddressText and
--   TokensShrink say what is relied on.
-- - Site: engine/sites.h, with parser_findkey, sites_find_extra, site_get_listargs, str2yna.
-- - Site.Keys: sites_newnode and sites_parsekeys, with the keys in Keys.Fields; Keys.Laws and
--   Keys.Extras have the theorems. Site.Table: the list of sites.
-- - Parser: parser_command and parser_keypairs; Parser.Laws has the theorem.
-- - File: engine/file.h, with file_dupe, file_makepath, file_makedest, file_listmatch.
-- - Queue: the lists of engine/queue.c. Types has the records; Insert, Requests, Clone, Errors,
--   Skiplist, Subscribers and Think have the operations, named as in the source; Accounting,
--   Insert.Places, Requests.Moves, Skiplist.Laws, Subscribers.Laws and Think.Laws have the
--   theorems.
-- - File.Listing: file_parse and the listing of a session; Listing.Laws has the theorems.
-- - Session: engine/session.h, session_states.h and handler.h.
-- - Engine.Control: what a session does with what comes from its server. Moves has
--   session_set_state, Login, Listing and Relays the cases of session_state_process, Machine
--   session_cmdq_reply and session_handler, Data engine/data.c; Laws, Dialogue and Insisting
--   have the theorems.
-- - Engine.Managers: engine/manager.c, the list of managers in Registry and the requests in
--   Asking.
-- - Settings: engine/settings.c; Settings.Laws has the theorem, for which Prelude.Printing shows
--   that atoi reads back what is printed.
-- - Http: engine/http.c. Frame has the frames of a WebSocket (http_framed_handler on binary
--   data, and the framing of http_engine_handler), with a client's frames in Frame.Client and a
--   client's reading of the engine's in Frame.Server as RFC 6455 describes them; Masking,
--   Decoding, Lost and Server have the theorems. Relay has the two handlers and the relay they
--   share, Relay.Laws and Relay.Passing their theorems, Request the lines of a request,
--   Request.Path the path that is opened, Request.Answer http_handler, Request.Get
--   http_get_handler. A buffer is the memory that it lies in, with the size that was received;
--   OpenSSL's SHA-1, base64 and the file system are parameters.
-- - Users: the users of engine/users.c; Users.Laws has the theorem.
-- - Protocol: engine/command2.c and the login of engine/command.c. State has the whole state of
--   the engine (Daemon) and the tests that requests begin with; Sites, Sessions, Adding, Queues
--   and Running have the requests, one function for each, named as in the source; Table has the
--   table of requests and the handler of a connection, Loop has queue_run. A request on a
--   session or a running queue is done to a World, which is taken out of the Daemon and written
--   back by ids. Runs has the main loop of engine/engine.c over everything that reaches the
--   engine. Ownership, Reaching, Placing, Staying and Runs have the theorems, for which Counted,
--   Written, Keeping, Making, Working, Asking, Bystanders, Dispatch and Loop have the lemmas;
--   Tokens shows that enough fuel is given to QDEL.
-- - Engine: World has the state that a running queue works on; Commands has the command queue of
--   a session and the commands of engine/session.c; Handlers has engine/handler.c and the buffer
--   of get_mkdname_by_depth; Process has queue_process, with one function for each case of its
--   switch, named process_ and the state, and queue_stop and queue_go; Requests has queue_grab
--   and queue_compare. Waiting, Resuming, Outcomes, Budget, Lost, Secrets, Stopping, Passive,
--   Depth and Counting have the theorems; Counting.Runs has the steps of a running queue.
-- - Tests: the theorems at concrete inputs.
--
-- State and errors: a function on the running state gives an optional world; `none` stands for a
-- fault of the code, a NULL pointer that is followed, memory that has been freed, or a write
-- past the buffer of get_mkdname_by_depth or the arrays of parser_keypairs. What the code calls
-- through session->handler is a parameter `call` of the commands. `deliver` ties the knot: it is
-- the handler of the source, with fuel for events that are raised while an event is handled. Two
-- levels are enough, since a handler's commands raise events only by a made-up reply to CWD and
-- by IDLE, and what is done about those gives at most a command that waits. The places of QDEL
-- are counted by the bytes of the text, which Protocol.Tokens shows to be enough; those of a
-- line by the bound in the source. A path has at most as many pairs of dots as bytes, which is
-- the fuel of the loop that masks them. The rounds of the main loop have fuel that is given with
-- each turn.
--
-- Integers: unsigned counters are numbers with % 2 ^ 32 written out; an int of which only the
-- sign is tested is a pair of cases (Int). Times and speeds are left out, as they are floating
-- point.
--
-- Not modelled: running out of memory; the text of what is printed to users, of which the values
-- are kept; the checks for a NULL manager, since both managers stand beside the queue; the line
-- that queue_directory_think prints for each item; the files of users and sites; the line that
-- WHO prints for each user, which comes from the connections of the library; the listening
-- socket of the web server and the copying of its files; local sites and the clients.
pub mod Prelude
pub mod Lion
pub mod Parser
pub mod Site
pub mod Users
pub mod Settings
pub mod File
pub mod Queue
pub mod Session
pub mod Engine
pub mod Protocol
pub mod Http
pub mod Tests
