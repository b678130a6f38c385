-- ===== src/Http/Relay.antt =====
-- http_framed_handler and http_engine_handler: a WebSocket and the connection to the engine's command
-- port, with the relay that both handlers have as their user data.
pub mod Laws
pub mod Passing
use fxp_one.Prelude.{
  ℕ, ◌+◌, Bool, true, false, not, ◌&&◌, ◌||◌, List, [], ◌∷◌, ◌++◌, Option, none, some, Text, codes,
  if◌then◌else◌, ltb, case_starts_with, length,
}
use fxp_one.Http.Frame.{
  framed_binary, server_frame, Framed, dropped, disconnected, closed, overrun, relayed,
}

-- Whether http_handle and engine_handle are set, and ssl_negotiating.
pub record Relay : Type 0 where
  pub http_handle : Bool
  pub engine_handle : Bool
  pub ssl_negotiating : Bool

-- The relay while it is allocated; whether the two handles point to it; and which of them still
-- give signals.
pub record Relaying : Type 0 where
  pub relay : Option Relay
  pub http_data : Bool
  pub engine_data : Bool
  pub http_open : Bool
  pub engine_open : Bool

-- The signals of a connection. `binary` has the size received and the memory of the buffer.
pub data Signal : Type 0 where
  gone : Signal
  connected : Signal
  secure_enabled : Signal
  secure_failed : Signal
  binary : ℕ → Text → Signal
  input : Text → Signal

-- What the handlers ask of the connections.
pub data Effect : Type 0 where
  disconnect_http : Effect
  close_http : Effect
  disconnect_engine : Effect
  read_http : Effect
  ssl_client : Effect
  to_engine : Text → Effect
  to_http : Text → Effect

-- The user data of a handle: NULL, the relay, or memory that has been freed.
pub data UserData : Type 0 where
  null : UserData
  points : Relay → UserData
  freed : UserData

unfoldable pub user_data : Bool → Option Relay → UserData
user_data false relay = null
user_data true none = freed
user_data true (some r) = points r

-- A handler gives the new state and what it asked for, or `none` for an access to freed memory or
-- behind a buffer.
abbrev pub Outcome : Type 0
Outcome = Option (Relaying × List Effect)

-- The WebSocket is gone: the relay is freed, and the engine is told to go.
unfoldable pub http_gone : Relaying → UserData → Outcome
http_gone s null = some (record s { http_data = false; http_open = false }, [])
http_gone s freed = none
http_gone s (points r) = some (
  record s {
    relay = none;
    http_data = false;
    http_open = false;
    engine_data = if r.engine_handle then false else s.engine_data;
  },
  if r.engine_handle then disconnect_engine ∷ [] else [],
)

unfoldable pub relay_frame : Relaying → UserData → Framed → Outcome
relay_frame s u dropped = some (s, [])
relay_frame s u disconnected = some (s, disconnect_http ∷ [])
relay_frame s u closed = some (s, close_http ∷ [])
relay_frame s u overrun = none
relay_frame s null (relayed line) = some (s, [])
relay_frame s freed (relayed line) = none
relay_frame s (points r) (relayed line) =
    some (s, if r.engine_handle then to_engine line ∷ [] else [])

unfoldable pub http_framed_handler : Relaying → Signal → Outcome
unfolding http_gone relay_frame user_data
http_framed_handler s gone = http_gone s (user_data s.http_data s.relay)
http_framed_handler s (binary size line) =
    relay_frame s (user_data s.http_data s.relay) (framed_binary size line)
http_framed_handler s signal = some (s, [])

-- relay->http_handle ? ... : nothing
unfoldable pub if_http : Relay → List Effect → List Effect
if_http r effects = if r.http_handle then effects else []

-- "SSL|CODE=0|" while it is negotiated; any other line is put into a frame.
unfoldable pub engine_line : Relay → Text → List Effect
unfolding if_http
engine_line r line =
    if r.ssl_negotiating && case_starts_with (codes "SSL|CODE=0|") line
    then ssl_client ∷ []
    else elim line [
      | [] ↦ []
      | c ∷ cs ↦ elim (server_frame (c ∷ cs)) [
        | none ↦ []
        | some frame ↦ if_http r (to_http frame ∷ [])
      ]
    ]

-- The handler of the engine's connection with a relay; `ssl` says whether the WebSocket has SSL.
unfoldable pub engine_signal : Bool → Relaying → Relay → Signal → Relaying × List Effect
unfolding if_http engine_line
engine_signal ssl s r gone = (
  record s { relay = some (record r { engine_handle = false }); engine_open = false },
  if_http r (disconnect_http ∷ []),
)
engine_signal ssl s r connected =
    if r.http_handle && ssl
    then (
      record s { relay = some (record r { ssl_negotiating = true }) },
      to_engine (codes "SSL\r\n") ∷ [],
    )
    else (s, if_http r (read_http ∷ []))
engine_signal ssl s r secure_enabled =
    (record s { relay = some (record r { ssl_negotiating = false }) }, if_http r (read_http ∷ []))
engine_signal ssl s r secure_failed = (s, disconnect_engine ∷ [])
engine_signal ssl s r (input line) = (s, engine_line r line)
engine_signal ssl s r (binary size line) = (s, [])

-- Without a relay the connection is only closed.
unfoldable pub engine_alone : Relaying → Signal → Relaying × List Effect
engine_alone s gone = (record s { engine_open = false }, [])
engine_alone s secure_failed = (s, disconnect_engine ∷ [])
engine_alone s signal = (s, [])

unfoldable pub with_data : Bool → Relaying → Signal → UserData → Outcome
unfolding engine_signal engine_alone
with_data ssl s signal null = some (engine_alone s signal)
with_data ssl s signal freed = none
with_data ssl s signal (points r) = some (engine_signal ssl s r signal)

unfoldable pub http_engine_handler : Bool → Relaying → Signal → Outcome
unfolding with_data user_data
http_engine_handler ssl s signal = with_data ssl s signal (user_data s.engine_data s.relay)

-- What the handshake sets up before the first signal.
abbrev pub fresh_relay : Relaying
fresh_relay = record {
  relay = some (record { http_handle = true; engine_handle = true; ssl_negotiating = false });
  http_data = true;
  engine_data = true;
  http_open = true;
  engine_open = true;
}
