-- ===== src/Http/Relay/Laws.antt =====
-- The relay is used only while it is allocated, whatever order the two connections close in.
use fxp_one.Prelude.{
  Bool, true, false, List, [], ◌∷◌, Option, none, some, if◌then◌else◌, ◌>>=◌, ◌≡◌, ◌≢◌, refl,
}
use fxp_one.Http.Frame.{framed_binary, Framed, dropped, disconnected, closed, overrun, relayed}
use fxp_one.Http.Relay.{
  Relaying, Signal, gone, connected, secure_enabled, secure_failed, binary, input,
  http_framed_handler, http_engine_handler, user_data, http_gone, relay_frame, engine_signal,
  engine_alone, with_data,
}

-- While there is a relay the WebSocket is open, both handles know the relay, and the relay knows
-- whether the engine is there.
abbrev pub joined_state : Bool → Bool → Relaying
joined_state engine_open ssl = record {
  relay = some (record { http_handle = true; engine_handle = engine_open; ssl_negotiating = ssl });
  http_data = true;
  engine_data = true;
  http_open = true;
  engine_open = engine_open;
}

-- Without one the WebSocket is gone.
abbrev parted_state : Bool → Bool → Relaying
parted_state engine_data engine_open = record {
  relay = none;
  http_data = false;
  engine_data = engine_data;
  http_open = false;
  engine_open = engine_open;
}

-- Without a relay, the engine's connection that is still open does not know of it.
pub data IsLinked (s : Relaying) : Type 0 where
  joined : (engine_open ssl : Bool) → s ≡ joined_state engine_open ssl → IsLinked s
  waiting : s ≡ parted_state false true → IsLinked s
  parted : (engine_data : Bool) → s ≡ parted_state engine_data false → IsLinked s

-- Whose signal it is; `ssl` says whether the WebSocket has SSL.
pub data Occurs : Type 0 where
  at_http : Signal → Occurs
  at_engine : Bool → Signal → Occurs

-- A signal that is given to no handler once the connection is closed.
unfoldable pub occur : Relaying → Occurs → Option Relaying
occur s (at_http signal) =
    if s.http_open then http_framed_handler s signal >>= (λ r. some r.0) else some s
occur s (at_engine ssl signal) =
    if s.engine_open then http_engine_handler ssl s signal >>= (λ r. some r.0) else some s

unfoldable pub run : Relaying → List Occurs → Option Relaying
unfolding occur
run s [] = some s
run s (o ∷ os) = occur s o >>= (λ s. run s os)

-- The frame does not reach behind its buffer.
abbrev pub HasRoom : Occurs → Type 0
HasRoom (at_http (binary size line)) = framed_binary size line ≢ overrun
HasRoom o = Unit

abbrev pub AllHaveRoom : List Occurs → Type 0
AllHaveRoom [] = Unit
AllHaveRoom (o ∷ os) = HasRoom o × AllHaveRoom os

LinkedResult : Option Relaying → Type 0
LinkedResult o = (t : Relaying) × (o ≡ some t) × IsLinked t

frame-links :
    (eo ssl : Bool) (f : Framed)
    → f ≢ overrun
    → LinkedResult (
        relay_frame (joined_state eo ssl) (user_data true (joined_state eo ssl).relay) f
        >>= (λ r. some r.0))
unfolding relay_frame user_data LinkedResult
frame-links eo ssl dropped h = (_, refl, joined eo ssl refl)
frame-links eo ssl disconnected h = (_, refl, joined eo ssl refl)
frame-links eo ssl closed h = (_, refl, joined eo ssl refl)
frame-links eo ssl overrun h = absurd (h refl)
frame-links eo ssl (relayed line) h = (_, refl, joined eo ssl refl)

http-links :
    (eo ssl : Bool) (signal : Signal)
    → HasRoom (at_http signal)
    → LinkedResult (occur (joined_state eo ssl) (at_http signal))
unfolding occur http_framed_handler http_gone user_data LinkedResult
http-links true ssl gone h = (_, refl, waiting refl)
http-links false ssl gone h = (_, refl, parted true refl)
http-links eo ssl connected h = (_, refl, joined eo ssl refl)
http-links eo ssl secure_enabled h = (_, refl, joined eo ssl refl)
http-links eo ssl secure_failed h = (_, refl, joined eo ssl refl)
http-links eo ssl (binary size line) h = frame-links eo ssl (framed_binary size line) h
http-links eo ssl (input line) h = (_, refl, joined eo ssl refl)

engine-links :
    (secure ssl : Bool) (signal : Signal)
    → LinkedResult (occur (joined_state true ssl) (at_engine secure signal))
unfolding occur http_engine_handler with_data engine_signal user_data LinkedResult
engine-links secure ssl gone = (_, refl, joined false ssl refl)
engine-links true ssl connected = (_, refl, joined true true refl)
engine-links false ssl connected = (_, refl, joined true ssl refl)
engine-links secure ssl secure_enabled = (_, refl, joined true false refl)
engine-links secure ssl secure_failed = (_, refl, joined true ssl refl)
engine-links secure ssl (binary size line) = (_, refl, joined true ssl refl)
engine-links secure ssl (input line) = (_, refl, joined true ssl refl)

waiting-links :
    (secure : Bool) (signal : Signal)
    → LinkedResult (occur (parted_state false true) (at_engine secure signal))
unfolding occur http_engine_handler with_data engine_alone user_data LinkedResult
waiting-links secure gone = (_, refl, parted false refl)
waiting-links secure connected = (_, refl, waiting refl)
waiting-links secure secure_enabled = (_, refl, waiting refl)
waiting-links secure secure_failed = (_, refl, waiting refl)
waiting-links secure (binary size line) = (_, refl, waiting refl)
waiting-links secure (input line) = (_, refl, waiting refl)

occur-links : (s : Relaying) (o : Occurs) → IsLinked s → HasRoom o → LinkedResult (occur s o)
unfolding occur LinkedResult
occur-links s (at_http signal) (joined eo ssl e) h = rw e (http-links eo ssl signal h)
occur-links s (at_engine secure signal) (joined true ssl e) h =
    rw e (engine-links secure ssl signal)
occur-links s (at_engine secure signal) (joined false ssl e) h =
    rw e (_, refl, joined false ssl refl)
occur-links s (at_http signal) (waiting e) h = rw e (_, refl, waiting refl)
occur-links s (at_engine secure signal) (waiting e) h = rw e (waiting-links secure signal)
occur-links s (at_http signal) (parted ed e) h = rw e (_, refl, parted ed refl)
occur-links s (at_engine secure signal) (parted ed e) h = rw e (_, refl, parted ed refl)

-- No order of signals makes a handler use a relay that has been freed, and the state stays linked.
pub run-IsLinked :
    (s : Relaying) (os : List Occurs)
    → IsLinked s
    → AllHaveRoom os
    → (t : Relaying) × (run s os ≡ some t) × IsLinked t
unfolding run LinkedResult
run-IsLinked s [] l h = (s, refl, l)
run-IsLinked s (o ∷ os) l h =
    let step : LinkedResult (occur s o) = occur-links s o l h.0 in
    let rest = run-IsLinked step.0 os step.2 h.1 in (rest.0, rw (step.1) rest.1, rest.2)
