-- ===== src/Http/Relay/Passing.antt =====
-- What the relay hands from the browser to the engine and back.
use fxp_one.Prelude.{
  ℕ, ◌^◌, ◌≤◌, ◌<◌, Bool, true, false, [], ◌∷◌, ◌++◌, some, Text, length, ◌≡◌, refl, arith,
  Option-cases, inl, inr,
}
use fxp_one.Http.Frame.{MaskKey, line_for_engine, server_frame, crlf}
use fxp_one.Http.Frame.Masking.{IsKey, IsBytes}
use fxp_one.Http.Frame.Client.{client_frame, is_passed}
use fxp_one.Http.Frame.Decoding.{framed_binary-client_frame}
use fxp_one.Http.Frame.Server.{read_frame, server_frame-read_frame}
use fxp_one.Http.Relay.{
  binary, input, to_engine, to_http, http_framed_handler, http_engine_handler, with_data,
  engine_signal, engine_line, if_http, relay_frame, user_data,
}
use fxp_one.Http.Relay.Laws.{joined_state}

-- A masked frame of data, or a PING or PONG, with a payload below 2^16 bytes reaches the engine,
-- when it has come in whole and the engine is there, as its payload up to a NUL with an end of
-- line, whatever follows it in the buffer.
pub http_framed_handler-client_frame :
    (ssl : Bool) (opcode : ℕ) (key : MaskKey) (payload : Text) (size c : ℕ) (rest : Text)
    → is_passed opcode ≡ true
    → IsKey key
    → IsBytes payload
    → size < 2 ^ 31
    → length payload < 2 ^ 16
    → length (client_frame opcode key payload) ≤ size
    → http_framed_handler
        (joined_state true ssl)
        (binary size (client_frame opcode key payload ++ (c ∷ rest)))
      ≡ some (joined_state true ssl, to_engine (line_for_engine payload) ∷ [])
unfolding http_framed_handler relay_frame user_data
http_framed_handler-client_frame ssl opcode key payload size c rest passed byte_key bytes small b
      w =
    rw (framed_binary-client_frame opcode key payload size c rest passed byte_key bytes small b w)
      refl

framed_line :
    (line : Text)
    → length line < 65534
    → (frame : Text) × (server_frame line ≡ some frame)
      × ((rest : Text) → read_frame (frame ++ rest) ≡ some (1, line ++ crlf, rest))
framed_line line h = elim (Option-cases (server_frame line)) [
  | inl e ↦ absurd (ground (arith, e, server_frame-read_frame line [] h))
  | inr (frame, e) ↦ (frame, e, λ rest. ground (arith, e, server_frame-read_frame line rest h))
]

-- A line of the engine that is not empty and below 65534 bytes reaches the browser, unless SSL is
-- being negotiated, as one frame of text, from which a client reads the line with its end, and what
-- follows.
pub http_engine_handler-read_frame :
    (ssl : Bool) (b : ℕ) (bs : Text)
    → length (b ∷ bs) < 65534
    → (frame : Text) × (http_engine_handler ssl (joined_state true false) (input (b ∷ bs))
        ≡ some (joined_state true false, to_http frame ∷ []))
      × ((rest : Text) → read_frame (frame ++ rest) ≡ some (1, (b ∷ bs) ++ crlf, rest))
unfolding http_engine_handler with_data user_data engine_signal engine_line if_http
http_engine_handler-read_frame ssl b bs h =
    let sent = framed_line (b ∷ bs) h in (sent.0, rw (sent.1) refl, sent.2)
