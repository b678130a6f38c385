-- ===== src/Tests/Http.antt =====
-- The web server at concrete inputs: frames, a relay, and requests.
use fxp_one.Prelude.{
  ℕ, zero, suc, ap, sym, ◌∙◌, true, false, List, [], ◌∷◌, ◌++◌, some, Text, codes, length, ◌≡◌, ◌≢◌,
  refl, arith, case_eq,
}
use fxp_one.Settings.{settings_defaults}
use fxp_one.Http.Frame.{
  MaskKey, key_at, framed_binary, relayed, dropped, overrun, line_for_engine, crlf,
}
use fxp_one.Http.Frame.Masking.{IsKey}
use fxp_one.Http.Frame.Client.{client_frame, is_passed}
use fxp_one.Http.Frame.Decoding.{framed_binary-client_frame, framed_binary-stale}
use fxp_one.Http.Frame.Lost.{framed_binary-lost}
use fxp_one.Http.Frame.Server.{read_frame}
use fxp_one.Http.Relay.{Relaying, gone, binary, input, connected, fresh_relay}
use fxp_one.Http.Relay.{to_engine, to_http, http_framed_handler, http_engine_handler}
use fxp_one.Http.Relay.Passing.{http_framed_handler-client_frame, http_engine_handler-read_frame}
use fxp_one.Http.Relay.Laws.{
  joined_state, Occurs, at_http, at_engine, IsLinked, joined, run, run-IsLinked,
}
use fxp_one.Http.Request.{HttpParser, reading, Outside, header_line, new_request}
use fxp_one.Http.Request.Path.{JoinsPaths}
use fxp_one.Http.Request.Answer
use fxp_one.Http.Request.Answer.{http_handler, keeps_alive}
use fxp_one.Http.Request.Laws.{AllSafe, http_handler-AllSafe, header_line-keeps_alive}
use fxp_one.Tests.Data.{lion, digtoken, lion-CaseCompare}

abbrev key : MaskKey
key = record { key_0 = 0x37; key_1 = 0xfa; key_2 = 0x21; key_3 = 0x3d }

key-IsKey : IsKey key
key-IsKey = record {
  byte_0 = omega arith;
  byte_1 = omega arith;
  byte_2 = omega arith;
  byte_3 = omega arith;
}

-- The masked frame of RFC 6455, section 5.7.
hello_frame :
    client_frame 1 key (codes "Hello")
    ≡ 0x81 ∷ 0x85 ∷ 0x37 ∷ 0xfa ∷ 0x21 ∷ 0x3d ∷ 0x7f ∷ 0x9f ∷ 0x4d ∷ 0x51 ∷ 0x58 ∷ []
unfolding client_frame key_at
hello_frame = refl

http_framed_handler-client_frame_example :
    http_framed_handler
      (joined_state true true)
      (binary 11 (client_frame 1 key (codes "Hello") ++ (0 ∷ [])))
    ≡ some (joined_state true true, to_engine (line_for_engine (codes "Hello")) ∷ [])
unfolding is_passed client_frame
http_framed_handler-client_frame_example =
    http_framed_handler-client_frame true 1 key (codes "Hello") 11 0 [] refl key-IsKey (omega arith)
      (omega arith) (omega arith) (omega arith)

framed_binary-stale_example :
    framed_binary 4 (client_frame 1 key (codes "QUIT") ++ (0 ∷ []))
    ≡ relayed (line_for_engine (codes "QUIT"))
unfolding is_passed
framed_binary-stale_example =
    framed_binary-stale 1 key (codes "QUIT") 4 0 [] refl key-IsKey (omega arith) (omega arith)
      (omega arith) (omega arith) (omega arith)

-- A payload of zeros.
zeros : ℕ → Text
zeros zero = []
zeros (suc n) = 0 ∷ zeros n

length-zeros : (n : ℕ) → length (zeros n) ≡ n
unfolding zeros
length-zeros zero = refl
length-zeros (suc n) = ap suc (length-zeros n)

abbrev big : Text
big = zeros 65536

framed_binary-lost_example :
    framed_binary (length (client_frame 2 key big)) (client_frame 2 key big ++ []) ≡ dropped
unfolding is_passed
framed_binary-lost_example =
    framed_binary-lost 2 key big [] refl (omega (arith, length-zeros 65536))
      (omega (arith, length-zeros 65536))

abbrev answer : Text
answer = codes "WELCOME|NAME=FXP.One"

http_engine_handler-read_frame_example :
    (frame : Text) × (http_engine_handler false (joined_state true false) (input answer)
      ≡ some (joined_state true false, to_http frame ∷ []))
    × ((rest : Text) → read_frame (frame ++ rest) ≡ some (1, answer ++ crlf, rest))
http_engine_handler-read_frame_example =
    http_engine_handler-read_frame false b'W' (codes "ELCOME|NAME=FXP.One") (omega arith)

-- The engine is connected, a frame and a line pass, the WebSocket goes, and then the engine.
abbrev signals : List Occurs
signals =
    at_engine false connected
    ∷ at_http (binary 11 (client_frame 1 key (codes "Hello") ++ (0 ∷ [])))
    ∷ at_engine false (input answer)
    ∷ at_http gone
    ∷ at_engine false (input answer)
    ∷ at_engine false gone
    ∷ []

relayed-overrun : (t : Text) → relayed t ≢ overrun
relayed-overrun t e = ground (arith, e)

hello-fits : framed_binary 11 (client_frame 1 key (codes "Hello") ++ (0 ∷ [])) ≢ overrun
unfolding is_passed client_frame
hello-fits e = relayed-overrun (line_for_engine (codes "Hello")) (
    sym (
      framed_binary-client_frame 1 key (codes "Hello") 11 0 [] refl key-IsKey (omega arith)
        (omega arith) (omega arith) (omega arith))
    ∙ e)

run-IsLinked_example : (t : Relaying) × (run fresh_relay signals ≡ some t) × IsLinked t
run-IsLinked_example =
    run-IsLinked fresh_relay signals (joined true false refl)
      (tt, (hello-fits, (tt, (tt, (tt, (tt, tt))))))

abbrev outside : Outside
outside = record { sha1_base64 = λ t. t; is_file = λ path. true; version = codes "1.0" }

lion-JoinsPaths : JoinsPaths lion
lion-JoinsPaths = record { strjoin_lem = λ name. (name, refl) }

abbrev climbing : HttpParser
climbing = new_request lion (codes "GET /../../etc/passwd?x HTTP/1.1")

http_handler-AllSafe_example :
    AllSafe
      (http_handler lion (settings_defaults false) outside (reading climbing) (Answer.input [])).1
http_handler-AllSafe_example =
    http_handler-AllSafe lion (settings_defaults false) outside lion-JoinsPaths (reading climbing)
      (Answer.input [])

header_line-keeps_alive_example :
    keeps_alive lion
      (header_line lion climbing (codes "Connection: close")).version
      (header_line lion climbing (codes "Connection: close")).connection
    ≡ case_eq (codes "HTTP/1.1") (codes "HTTP/1.1")
unfolding new_request digtoken case_eq
header_line-keeps_alive_example =
    header_line-keeps_alive lion climbing (codes "Connection") (codes "close")
      (codes "Connection: close") (codes "HTTP/1.1") lion-CaseCompare refl refl refl
