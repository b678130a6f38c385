-- ===== src/Http/Request/Answer.antt =====
-- http_handler at the blank line that ends a request: a WebSocket, a file, or an error.
use fxp_one.Prelude.{
  ◌^◌, Bool, true, false, ◌&&◌, ◌||◌, List, [], ◌∷◌, ◌++◌, Option, none, some, Text, codes,
  if◌then◌else◌, ltb, leb, ◌==◌, starts_with, case_eq, atoi,
}
use fxp_one.Lion.{Lion}
use fxp_one.Settings.{Settings}
use fxp_one.Http.Relay.{fresh_relay}
use fxp_one.Http.Request.{
  HttpParser, Serving, waiting, reading, relaying, sending, ended, HttpEffect, print, disconnect,
  close, open_file, disable_read, connect_engine, Outside, case_contains, http_guid, new_request,
  header_line,
}
use fxp_one.Http.Request.Path.{get_path}

-- SERVER: in an error
unfoldable pub server_line : Outside → Text
server_line out = codes "SERVER: FXP.Oned (" ++ (out.version ++ codes ")\r\n")

-- The signals of the connection.
pub data HttpSignal : Type 0 where
  connected : HttpSignal
  gone : HttpSignal
  secure_enabled : HttpSignal
  secure_failed : HttpSignal
  input : Text → HttpSignal

module _ (lion : Lion) where
  -- What ends a request that is no WebSocket: the file is opened, or an error is sent.
  unfoldable pub keeps_alive : Option Text → Option Text → Bool
  keeps_alive version connection =
      let by_version : Bool = elim version [
        | none ↦ false
        | some v ↦ lion.same_text (codes "HTTP/1.1") v
      ] in
      elim connection [
        | none ↦ by_version
        | some c ↦
            if lion.same_text (codes "close") c
            then false
            else lion.same_text (codes "keep-alive") c || by_version
      ]

  unfoldable pub get_file : Outside → HttpParser → Text → Serving × List HttpEffect
  unfolding keeps_alive server_line
  get_file out p path =
      if out.is_file path
      then (
        sending (record p { keep_alive = keeps_alive p.version p.connection }) true,
        open_file path ∷ disable_read ∷ [],
      )
      else (
        reading (record p { keep_alive = keeps_alive p.version p.connection }),
        open_file path
            ∷ print (codes "HTTP/1.0 404 File not found mate\r\n")
            ∷ print (server_line out)
            ∷ close
            ∷ [],
      )

  unfoldable pub plain_get : Outside → HttpParser → Serving × List HttpEffect
  unfolding get_file server_line
  plain_get out p = elim p.path [
    | none ↦ (
      reading p,
      print (codes "HTTP/1.0 500 Error of some kind\r\n") ∷ print (server_line out) ∷ close ∷ [],
    )
    | some path ↦ get_file out p (get_path lion path)
  ]

  -- atoi(version) >= 8, as an int
  unfoldable pub is_recent : Text → Bool
  is_recent version = leb 8 (atoi version) && ltb (atoi version) (2 ^ 31)

  unfoldable pub engine_host : Settings → Text
  engine_host s = if s.command_iface == 0 then codes "127.0.0.1" else lion.ntoa s.command_iface

  -- The answer to a handshake, and the connection to the engine.
  unfoldable pub switch_protocols : Settings → Outside → Text → Serving × List HttpEffect
  unfolding engine_host
  switch_protocols s out key = (
    relaying fresh_relay,
    print (
          codes "HTTP/1.1 101 Switching Protocols\r\nUpgrade: websocket\r\nConnection: Upgrade\r\n"
          ++ (codes "Sec-WebSocket-Accept: "
              ++ (out.sha1_base64 (key ++ http_guid) ++ codes "\r\n\r\n")))
        ∷ disable_read
        ∷ connect_engine (engine_host s) s.command_port
        ∷ [],
  )

  -- A blank line with the four headers of a handshake: if they are wrong the request is forgotten.
  unfoldable pub handshake :
      Settings → Outside → (upgrade connection key version : Text) → Serving × List HttpEffect
  unfolding switch_protocols is_recent case_contains
  handshake s out upgrade connection key version =
      if case_eq (codes "websocket") upgrade
        && (case_contains (codes "Upgrade") connection && is_recent version)
      then switch_protocols s out key
      else (waiting, [])

  unfoldable pub end_of_header : Settings → Outside → HttpParser → Serving × List HttpEffect
  unfolding handshake plain_get
  end_of_header s out p = elim p.upgrade [
    | none ↦ plain_get out p
    | some upgrade ↦ elim p.connection [
      | none ↦ plain_get out p
      | some connection ↦ elim p.key [
        | none ↦ plain_get out p
        | some key ↦ elim p.version [
          | none ↦ plain_get out p
          | some version ↦ handshake s out upgrade connection key version
        ]
      ]
    ]
  ]

  unfoldable pub first_line : Text → Serving × List HttpEffect
  unfolding new_request
  first_line line =
      if starts_with (codes "GET ") line
      then (reading (new_request lion line), [])
      else if starts_with (codes "QUIT") line
      then (waiting, disconnect ∷ [])
      else (waiting, [])

  unfoldable pub request_line : Settings → Outside → HttpParser → Text → Serving × List HttpEffect
  unfolding end_of_header header_line
  request_line s out p [] = end_of_header s out p
  request_line s out p (c ∷ cs) = (reading (header_line lion p (c ∷ cs)), [])

  -- http_handler on LION_INPUT. The other states have another handler.
  unfoldable pub http_input : Settings → Outside → Serving → Text → Serving × List HttpEffect
  unfolding first_line request_line
  http_input s out waiting line = first_line line
  http_input s out (reading p) line = request_line s out p line
  http_input s out serving line = (serving, [])

  -- A connection that is gone takes its parser with it.
  unfoldable pub http_handler :
      Settings → Outside → Serving → HttpSignal → Serving × List HttpEffect
  unfolding http_input
  http_handler s out serving (input line) = http_input s out serving line
  http_handler s out serving gone = (ended, [])
  http_handler s out serving secure_failed = (serving, disconnect ∷ [])
  http_handler s out serving connected = (serving, [])
  http_handler s out serving secure_enabled = (serving, [])
