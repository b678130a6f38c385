-- ===== src/Http/Request/Get.antt =====
-- http_get_handler: a file that was asked for is sent, and then the next request is read or the
-- connection closed.
use fxp_one.Prelude.{
  ℕ, Bool, false, List, [], ◌∷◌, ◌++◌, Option, none, some, Text, codes, if◌then◌else◌, print_number,
}
use fxp_one.Lion.{Lion}
use fxp_one.Http.Request.{
  HttpParser, Serving, waiting, sending, ended, HttpEffect, print, close, disconnect_file,
  enable_read, Outside,
}

-- The signals of the file, with the size that fstat gives if it does, and of the connection.
pub data GetSignal : Type 0 where
  file_open : Option ℕ → GetSignal
  binary : Text → GetSignal
  file_closed : GetSignal
  connection_closed : GetSignal

module _ (lion : Lion) where
  unfoldable pub http_get_mime : Option Text → Text
  http_get_mime none = codes "text/html"
  http_get_mime (some path) =
      if lion.matches (codes "*.js") path
      then codes "application/javascript"
      else if lion.matches (codes "*.html") path
      then codes "text/html"
      else if lion.matches (codes "*.css") path
      then codes "text/css"
      else if lion.matches (codes "*.png") path
      then codes "image/png"
      else if lion.matches (codes "*.jpg") path
      then codes "image/jpeg"
      else if lion.matches (codes "*.gif") path
      then codes "image/gif"
      else codes "text/html"

  file_size : Option ℕ → ℕ
  file_size none = 0
  file_size (some size) = size

  unfoldable pub ok_header : Outside → HttpParser → Option ℕ → Text
  unfolding http_get_mime file_size
  ok_header out p size =
      codes "HTTP/1.0 200 OK\r\nSERVER: FXP.One ("
      ++ (out.version
          ++ (codes ")\r\nContent-Length: "
              ++ (print_number (file_size size)
                  ++ (codes "\r\nContent-Type: " ++ (http_get_mime p.path ++ codes "\r\n\r\n")))))

  -- What comes of a signal while the file is open or not.
  unfoldable pub get_signal : Outside → HttpParser → Bool → GetSignal → Serving × List HttpEffect
  unfolding ok_header
  get_signal out p is_open (file_open size) = (sending p is_open, print (ok_header out p size) ∷ [])
  get_signal out p is_open (binary []) = (sending p is_open, [])
  get_signal out p is_open (binary (c ∷ cs)) = (sending p is_open, print (c ∷ cs) ∷ [])
  get_signal out p is_open file_closed =
      if p.keep_alive then (waiting, enable_read ∷ []) else (sending p false, close ∷ [])
  get_signal out p is_open connection_closed = (ended, if is_open then disconnect_file ∷ [] else [])

  unfoldable pub http_get_handler : Outside → Serving → GetSignal → Serving × List HttpEffect
  unfolding get_signal
  http_get_handler out (sending p is_open) signal = get_signal out p is_open signal
  http_get_handler out serving signal = (serving, [])

  -- Signals one after another.
  unfoldable pub get_signals : Outside → Serving → List GetSignal → Serving × List HttpEffect
  unfolding http_get_handler
  get_signals out serving [] = (serving, [])
  get_signals out serving (signal ∷ signals) =
      let first = http_get_handler out serving signal in
      let rest = get_signals out first.0 signals in (rest.0, first.1 ++ rest.1)

-- What a browser receives.
unfoldable pub received : List HttpEffect → Text
received [] = []
received (print t ∷ es) = t ++ received es
received (e ∷ es) = received es

abbrev pub chunks : List Text → List GetSignal
chunks [] = file_closed ∷ []
chunks (t ∷ ts) = binary t ∷ chunks ts

abbrev pub joined : List Text → Text
joined [] = []
joined (t ∷ ts) = t ++ joined ts

module _ (lion : Lion) (out : Outside) (p : HttpParser) where
  unfoldable pub after_file : Serving
  after_file = if p.keep_alive then waiting else sending p false
