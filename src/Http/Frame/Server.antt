-- ===== src/Http/Frame/Server.antt =====
-- The frames that the engine's lines are sent in, read as RFC 6455 asks a client to read them.
use fxp_one.Prelude.{
  ℕ, zero, suc, ◌+◌, ◌*◌, ◌/◌, ◌%◌, ◌^◌, ◌≤◌, ◌<◌, true, ◌&&◌, [], ◌∷◌, ◌++◌, Option, none, some,
  Text, ltb, leb, ◌==◌, if◌then◌else◌, length, guard, ◌>>◌, ◌>>=◌, ◌≡◌, refl, arith, Bool-cases,
  length-append, inl, inr, sym,
}
use fxp_one.Http.Frame.{server_frame, crlf}

-- So many bytes, and what is behind them.
split : ℕ → Text → Option (Text × Text)
split zero cs = some ([], cs)
split (suc n) [] = none
split (suc n) (c ∷ cs) = split n cs >>= (λ r. some (c ∷ r.0, r.1))

-- The payload behind the head: a length of up to 125 stands in the head, one below 2^16 in two bytes
-- where it does not fit the head.
read_payload : ℕ → Text → Option (Text × Text)
unfolding split
read_payload len (h ∷ l ∷ cs) =
    if leb len 125
    then split len (h ∷ l ∷ cs)
    else guard (len == 126 && leb 126 (h * 256 + l)) >> split (h * 256 + l) cs
read_payload len cs = guard (leb len 125) >> split len cs

-- A frame that is final, has no extension and no mask: its opcode, its payload and the rest.
unfoldable pub read_frame : Text → Option (ℕ × Text × Text)
unfolding read_payload
read_frame (b0 ∷ b1 ∷ cs) =
    guard (leb 128 b0 && b0 / 16 % 8 == 0 && ltb b1 128)
    >> (read_payload b1 cs >>= (λ r. some (b0 % 16, r.0, r.1)))
read_frame cs = none

split-append : (n : ℕ) (xs ys : Text) → length xs ≡ n → split n (xs ++ ys) ≡ some (xs, ys)
unfolding split
split-append zero [] ys h = refl
split-append zero (x ∷ xs) ys h = absurd (omega arith)
split-append (suc n) [] ys h = absurd (omega arith)
split-append (suc n) (x ∷ xs) ys h = rw (split-append n xs ys (omega arith)) refl

read_payload-short :
    (len : ℕ) (xs ys : Text)
    → length xs ≡ len
    → 1 < len
    → len ≤ 125
    → read_payload len (xs ++ ys) ≡ some (xs, ys)
unfolding read_payload
read_payload-short len [] ys h a b = absurd (omega arith)
read_payload-short len (x ∷ []) ys h a b = absurd (omega arith)
read_payload-short len (x ∷ y ∷ xs) ys h a b =
    rw (split-append len (x ∷ y ∷ xs) ys h) (ground arith)

read_payload-long :
    (xs ys : Text)
    → 125 < length xs
    → length xs < 2 ^ 16
    → read_payload 126 ((length xs / 256 % 256) ∷ (length xs % 256) ∷ (xs ++ ys)) ≡ some (xs, ys)
unfolding read_payload
read_payload-long xs ys a b =
    let e : length xs / 256 % 256 * 256 + length xs % 256 ≡ length xs = omega arith in
    rw (e, split-append (length xs) xs ys refl) (ground arith)

length-crlf : (line : Text) → length (line ++ crlf) ≡ length line + 2
length-crlf line = length-append line crlf

-- A line below 65534 bytes is sent as one frame of text, from which a client has the line back with
-- its end, and what follows.
pub server_frame-read_frame :
    (line rest : Text)
    → length line < 65534
    → (server_frame line >>= (λ frame. read_frame (frame ++ rest))) ≡ some (1, line ++ crlf, rest)
unfolding server_frame read_frame
server_frame-read_frame line rest h = elim (Bool-cases (ltb (length line) 124)) [
  | inl e ↦
      let small : length line + 2 ≤ 125 = ground arith in
      let p =
        read_payload-short (length line + 2) (line ++ crlf) rest (length-crlf line) (omega arith)
          small in
      rw (e, p) (ground arith)
  | inr e ↦
      let large : 125 < length line + 2 = ground arith in
      let n : length (line ++ crlf) ≡ length line + 2 = length-crlf line in
      let p = read_payload-long (line ++ crlf) rest (omega arith) (omega arith) in
      let b : ltb (length line) 65534 ≡ true = ground arith in rw (e, b, sym n, p) refl
]
