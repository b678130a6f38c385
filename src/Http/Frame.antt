-- ===== src/Http/Frame.antt =====
-- http_framed_handler on LION_BINARY and the framing of http_engine_handler: a frame of a WebSocket
-- is decoded in the buffer that it came in, and a line of the engine is put into a frame.
pub mod Masking
pub mod Client
pub mod Decoding
pub mod Lost
pub mod Server
use Prim.Native.Nat.{bit_xor}
use fxp_one.Prelude.{
  ℕ, zero, suc, ◌+◌, ◌-◌, ◌*◌, ◌/◌, ◌%◌, ◌^◌, Bool, true, false, ◌&&◌, ◌||◌, List, [], ◌∷◌, ◌++◌,
  Option, none, some, Text, codes, ltb, leb, ◌==◌, if◌then◌else◌, length, get_elem?, drop, ◌>>=◌,
}

abbrev pub crlf : Text
crlf = codes "\r\n"

-- What the handler does with a buffer. `overrun` is an access behind the buffer.
pub data Framed : Type 0 where
  dropped : Framed
  disconnected : Framed
  closed : Framed
  overrun : Framed
  relayed : Text → Framed

-- key[0] to key[3]
pub record MaskKey : Type 0 where
  pub key_0 : ℕ
  pub key_1 : ℕ
  pub key_2 : ℕ
  pub key_3 : ℕ

-- key[i % 4]
unfoldable pub key_at : MaskKey → ℕ → ℕ
key_at key i =
    if i % 4 == 0
    then key.key_0
    else if i % 4 == 1
    then key.key_1
    else if i % 4 == 2
    then key.key_2
    else key.key_3

-- len <<= 8, in 64 bits, with the next byte put in its place
unfoldable pub shift_in : ℕ → ℕ → ℕ
shift_in len c = (len * 256) % 2 ^ 64 + c

unfoldable pub shift_all : ℕ → Text → ℕ
unfolding shift_in
shift_all len [] = len
shift_all len (c ∷ cs) = shift_all (shift_in len c) cs

-- The bytes at positions from one on.
unfoldable pub read_at : Text → ℕ → ℕ → Option Text
read_at line at zero = some []
read_at line at (suc n) =
    get_elem? line at >>= (λ c. read_at line (at + 1) n >>= (λ cs. some (c ∷ cs)))

-- The length that len1 announces and the position behind it. The extended length of 64 bits is
-- shifted once more after its last byte.
unfoldable pub long_length : Text → ℕ
unfolding shift_all shift_in
long_length [] = 0
long_length (c ∷ cs) = shift_in (shift_all (c % 128) cs) 0

unfoldable pub extended : Text → ℕ → Option (ℕ × ℕ)
unfolding read_at shift_all long_length
extended line len1 =
    if len1 == 126
    then read_at line 2 2 >>= (λ cs. some (shift_all 0 cs, 4))
    else if len1 == 127
    then read_at line 2 8 >>= (λ cs. some (long_length cs, 10))
    else some (len1, 2)

unfoldable pub key_of : Text → Option MaskKey
key_of (a ∷ b ∷ c ∷ d ∷ []) = some (record { key_0 = a; key_1 = b; key_2 = c; key_3 = d })
key_of cs = none

unfoldable pub read_key : Text → ℕ → Option MaskKey
unfolding read_at key_of
read_key line at = read_at line at 4 >>= key_of

-- for (i = 0; i < len; i++) line[in + i] ^= key[i % 4]
unfoldable pub unmask : MaskKey → ℕ → ℕ → Text → Option Text
unfolding key_at
unmask key i zero cs = some []
unmask key i (suc n) [] = none
unmask key i (suc n) (c ∷ cs) =
    unmask key (i + 1) n cs >>= (λ rest. some (bit_xor c (key_at key i) ∷ rest))

-- What is left of a text in front of its first NUL.
unfoldable pub c_string : Text → Text
c_string [] = []
c_string (c ∷ cs) = let rest = c_string cs in if c == 0 then [] else c ∷ rest

unfoldable pub has_newline : Text → Bool
has_newline [] = false
has_newline (c ∷ cs) = c == b'\n' || has_newline cs

-- What goes to the engine: the payload up to a NUL, ended by a new line if it has none.
unfoldable pub line_for_engine : Text → Text
unfolding c_string has_newline
line_for_engine payload =
    if has_newline (c_string payload) then c_string payload else c_string payload ++ crlf

-- The payload of that length at `at`. The buffer is written to one place behind it.
unfoldable pub decode_payload : Text → ℕ → ℕ → MaskKey → Framed
unfolding unmask line_for_engine
decode_payload line at len key = elim (get_elem? line (at + len)) [
  | none ↦ overrun
  | some c ↦ elim (unmask key 0 len (drop at line)) [
    | none ↦ overrun
    | some payload ↦ relayed (line_for_engine payload)
  ]
]

-- (lion64u_t)(size - in) < len, where size is an int: a negative one becomes the largest numbers.
unfoldable pub is_incomplete : ℕ → ℕ → ℕ → Bool
is_incomplete size at len = ltb ((size + 2 ^ 64 - at) % 2 ^ 64) len

unfoldable pub masked_payload : ℕ → Text → ℕ → ℕ → Framed
unfolding is_incomplete decode_payload read_key
masked_payload size line len at = elim (read_key line at) [
  | none ↦ overrun
  | some key ↦
      if is_incomplete size (at + 4) len then dropped else decode_payload line (at + 4) len key
]

-- The opcodes that are reserved.
unfoldable pub is_reserved : ℕ → Bool
is_reserved opcode = leb 3 opcode && leb opcode 7 || leb 11 opcode

unfoldable pub masked_frame : ℕ → Text → ℕ → ℕ → Framed
unfolding extended masked_payload is_reserved
masked_frame size line opcode len1 =
    if opcode == 8
    then closed
    else if is_reserved opcode
    then disconnected
    else elim (extended line len1) [
      | none ↦ overrun
      | some (len, at) ↦ masked_payload size line len at
    ]

unfoldable pub framed_bytes : ℕ → Text → Framed
unfolding masked_frame
framed_bytes size (b0 ∷ b1 ∷ cs) =
    if ltb b1 128 then disconnected else masked_frame size (b0 ∷ b1 ∷ cs) (b0 % 16) (b1 % 128)
framed_bytes size line = overrun

-- `line` is the memory of the buffer, of which `size` bytes have been received.
unfoldable pub framed_binary : ℕ → Text → Framed
unfolding framed_bytes
framed_binary size line = if leb 4 size then framed_bytes size line else dropped

-- The frame that a line of the engine is sent in. Nothing is sent for a line of 65534 or more.
unfoldable pub server_frame : Text → Option Text
server_frame line =
    let size = length line in
    if ltb size 124
    then some (0x81 ∷ (size + 2) ∷ (line ++ crlf))
    else if ltb size 65534
    then some (0x81 ∷ 126 ∷ ((size + 2) / 256 % 256) ∷ ((size + 2) % 256) ∷ (line ++ crlf))
    else none
