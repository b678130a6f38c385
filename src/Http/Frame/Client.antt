-- ===== src/Http/Frame/Client.antt =====
-- The frames of a WebSocket client, as RFC 6455 describes them.
use fxp_one.Prelude.{
  ℕ, ◌+◌, ◌/◌, ◌%◌, ◌^◌, Bool, true, false, ◌||◌, [], ◌∷◌, ◌++◌, Text, ltb, leb, ◌==◌,
  if◌then◌else◌, length, ◌≡◌, refl,
}
use fxp_one.Http.Frame.{MaskKey}
use fxp_one.Http.Frame.Masking.{mask}

-- The head of a frame for each of the three sizes of a length, which is below 2^32, and the frame.
unfoldable pub four_bytes : ℕ → Text
four_bytes len = (len / 2 ^ 24) ∷ (len / 65536 % 256) ∷ (len / 256 % 256) ∷ (len % 256) ∷ []

unfoldable pub head : ℕ → ℕ → Text
unfolding four_bytes
head opcode len =
    if leb len 125
    then (128 + opcode) ∷ (128 + len) ∷ []
    else if ltb len 65536
    then (128 + opcode) ∷ (128 + 126) ∷ (len / 256) ∷ (len % 256) ∷ []
    else (128 + opcode) ∷ (128 + 127) ∷ (0 ∷ 0 ∷ 0 ∷ 0 ∷ four_bytes len)

unfoldable pub key_bytes : MaskKey → Text
key_bytes key = key.key_0 ∷ key.key_1 ∷ key.key_2 ∷ key.key_3 ∷ []

unfoldable pub client_frame : ℕ → MaskKey → Text → Text
unfolding mask head key_bytes
client_frame opcode key payload =
    head opcode (length payload) ++ key_bytes key ++ mask key 0 payload

module _ (opcode : ℕ) (key : MaskKey) (payload : Text) where
  pub client_frame-short :
      leb (length payload) 125 ≡ true
      → client_frame opcode key payload
        ≡ (128 + opcode) ∷ (128 + length payload) ∷ (key_bytes key ++ mask key 0 payload)
  unfolding client_frame head key_bytes
  client_frame-short e = rw e refl

  pub client_frame-long :
      leb (length payload) 125 ≡ false
      → ltb (length payload) 65536 ≡ true
      → client_frame opcode key payload
        ≡ (128 + opcode)
          ∷ (128 + 126)
          ∷ (length payload / 256)
          ∷ (length payload % 256)
          ∷ (key_bytes key ++ mask key 0 payload)
  unfolding client_frame head key_bytes
  client_frame-long e s = rw (e, s) refl

  pub client_frame-longest :
      leb (length payload) 125 ≡ false
      → ltb (length payload) 65536 ≡ false
      → client_frame opcode key payload
        ≡ (128 + opcode)
          ∷ (128 + 127)
          ∷ (0 ∷ 0 ∷ 0 ∷ 0 ∷ (four_bytes (length payload) ++ (key_bytes key ++ mask key 0 payload)))
  unfolding client_frame head key_bytes four_bytes
  client_frame-longest e s = rw (e, s) refl

-- Frames of data, and PING and PONG.
unfoldable pub is_passed : ℕ → Bool
is_passed opcode = leb opcode 2 || opcode == 9 || opcode == 10
