-- ===== src/Http/Frame/Lost.antt =====
-- Frames whose length takes eight bytes.
use fxp_one.Prelude.{
  ℕ, ◌+◌, ◌-◌, ◌*◌, ◌%◌, ◌^◌, ◌≤◌, ◌<◌, true, ◌∷◌, ◌++◌, some, Text, length, ◌≡◌, refl, arith, ap,
  ◌∙◌,
}
use fxp_one.Http.Frame.{
  dropped, MaskKey, is_incomplete, masked_payload, framed_binary, extended, read_key, read_at,
  shift_all, shift_in, long_length, key_of,
}
use fxp_one.Http.Frame.Masking.{mask, length-mask}
use fxp_one.Http.Frame.Client.{client_frame, four_bytes, key_bytes, is_passed, client_frame-longest}
use fxp_one.Http.Frame.Decoding.{framed_binary-masked, masked_frame-extended}

four-long_length :
    (len : ℕ) → len < 2 ^ 32 → long_length (0 ∷ 0 ∷ 0 ∷ 0 ∷ four_bytes len) ≡ len * 256
unfolding long_length shift_all shift_in four_bytes
four-long_length len h = omega arith

extended-long :
    (opcode : ℕ) (key : MaskKey) (len : ℕ) (cs : Text)
    → len < 2 ^ 32
    → extended ((128 + opcode) ∷ (128 + 127) ∷ (0 ∷ 0 ∷ 0 ∷ 0 ∷ (four_bytes len ++ cs))) 127
      ≡ some (len * 256, 10)
unfolding extended read_at four_bytes
extended-long opcode key len cs h =
    ap (λ (n : ℕ). some (n, 10)) (unfold four_bytes in four-long_length len h)

is_incomplete-long :
    (len : ℕ) → 2 ^ 16 ≤ len → len < 2 ^ 31 → is_incomplete (len + 14) 14 (len * 256) ≡ true
unfolding is_incomplete
is_incomplete-long len h b =
    let e : (len + 14 + 2 ^ 64 - 14) % 2 ^ 64 ≡ len = omega arith in rw e (ground arith)

dropped-long :
    (opcode : ℕ) (key : MaskKey) (len : ℕ) (cs : Text)
    → is_passed opcode ≡ true
    → 2 ^ 16 ≤ len
    → len < 2 ^ 31
    → framed_binary
        (len + 14)
        ((128 + opcode) ∷ (128 + 127) ∷ (0 ∷ 0 ∷ 0 ∷ 0 ∷ (four_bytes len ++ (key_bytes key ++ cs))))
      ≡ dropped
unfolding masked_payload key_bytes four_bytes read_key read_at key_of
dropped-long opcode key len cs passed h b =
    framed_binary-masked opcode (len + 14) passed 127 _ (omega arith) (omega arith)
    ∙ masked_frame-extended opcode (len + 14) passed _ 127 (len * 256) 10
        (extended-long opcode key len (key_bytes key ++ cs) (omega arith))
    ∙ rw (is_incomplete-long len h b) refl

-- A frame of data, or a PING or PONG, whose length takes eight bytes and is below 2^31 is dropped
-- when it, and no more, has come in.
pub framed_binary-lost :
    (opcode : ℕ) (key : MaskKey) (payload rest : Text)
    → is_passed opcode ≡ true
    → 2 ^ 16 ≤ length payload
    → length payload < 2 ^ 31
    → framed_binary
        (length (client_frame opcode key payload))
        (client_frame opcode key payload ++ rest)
      ≡ dropped
unfolding four_bytes key_bytes
framed_binary-lost opcode key payload rest passed h b =
    let f = client_frame-longest opcode key payload (ground arith) (ground arith) in
    let n : length (client_frame opcode key payload) ≡ length payload + 14 =
      omega (arith, ap length f, length-mask key 0 payload) in
    rw (n, f) (dropped-long opcode key (length payload) (mask key 0 payload ++ rest) passed h b)
