-- ===== src/Http/Frame/Decoding.antt =====
-- What http_framed_handler gives the engine of a frame of a client.
use fxp_one.Prelude.{
  ℕ, ◌+◌, ◌-◌, ◌/◌, ◌%◌, ◌^◌, ◌≤◌, ◌<◌, true, false, ◌∷◌, ◌++◌, some, Text, leb, ◌==◌, length, drop,
  ◌≡◌, refl, arith, inl, inr, Bool-cases, ap, ◌∙◌,
}
use fxp_one.Http.Frame.{
  relayed, MaskKey, line_for_engine, is_incomplete, masked_payload, masked_frame, framed_bytes,
  framed_binary, is_reserved, extended, read_key, read_at, shift_all, shift_in, key_of,
}
use fxp_one.Http.Frame.Masking.{mask, IsKey, IsBytes, decode_payload-mask, length-mask}
use fxp_one.Http.Frame.Client.{
  client_frame, key_bytes, is_passed, client_frame-short, client_frame-long,
}

is_passed-reserved :
    (opcode : ℕ)
    → is_passed opcode ≡ true
    → ((opcode == 8) ≡ false) × (is_reserved opcode ≡ false) × (opcode < 16)
unfolding is_passed is_reserved
is_passed-reserved opcode h = (ground arith, ground arith, ground arith)

is_incomplete-whole :
    (size at len : ℕ) → at + len ≤ size → size < 2 ^ 31 → is_incomplete size at len ≡ false
unfolding is_incomplete
is_incomplete-whole size at len h b =
    let e : (size + 2 ^ 64 - at) % 2 ^ 64 ≡ size - at = omega arith in rw e (ground arith)

two_bytes : (n : ℕ) → n < 2 ^ 16 → shift_in (shift_in 0 (n / 256)) (n % 256) ≡ n
unfolding shift_in
two_bytes n h = omega arith

is_incomplete-negative :
    (size at len : ℕ) → size < at → len + at ≤ 2 ^ 64 → is_incomplete size at len ≡ false
unfolding is_incomplete
is_incomplete-negative size at len h b =
    let e : (size + 2 ^ 64 - at) % 2 ^ 64 ≡ 2 ^ 64 - (at - size) = omega arith in
    rw e (ground arith)

module _ (opcode size : ℕ) (passed : is_passed opcode ≡ true) where
  -- The handler finds the head of the frame, and goes on to the payload.
  pub framed_binary-masked :
      (len : ℕ) (cs : Text)
      → 4 ≤ size
      → len < 128
      → framed_binary size ((128 + opcode) ∷ (128 + len) ∷ cs)
        ≡ masked_frame size ((128 + opcode) ∷ (128 + len) ∷ cs) opcode len
  unfolding framed_binary framed_bytes
  framed_binary-masked len cs w b =
      let known : opcode < 16 = (is_passed-reserved opcode passed).2 in
      let o : (128 + opcode) % 16 ≡ opcode = omega (arith, known) in
      let m : (128 + len) % 128 ≡ len = omega arith in rw (o, m) (ground arith)

  pub masked_frame-extended :
      (line : Text) (len1 len at : ℕ)
      → extended line len1 ≡ some (len, at)
      → masked_frame size line opcode len1 ≡ masked_payload size line len at
  unfolding masked_frame
  masked_frame-extended line len1 len at e =
      rw ((is_passed-reserved opcode passed).0, (is_passed-reserved opcode passed).1, e) refl

module _ (opcode : ℕ) (key : MaskKey) (payload : Text) (size c : ℕ) (rest : Text)
    (passed : is_passed opcode ≡ true) (byte_key : IsKey key) (bytes : IsBytes payload)
    (small : size < 2 ^ 31) where
  masked_payload-mask :
      (line : Text) (at : ℕ)
      → read_key line at ≡ some key
      → drop (at + 4) line ≡ mask key 0 payload ++ (c ∷ rest)
      → is_incomplete size (at + 4) (length payload) ≡ false
      → masked_payload size line (length payload) at ≡ relayed (line_for_engine payload)
  unfolding masked_payload
  masked_payload-mask line at k e w =
      rw
        (
          masked_payload,
          k,
          w,
          decode_payload-mask line (at + 4) key payload c rest e byte_key bytes,
        )
        refl

  short_frame :
      length payload ≤ 125
      → 4 ≤ size
      → is_incomplete size 6 (length payload) ≡ false
      → framed_binary size (
          (128 + opcode)
          ∷ (128 + length payload)
          ∷ (key_bytes key ++ (mask key 0 payload ++ (c ∷ rest))))
        ≡ relayed (line_for_engine payload)
  unfolding extended read_key read_at key_of key_bytes
  short_frame h m w =
      framed_binary-masked opcode size passed (length payload) _ m (omega arith)
      ∙ masked_frame-extended opcode size passed _ (length payload) (length payload) 2
          (ground arith)
      ∙ masked_payload-mask _ 2 refl refl w

  long_frame :
      125 < length payload
      → length payload < 2 ^ 16
      → length payload + 8 ≤ size
      → framed_binary size (
          (128 + opcode)
          ∷ (128 + 126)
          ∷ (length payload / 256)
          ∷ (length payload % 256)
          ∷ (key_bytes key ++ (mask key 0 payload ++ (c ∷ rest))))
        ≡ relayed (line_for_engine payload)
  unfolding extended read_key read_at key_of key_bytes shift_all shift_in
  long_frame h b w =
      framed_binary-masked opcode size passed 126 _ (omega arith) (omega arith)
      ∙ masked_frame-extended opcode size passed _ 126 (length payload) 4
          (ap (λ (n : ℕ). some (n, 4)) (two_bytes (length payload) b))
      ∙ masked_payload-mask _ 4 refl refl
          (is_incomplete-whole size 8 (length payload) (omega arith) small)

  -- Of a frame of data, or a PING or PONG, with at most 125 bytes, of which four or five bytes have
  -- come in, the rest of the mask and the payload are read from what the buffer holds behind them,
  -- and given to the engine.
  pub framed_binary-stale :
      length payload ≤ 125
      → 4 ≤ size
      → size < 6
      → framed_binary size (client_frame opcode key payload ++ (c ∷ rest))
        ≡ relayed (line_for_engine payload)
  unfolding key_bytes
  framed_binary-stale h m w =
      rw (client_frame-short opcode key payload (ground arith))
        (short_frame h m (is_incomplete-negative size 6 (length payload) w (omega arith)))

  -- A frame that has come in whole is given to the engine unmasked, whatever follows it.
  pub framed_binary-client_frame :
      length payload < 2 ^ 16
      → length (client_frame opcode key payload) ≤ size
      → framed_binary size (client_frame opcode key payload ++ (c ∷ rest))
        ≡ relayed (line_for_engine payload)
  unfolding key_bytes
  framed_binary-client_frame b w = elim (Bool-cases (leb (length payload) 125)) [
    | inl e ↦
        let f = client_frame-short opcode key payload e in
        rw f (
          short_frame (ground arith) (omega (arith, ap length f)) (
            is_incomplete-whole size 6 (length payload)
              (omega (arith, ap length f, length-mask key 0 payload)) small))
    | inr e ↦
        let f = client_frame-long opcode key payload e (ground arith) in
        rw f (long_frame (ground arith) b (omega (arith, ap length f, length-mask key 0 payload)))
  ]
