-- ===== src/Http/Frame/Masking.antt =====
-- The mask of a frame: taking it off a payload that was masked, byte by byte, gives the payload.
use Prim.Native.Nat.{bit_xor}
use fxp_one.Prelude.{
  ℕ, zero, suc, ◌+◌, ◌<◌, Bool, true, ◌&&◌, [], ◌∷◌, ◌++◌, some, Text, ◌==◌, length, get_elem?,
  drop, ◌≡◌, refl, arith, ap, ◌∙◌,
}
use fxp_one.Http.Frame.{relayed, MaskKey, key_at, unmask, decode_payload, line_for_engine}

abbrev pub IsBytes : Text → Type 0
IsBytes [] = Unit
IsBytes (c ∷ cs) = (c < 256) × IsBytes cs

pub record IsKey (key : MaskKey) : Type 0 where
  pub byte_0 : key.key_0 < 256
  pub byte_1 : key.key_1 < 256
  pub byte_2 : key.key_2 < 256
  pub byte_3 : key.key_3 < 256

-- Every value below a bound passes a test.
all_below : ℕ → (ℕ → Bool) → Bool
all_below zero p = true
all_below (suc n) p = p n && all_below n p

all_below-at : (n : ℕ) (p : ℕ → Bool) (x : ℕ) → all_below n p ≡ true → x < n → p x ≡ true
unfolding all_below
all_below-at zero p x h lt = absurd (omega arith)
all_below-at (suc n) p x h lt = ground (arith, all_below-at n p x)

toggles : ℕ → ℕ → Bool
toggles k c = bit_xor (bit_xor c k) k == c

toggles_table : all_below 256 (λ k. all_below 256 (toggles k)) ≡ true
unfolding all_below toggles
toggles_table = refl

toggles-byte : (k c : ℕ) → k < 256 → c < 256 → toggles k c ≡ true
toggles-byte k c hk hc =
    all_below-at 256 (toggles k) c
      (all_below-at 256 (λ k. all_below 256 (toggles k)) k toggles_table hk) hc

bit_xor_twice : (k c : ℕ) → k < 256 → c < 256 → bit_xor (bit_xor c k) k ≡ c
unfolding toggles
bit_xor_twice k c hk hc = ground (arith, toggles-byte k c hk hc)

key_at-byte : (key : MaskKey) (i : ℕ) → IsKey key → key_at key i < 256
unfolding key_at
key_at-byte key i h = ground (arith, h.byte_0, h.byte_1, h.byte_2, h.byte_3)

-- Octet i of the payload is transformed by octet i mod 4 of the key.
unfoldable pub mask : MaskKey → ℕ → Text → Text
mask key i [] = []
mask key i (c ∷ cs) = bit_xor c (key_at key i) ∷ mask key (i + 1) cs

pub unmask-mask :
    (key : MaskKey) (i : ℕ) (payload rest : Text)
    → IsKey key
    → IsBytes payload
    → unmask key i (length payload) (mask key i payload ++ rest) ≡ some payload
unfolding unmask mask
unmask-mask key i [] rest hk hp = refl
unmask-mask key i (c ∷ cs) rest hk hp =
    rw
      (
        unmask-mask key (i + 1) cs rest hk hp.1,
        bit_xor_twice (key_at key i) c (key_at-byte key i hk) hp.0,
      )
      refl

pub length-mask :
    (key : MaskKey) (i : ℕ) (payload : Text) → length (mask key i payload) ≡ length payload
unfolding mask
length-mask key i [] = refl
length-mask key i (c ∷ cs) = ap suc (length-mask key (i + 1) cs)

get_elem?-behind :
    (xs : Text) (c : ℕ) (ys : Text) (n : ℕ) → length xs ≡ n → get_elem? (xs ++ (c ∷ ys)) n ≡ some c
get_elem?-behind [] c ys zero h = refl
get_elem?-behind [] c ys (suc n) h = absurd (omega arith)
get_elem?-behind (x ∷ xs) c ys zero h = absurd (omega arith)
get_elem?-behind (x ∷ xs) c ys (suc n) h = get_elem?-behind xs c ys n (omega arith)

suc-add : (m n : ℕ) → suc m + n ≡ suc (m + n)
suc-add m n = omega arith

get_elem?-drop : (line : Text) (at n : ℕ) → get_elem? line (at + n) ≡ get_elem? (drop at line) n
get_elem?-drop line zero n = ap (get_elem? line) (omega arith)
get_elem?-drop [] (suc at) n = refl
get_elem?-drop (c ∷ cs) (suc at) n = ap (get_elem? (c ∷ cs)) (suc-add at n) ∙ get_elem?-drop cs at n

-- A masked payload, with a byte of the buffer behind it, is decoded.
pub decode_payload-mask :
    (line : Text) (at : ℕ) (key : MaskKey) (payload : Text) (c : ℕ) (rest : Text)
    → drop at line ≡ mask key 0 payload ++ (c ∷ rest)
    → IsKey key
    → IsBytes payload
    → decode_payload line at (length payload) key ≡ relayed (line_for_engine payload)
unfolding decode_payload
decode_payload-mask line at key payload c rest e hk hp =
    rw
      (
        decode_payload,
        get_elem?-drop line at (length payload),
        e,
        get_elem?-behind (mask key 0 payload) c rest (length payload) (length-mask key 0 payload),
        e,
        unmask-mask key 0 payload (c ∷ rest) hk hp,
      )
      refl
