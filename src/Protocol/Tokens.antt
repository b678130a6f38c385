-- ===== src/Protocol/Tokens.antt =====
-- How many places QDEL reads.
use fxp_one.Prelude.{
  ℕ, zero, suc, ◌≤◌, [], ◌∷◌, none, Text, codes, length, ◌≡◌, refl, arith, ◌>>=◌, Option-cases, inl,
  inr,
}
use fxp_one.Lion.{Lion, TokensShrink}
use fxp_one.Queue.Types.{Queue}
use fxp_one.Queue.Requests.{queue_del}
use fxp_one.Protocol.State.{Daemon}
use fxp_one.Protocol.Queues.{del_tokens, changed}

module _ (user : ℕ) (lion : Lion) (shrinks : TokensShrink lion) where
  abbrev separators : Text
  separators = b',' ∷ 13 ∷ 10 ∷ []

  nothing_left : (at : Text) → length at ≤ 0 → lion.digtoken separators at ≡ none
  nothing_left at empty = elim (Option-cases (lion.digtoken separators at)) [
    | inl e ↦ e
    | inr ((word, rest), e) ↦ absurd (omega (arith, shrinks.rest-shorter separators at word rest e))
  ]

  -- What is counted for the tokens, the number of bytes or more, makes no difference.
  pub del_tokens-enough :
      (n m : ℕ) (at : Text) (q : Queue) (d : Daemon)
      → length at ≤ n
      → length at ≤ m
      → del_tokens user lion n at q d ≡ del_tokens user lion m at q d
  unfolding del_tokens
  del_tokens-enough zero zero at q d a b = refl
  del_tokens-enough zero (suc m) at q d a b = rw (del_tokens, nothing_left at a) refl
  del_tokens-enough (suc n) zero at q d a b = rw (del_tokens, nothing_left at b) refl
  del_tokens-enough (suc n) (suc m) at q d a b = elim (Option-cases (lion.digtoken separators at)) [
    | inl e ↦ rw (del_tokens, e) refl
    | inr ((pos, rest), e) ↦
        let shorter = shrinks.rest-shorter separators at pos rest e in
        rw (del_tokens, e)
          (λ i. changed user (codes "QDEL") (queue_del q pos) d >>= (λ d'.
            del_tokens-enough n m rest (queue_del q pos).0 d' (omega (arith, shorter))
              (omega (arith, shorter)) i))
  ]
