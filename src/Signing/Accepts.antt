-- ===== src/Signing/Accepts.antt =====
-- backend/src/common, services/request-signer.service.ts against
-- guards/request-signature.guard.ts: what the signer signs, before the guard.
use stow.Prelude.{
  ℕ, ◌+◌, ◌<◌, ◌≤◌, ◌≡◌, refl, ap, true, false, List, [], ◌∷◌, length, arith, ltb, ==_refl,
}
use stow.Prelude.Int.{pos, ◌-ℤ◌}
use stow.Prelude.Result.{ok}
use stow.Webhooks.Inbound.{same_bytes}
use stow.Signing.Decimal.{Text, to_text, to_text-cons, parse_int-to_text}
use stow.Signing.{
  Crypto, SignedRequest, SignedHeaders, SignatureConfig, is_empty, tolerance_of, canonical_string,
  sign_request, abs, equal_signatures, can_activate,
}

same_bytes_self : (xs : List ℕ) → same_bytes xs xs ≡ true
unfolding same_bytes
same_bytes_self [] = refl
same_bytes_self (x ∷ xs) = rw (==_refl x, same_bytes_self xs) refl

equal_signatures_self : (xs : List ℕ) → equal_signatures xs xs ≡ true
equal_signatures_self xs = rw (==_refl (length xs), same_bytes_self xs) refl

not_empty : (xs : Text) → 0 < length xs → is_empty xs ≡ false
not_empty [] h = absurd (omega arith)
not_empty (x ∷ xs) h = refl

close : (a b n : ℕ) → a ≤ b + n → b ≤ a + n → abs (pos a -ℤ pos b) ≤ n
unfolding ◌-ℤ◌
close a b n h k = ground arith

module _ (c : Crypto) (config : SignatureConfig) where
  -- What the signer signs at the time `now`, the guard accepts at a time `later` that is within the
  -- tolerance, earlier or later, where both have the same secret, the digest of any text has 64
  -- digits, the nonce has at least 16 characters, and the guard sees the request that was signed.
  pub sign_request-can_activate :
      (now later : ℕ) (nonce : Text) (r : SignedRequest)
      → is_empty config.secret ≡ false
      → ((secret contents : Text) → length (c.hmac_hex secret contents) ≡ 64)
      → 16 ≤ length nonce
      → later ≤ now + tolerance_of config.tolerance_ms
      → now ≤ later + tolerance_of config.tolerance_ms
      → (h : SignedHeaders) × (sign_request c config.secret now nonce r ≡ ok h)
        × (can_activate c config true later r h ≡ ok true)
  unfolding sign_request can_activate
  sign_request-can_activate now later nonce r secret digest long before after =
      let signature = c.hmac_hex config.secret (canonical_string r (to_text now) nonce) in
      let signed : is_empty signature ≡ false =
        not_empty signature
          (omega (arith, digest config.secret (canonical_string r (to_text now) nonce))) in
      let (d, ds, is) = to_text-cons now in
      let dated : is_empty (to_text now) ≡ false = ap is_empty is in
      let fresh : is_empty nonce ≡ false = not_empty nonce (omega arith) in
      let recent : ltb (tolerance_of config.tolerance_ms) (abs (pos later -ℤ pos now)) ≡ false =
        ground (arith, close later now (tolerance_of config.tolerance_ms) before after) in
      let enough : ltb (length nonce) 16 ≡ false = ground arith in
      (
        record { signature = signature; timestamp = to_text now; nonce = nonce },
        rw secret refl,
        rw
            (
              secret,
              signed,
              dated,
              fresh,
              parse_int-to_text now,
              recent,
              enough,
              equal_signatures_self (c.from_hex signature),
            )
            refl,
      )
