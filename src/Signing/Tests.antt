-- ===== src/Signing/Tests.antt =====
-- The theorems at concrete inputs.
use stow.Prelude.{ℕ, zero, suc, ◌+◌, ◌%◌, ◌≡◌, refl, true, none, [], ◌∷◌, length, arith}
use stow.Prelude.Result.{ok}
use stow.Signing.Decimal.{Text, digits, to_text}
use stow.Signing.Accepts.{sign_request-can_activate}
use stow.Signing.{Crypto, SignedRequest, SignedHeaders, SignatureConfig, sign_request, can_activate}

abbrev repeat : ℕ → ℕ → Text
repeat zero c = []
repeat (suc n) c = c ∷ repeat n c

-- A digest that tells only the length, and a text as its own bytes.
abbrev length_crypto : Crypto
length_crypto = record {
  hmac_hex = λ secret contents. repeat 64 (48 + length contents % 10);
  from_hex = λ text. text;
}

abbrev config : SignatureConfig
config = record { secret = 115 ∷ []; tolerance_ms = none }

-- POST /a with the body {}
abbrev request : SignedRequest
request = record { method = 80 ∷ 79 ∷ 83 ∷ 84 ∷ []; path = 47 ∷ 97 ∷ []; body = 123 ∷ 125 ∷ [] }

sign_request-can_activate_example :
    (h : SignedHeaders) × (sign_request length_crypto (115 ∷ []) 1_000 (repeat 20 97) request
      ≡ ok h)
    × (can_activate length_crypto config true 900 request h ≡ ok true)
sign_request-can_activate_example =
    sign_request-can_activate length_crypto config 1_000 900 (repeat 20 97) request refl
      (λ secret contents. refl) (omega arith) (omega arith) (omega arith)

year_digits : to_text 2_026 ≡ 50 ∷ 48 ∷ 50 ∷ 54 ∷ []
unfolding to_text digits
year_digits = refl
