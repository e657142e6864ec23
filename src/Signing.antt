-- ===== src/Signing.antt =====
-- Signed requests: backend/src/common/services/request-signer.service.ts and
-- backend/src/common/guards/request-signature.guard.ts. A text is the list of its character codes;
-- Node's crypto and Buffer are parameters; logging is left out.
pub mod Decimal
pub mod Accepts
mod Tests
use stow.Prelude.{
  ℕ, Bool, true, false, not, Option, none, some, List, [], ◌∷◌, ◌++◌, length, ltb, ◌==◌, ◌||◌,
  if◌then◌else◌,
}
use stow.Prelude.Int.{ℤ, pos, ◌-ℤ◌, pos_part, neg_part}
use stow.Prelude.Result.{Result, ok, err, internal, unauthorized}
use stow.Webhooks.Inbound.{same_bytes}
use Decimal.{Text, to_text, parse_int}
use stow.Prelude.{◌+◌}

-- `createHmac('sha256', secret).update(data).digest('hex')` and `Buffer.from(text, 'hex')`
pub record Crypto : Type 0 where
  pub hmac_hex : Text → Text → Text
  pub from_hex : Text → List ℕ

-- What is signed of a request. The body is its JSON, empty where there is no body.
pub record SignedRequest : Type 0 where
  pub method : Text
  pub path : Text
  pub body : Text

-- `SignedRequestHeaders`; a header that is missing or empty is the empty text.
pub record SignedHeaders : Type 0 where
  pub signature : Text
  pub timestamp : Text
  pub nonce : Text

-- REQUEST_SIGNATURE_SECRET, empty where it is not set, and REQUEST_SIGNATURE_TOLERANCE_MS
pub record SignatureConfig : Type 0 where
  pub secret : Text
  pub tolerance_ms : Option ℕ

abbrev pub is_empty : Text → Bool
is_empty [] = true
is_empty (_ ∷ _) = false

-- `get(...) || 300000`
abbrev pub tolerance_of : Option ℕ → ℕ
tolerance_of none = 300_000
tolerance_of (some ms) = if ms == 0 then 300_000 else ms

-- The line feed between the parts.
abbrev pub canonical_string : SignedRequest → Text → Text → Text
canonical_string r timestamp nonce =
    r.method ++ (10 ∷ r.path ++ (10 ∷ timestamp ++ (10 ∷ nonce ++ (10 ∷ r.body))))

-- `signRequest`, at the time `now`; `nonce` is what `generateNonce` gives.
unfoldable pub sign_request : Crypto → Text → ℕ → Text → SignedRequest → Result SignedHeaders
sign_request c secret now nonce r =
    let timestamp = to_text now in
    if is_empty secret
    then err internal
    else ok (record {
      signature = c.hmac_hex secret (canonical_string r timestamp nonce);
      timestamp = timestamp;
      nonce = nonce;
    })

-- `Math.abs`
abbrev pub abs : ℤ → ℕ
abs z = pos_part z + neg_part z

abbrev pub equal_signatures : List ℕ → List ℕ → Bool
equal_signatures given computed =
    if not (length given == length computed) then false else same_bytes given computed

-- The rest of `canActivate` where the timestamp was read.
abbrev pub check_signature :
    Crypto → SignatureConfig → ℕ → SignedRequest → SignedHeaders → Option ℤ → Result Bool
check_signature c config now r h none = err unauthorized
check_signature c config now r h (some time) =
    if ltb (tolerance_of config.tolerance_ms) (abs (pos now -ℤ time))
    then err unauthorized
    else if ltb (length h.nonce) 16
    then err unauthorized
    else if equal_signatures (c.from_hex h.signature)
        (c.from_hex (c.hmac_hex config.secret (canonical_string r h.timestamp h.nonce)))
    then ok true
    else err unauthorized

-- `canActivate`, at the time `now`; `required` is the route's metadata.
unfoldable pub can_activate :
    Crypto → SignatureConfig → Bool → ℕ → SignedRequest → SignedHeaders → Result Bool
unfolding same_bytes ◌-ℤ◌
can_activate c config required now r h =
    if not required
    then ok true
    else if is_empty config.secret
    then err unauthorized
    else if is_empty h.signature || (is_empty h.timestamp || is_empty h.nonce)
    then err unauthorized
    else check_signature c config now r h (parse_int h.timestamp)
