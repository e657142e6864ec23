-- ===== src/Soroban/Calls.antt =====
-- backend/src/soroban/soroban.service.ts: the retries of a call of the RPC (`withRetry`).
use stow.Prelude.{
  ℕ, zero, suc, ◌+◌, Bool, false, Option, none, some, leb, ltb, ◌==◌, ◌&&◌, ◌||◌, if◌then◌else◌,
}

-- What is thrown, as `isTransientRpcError` looks at it: the two `instanceof` tests, the name
-- 'AbortError', the code of the cause where it is a text, and the status in the first `HTTP ddd`
-- of the message.
pub record RpcError : Type 0 where
  pub is_error : Bool
  pub is_type_error : Bool
  pub is_abort : Bool
  pub cause_code : Option ℕ
  pub http_status : Option ℕ

-- ECONNRESET, ECONNREFUSED, ETIMEDOUT, ENOTFOUND, EPIPE, EHOSTUNREACH and EAI_AGAIN, in this order;
-- any other code is a number from 7.
abbrev pub is_network_code : Option ℕ → Bool
is_network_code none = false
is_network_code (some code) = ltb code 7

abbrev pub is_transient_status : Option ℕ → Bool
is_transient_status none = false
is_transient_status (some status) = status == 429 || (leb 500 status && leb status 599)

unfoldable pub is_transient_rpc_error : RpcError → Bool
is_transient_rpc_error e =
    e.is_error
    && (e.is_type_error
        || (e.is_abort || (is_network_code e.cause_code || is_transient_status e.http_status)))

-- One call: it returns or throws.
pub data Attempt (A : Type 0) : Type 0 where
  returns : A → Attempt A
  throws : RpcError → Attempt A

-- What `withRetry` comes to; without any attempt it throws `undefined`.
pub data Answer (A : Type 0) : Type 0 where
  answered : A → Answer A
  thrown : Option RpcError → Answer A

module _ {A : Type 0} where
  -- The loop from the attempt `i`, with `n` attempts left; the last error, and the count of
  -- consecutive failures. `call` is the outcome of each attempt.
  unfoldable pub retry_from : (ℕ → Attempt A) → ℕ → ℕ → Option RpcError → ℕ → Answer A × ℕ
  retry_from call zero i last failures = (thrown last, failures + 1)
  retry_from call (suc n) i last failures =
      let again = λ (e : RpcError). retry_from call n (suc i) (some e) failures in
      elim (call i) [
        | returns a ↦ (answered a, 0)
        | throws e ↦ if is_transient_rpc_error e then again e else (thrown (some e), failures)
      ]

  unfoldable pub with_retry : ℕ → (ℕ → Attempt A) → ℕ → Answer A × ℕ
  unfolding retry_from
  with_retry max_attempts call failures = retry_from call max_attempts 0 none failures

-- `RPC_UNHEALTHY_FAILURE_THRESHOLD`
abbrev pub is_rpc_healthy : ℕ → Bool
is_rpc_healthy failures = ltb failures 3
