-- ===== src/Soroban/Tests.antt =====
-- The theorems at concrete inputs.
use mathlib.Core.Path.{subst}
use stow.Prelude.{
  ℕ, zero, suc, ◌<◌, ◌≡◌, ◌⊎◌, refl, true, false, Option, none, some, [], ◌∷◌, arith, ◌+◌,
}
use stow.Events.{Topic}
use stow.Projection.Sample.{sample_data}
use stow.Indexer.{ledger_key, get_checkpoint, start_ledger, fetch_and_persist_events}
use stow.Indexer.Sample.{sample_stores, empty_indexer}
use stow.Soroban.Retry.{IsTransient, settled, last_error, with_retry_lem}
use stow.Soroban.Ends.{IsReadable, get_events-ends}
use stow.Soroban.Interrupted.{get_events_interrupted}
use stow.Soroban.{RpcBody, PageState, Client, get_events, max_events, page_of_state}
use stow.Soroban.Normal.{is_text, is_object, RawEvent, normalize_event, normalize_all}
use stow.Soroban.Calls.{
  RpcError, is_transient_rpc_error, Attempt, returns, throws, answered, thrown, retry_from,
  with_retry,
}

-- ECONNRESET, and a refusal.
abbrev reset : RpcError
reset = record {
  is_error = true;
  is_type_error = false;
  is_abort = false;
  cause_code = some 0;
  http_status = none;
}

abbrev refusal : RpcError
refusal = record reset { cause_code = none; http_status = some 400 }

abbrev raw_event : RawEvent
raw_event = record {
  id = some 7;
  made_up = 0;
  ledger = some 11;
  topic = is_text Topic.deposit ∷ [];
  value = is_object sample_data;
  tx_hash = none;
}

abbrev one_event : RpcBody
one_event = record {
  is_failure = false;
  events = raw_event ∷ [];
  latest_ledger = some 15;
  cursor = none;
}

-- The first page comes at the second attempt, and the request after the cursor is refused.
abbrev sample_request : ℕ → Option ℕ → ℕ → Attempt RpcBody
sample_request from none zero = throws reset
sample_request from none (suc i) = returns one_event
sample_request from (some cursor) i = throws refusal

abbrev sample_client : Client
sample_client = record {
  max_attempts = 3;
  page_size = 1;
  empty = sample_data;
  request = sample_request;
}

answered_is :
    (k : Option ℕ) (f : ℕ) (body : RpcBody)
    → (with_retry 3 (sample_request 10 k) f).0 ≡ answered body
    → IsReadable sample_data body
unfolding with_retry retry_from is_transient_rpc_error normalize_all normalize_event
answered_is none f body e =
    let is : one_event ≡ body = cc in subst (IsReadable sample_data) is (λ h. omega arith)
answered_is (some k) f body e = absurd cc

with_retry_lem_example :
    ((k : ℕ) × (k < 3)
      × ((j : ℕ) → j < k → IsTransient (sample_request 10 none j))
      × ¬ (IsTransient (sample_request 10 none k))
      × (with_retry 3 (sample_request 10 none) 2 ≡ settled (sample_request 10 none k) 2))
    ⊎ (((j : ℕ) → j < 3 → IsTransient (sample_request 10 none j))
        × (with_retry 3 (sample_request 10 none) 2
            ≡ (thrown (last_error (sample_request 10 none) 3), 2 + 1)))
with_retry_lem_example = with_retry_lem 3 (sample_request 10 none) 2

get_events-ends_example :
    (r : PageState) × (get_events (suc max_events) sample_client 10 none 0 ≡ some r)
get_events-ends_example = get_events-ends sample_client 10 none 0 answered_is

get_events_interrupted_example :
    (r : PageState) × (get_events 2 sample_client 10 none 0 ≡ some r)
    × (r.accumulated ≡ normalize_all sample_data (raw_event ∷ []))
    × (let after =
          (fetch_and_persist_events sample_stores (λ _. page_of_state r) empty_indexer).1 in
        15 < start_ledger sample_stores (get_checkpoint sample_stores ledger_key after.checkpoints))
unfolding with_retry retry_from is_transient_rpc_error normalize_all normalize_event
get_events_interrupted_example =
    get_events_interrupted sample_client 10 sample_stores empty_indexer 0 0 0 0 one_event 15 7
      (some refusal) refl
      (record {
        fine = refl;
        not_empty = refl;
        at_latest = refl;
        below_tip = refl;
        goes_on = refl;
        has_room = omega arith;
      })
      refl
