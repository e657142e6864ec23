-- ===== src/Webhooks.antt =====
-- backend/src/webhooks/services/webhook-dispatcher.service.ts: outgoing webhooks are queued as
-- delivery logs and attempted, with a delay between attempts. Logging is left out. `max_attempts` is
-- `WEBHOOK_MAX_ATTEMPTS`, and times are in milliseconds.
pub mod State
pub mod Bounds
pub mod Waiting
pub mod Inbound
mod Tests
use stow.Prelude.{
  ℕ, suc, ◌+◌, ◌-◌, ◌*◌, ◌^◌, min, Bool, true, false, Option, none, some, List, [], ◌∷◌, leb, ltb,
  ◌==◌, ◌&&◌, ◌||◌, select, if◌then◌else◌,
}
use State.{DeliveryStatus, DeliveryLog, Endpoint, Outcome, WebhookStores, Webhooks}

-- `Math.min(Math.pow(2, attempt - 1) * 1000, 3600000)`, at an attempt of 1 or more
abbrev pub backoff : ℕ → ℕ
backoff attempt = min (2 ^ (attempt - 1) * 1000) 3_600_000

pub schedule_retry : ℕ → ℕ → ℕ → DeliveryLog → DeliveryLog
schedule_retry max_attempts now attempt log =
    if leb max_attempts attempt
    then record log { status = DeliveryStatus.failed; next_retry_at = none }
    else record log { next_retry_at = some (now + backoff attempt) }

abbrev pub count_failure : ℕ → Endpoint → Endpoint
count_failure now endpoint = record endpoint {
  last_failure_at = some now;
  failure_count = endpoint.failure_count + 1;
}

-- `'response' in error`, and then `response?.status || null`
abbrev pub with_response : Option (Option ℕ) → DeliveryLog → DeliveryLog
with_response none log = log
with_response (some code) log = record log { http_status_code = code }

-- A log and its endpoint after an attempt with the given outcome.
pub deliver : ℕ → ℕ → ℕ → Outcome → DeliveryLog → Endpoint → DeliveryLog × Endpoint
unfolding schedule_retry
deliver max_attempts now attempt (Outcome.responds code) log endpoint =
    if leb 200 code && ltb code 300
    then (
      record log {
        status = DeliveryStatus.success;
        http_status_code = some code;
        delivered_at = some now;
      },
      record endpoint { last_delivery_at = some now; failure_count = 0 },
    )
    else (schedule_retry max_attempts now attempt log, count_failure now endpoint)
deliver max_attempts now attempt (Outcome.throws message response) log endpoint = (
  with_response response
      (record (schedule_retry max_attempts now attempt log) { error_message = some message }),
  count_failure now endpoint,
)

-- `attemptDelivery`, up to the two saves
pub attempted : ℕ → ℕ → Outcome → DeliveryLog → Endpoint → DeliveryLog × Endpoint
unfolding deliver
attempted max_attempts now outcome log endpoint =
    let (l, p) = deliver max_attempts now (log.attempt_count + 1) outcome log endpoint in
    (record l { attempt_count = log.attempt_count + 1 }, p)

-- `!log.next_retry_at || log.next_retry_at <= now`
abbrev pub is_due : ℕ → Option ℕ → Bool
is_due now none = true
is_due now (some at) = leb at now

abbrev pub includes : ℕ → List ℕ → Bool
includes x [] = false
includes x (y ∷ ys) = x == y || includes x ys

module _ (t : WebhookStores) (max_attempts : ℕ) where
  -- `createDeliveryLog`, with the identifier that the database gives
  pub create_delivery_log : ℕ → ℕ → ℕ → Endpoint → Webhooks t → Webhooks t
  create_delivery_log now event_type payload endpoint s = record s {
    logs =
        t.logs.save
          (record {
            id = s.next_id;
            endpoint = endpoint.id;
            event_type = event_type;
            payload = payload;
            status = DeliveryStatus.pending;
            attempt_count = 0;
            http_status_code = none;
            error_message = none;
            next_retry_at = some now;
            delivered_at = none;
          })
          s.logs;
    next_id = suc s.next_id;
  }

  pub create_all : ℕ → ℕ → ℕ → List Endpoint → Webhooks t → Webhooks t
  unfolding create_delivery_log
  create_all now event_type payload [] s = s
  create_all now event_type payload (p ∷ ps) s =
      create_all now event_type payload ps (create_delivery_log now event_type payload p s)

  -- `emit`, where `find_active` is the query for the active endpoints
  pub emit : ℕ → ℕ → ℕ → Webhooks t → Webhooks t
  unfolding create_all
  emit now event_type payload s =
      create_all now event_type payload
        (select (λ p. includes event_type p.event_types) (t.find_active s.endpoints)) s

  pub attempt_delivery :
      ℕ → (DeliveryLog → Endpoint → Outcome) → DeliveryLog → Endpoint → Webhooks t → Webhooks t
  unfolding attempted
  attempt_delivery now post log endpoint s =
      let (l, p) = attempted max_attempts now (post log endpoint) log endpoint in
      record s { logs = t.logs.save l s.logs; endpoints = t.endpoints.save p s.endpoints }

  -- The loop over the logs that are due.
  pub attempt_due :
      ℕ
      → (DeliveryLog → Endpoint → Outcome)
      → List (DeliveryLog × Endpoint)
      → Webhooks t
      → Webhooks t
  unfolding attempt_delivery
  attempt_due now post [] s = s
  attempt_due now post ((log, endpoint) ∷ rest) s =
      attempt_due now post rest
        (if is_due now log.next_retry_at then attempt_delivery now post log endpoint s else s)

  -- `processPendingDeliveries`; `post` is the outcome of each request.
  pub process_pending_deliveries : ℕ → (DeliveryLog → Endpoint → Outcome) → Webhooks t → Webhooks t
  unfolding attempt_due
  process_pending_deliveries now post s = attempt_due now post (t.find_pending s.logs s.endpoints) s
