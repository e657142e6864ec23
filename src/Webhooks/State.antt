-- ===== src/Webhooks/State.antt =====
-- The rows of the outgoing webhooks (backend/src/webhooks/entities/), without the columns that the
-- database fills in, and what an HTTP request comes to.
use stow.Prelude.{ℕ, ◌≡◌, Bool, Option, some, List, All}
use stow.Prelude.Table.{Table}

pub data DeliveryStatus : Type 0 where
  pending success failed : DeliveryStatus

-- webhook-delivery-log.entity.ts; `endpoint` is the foreign key.
pub record DeliveryLog : Type 0 where
  pub id : ℕ
  pub endpoint : ℕ
  pub event_type : ℕ
  pub payload : ℕ
  pub status : DeliveryStatus
  pub attempt_count : ℕ
  pub http_status_code : Option ℕ
  pub error_message : Option ℕ
  pub next_retry_at : Option ℕ
  pub delivered_at : Option ℕ

-- webhook-endpoint.entity.ts
pub record Endpoint : Type 0 where
  pub id : ℕ
  pub url : ℕ
  pub event_types : List ℕ
  pub secret_key : ℕ
  pub is_active : Bool
  pub failure_count : ℕ
  pub last_delivery_at : Option ℕ
  pub last_failure_at : Option ℕ

abbrev pub log_id : DeliveryLog → ℕ
log_id l = l.id

abbrev pub endpoint_id : Endpoint → ℕ
endpoint_id p = p.id

-- The request answers with a status code, or it throws a message: then the error may carry a
-- response, and the response a status code.
pub data Outcome : Type 0 where
  responds : ℕ → Outcome
  throws : ℕ → Option (Option ℕ) → Outcome

-- The two tables. `find_pending` is the query of `processPendingDeliveries`: logs with status
-- 'pending', a batch of them, each with its endpoint as it is stored at that moment.
pub record WebhookStores : Type 1 where
  pub logs : Table DeliveryLog log_id
  pub endpoints : Table Endpoint endpoint_id
  pub find_active : endpoints.Store → List Endpoint
  pub find_pending : logs.Store → endpoints.Store → List (DeliveryLog × Endpoint)
  pub find_pending-pending :
      (s : logs.Store) (p : endpoints.Store)
      → All (λ x. x.0.status ≡ DeliveryStatus.pending) (find_pending s p)
  pub find_pending-find_one :
      (s : logs.Store) (p : endpoints.Store)
      → All (λ x. logs.find_one x.0.id s ≡ some x.0) (find_pending s p)

pub record Webhooks (t : WebhookStores) : Type 0 where
  pub logs : t.logs.Store
  pub endpoints : t.endpoints.Store
  -- what the database gives the next row
  pub next_id : ℕ
