-- ===== src/Webhooks/Tests.antt =====
-- The dispatcher on lists of rows: a delivery that fails and is given up.
use stow.Prelude.{
  ℕ, ◌≡◌, refl, ap, ◌∙◌, true, Option, none, some, List, [], ◌∷◌, All, arith, select,
}
use stow.Prelude.Table.{find_row, find_row-key, list_table}
use stow.Webhooks.State.{
  DeliveryStatus, DeliveryLog, Endpoint, Outcome, log_id, endpoint_id, WebhookStores, Webhooks,
}
use stow.Webhooks.Bounds.{WebhookCall, emits, processes, AllBounded, runs, runs-AllBounded}

abbrev listed :
    DeliveryStatus
    → DeliveryLog × Endpoint
    → List (DeliveryLog × Endpoint)
    → List (DeliveryLog × Endpoint)
listed DeliveryStatus.pending x xs = x ∷ xs
listed _ x xs = xs

abbrev joined :
    Option DeliveryLog
    → Option Endpoint
    → List (DeliveryLog × Endpoint)
    → List (DeliveryLog × Endpoint)
joined none q xs = xs
joined (some l) none xs = xs
joined (some l) (some p) xs = listed l.status (l, p) xs

abbrev endpoint_of : Option DeliveryLog → List Endpoint → Option Endpoint
endpoint_of none ps = none
endpoint_of (some l) ps = find_row endpoint_id l.endpoint ps

-- The pending rows, by the rows' identifiers.
abbrev pending_of :
    List DeliveryLog → List Endpoint → List DeliveryLog → List (DeliveryLog × Endpoint)
pending_of s ps [] = []
pending_of s ps (l ∷ ls) =
    let o = find_row log_id l.id s in joined o (endpoint_of o ps) (pending_of s ps ls)

listed-All :
    (P : DeliveryLog × Endpoint → Type 0) (o : DeliveryStatus) (x : DeliveryLog × Endpoint)
    (xs : List (DeliveryLog × Endpoint))
    → (o ≡ DeliveryStatus.pending → P x)
    → All P xs
    → All P (listed o x xs)
listed-All P DeliveryStatus.pending x xs p h = (p refl, h)
listed-All P _ x xs p h = h

joined-All :
    (P : DeliveryLog × Endpoint → Type 0) (o : Option DeliveryLog) (q : Option Endpoint)
    (xs : List (DeliveryLog × Endpoint))
    → ((l : DeliveryLog) (p : Endpoint) → o ≡ some l → l.status ≡ DeliveryStatus.pending → P (l, p))
    → All P xs
    → All P (joined o q xs)
joined-All P none q xs f h = h
joined-All P (some l) none xs f h = h
joined-All P (some l) (some p) xs f h = listed-All P l.status (l, p) xs (f l p refl) h

pub pending_of-pending :
    (s : List DeliveryLog) (ps : List Endpoint) (ls : List DeliveryLog)
    → All (λ x. x.0.status ≡ DeliveryStatus.pending) (pending_of s ps ls)
pending_of-pending s ps [] = tt
pending_of-pending s ps (l ∷ ls) =
    joined-All (λ x. x.0.status ≡ DeliveryStatus.pending) (find_row log_id l.id s)
      (endpoint_of (find_row log_id l.id s) ps) (pending_of s ps ls) (λ l p found is. is)
      (pending_of-pending s ps ls)

pub pending_of-find_one :
    (s : List DeliveryLog) (ps : List Endpoint) (ls : List DeliveryLog)
    → All (λ x. find_row log_id x.0.id s ≡ some x.0) (pending_of s ps ls)
pending_of-find_one s ps [] = tt
pending_of-find_one s ps (l ∷ ls) =
    joined-All (λ x. find_row log_id x.0.id s ≡ some x.0) (find_row log_id l.id s)
      (endpoint_of (find_row log_id l.id s) ps) (pending_of s ps ls)
      (λ l' p found is. ap (λ k. find_row log_id k s) (find_row-key log_id l.id s l' found) ∙ found)
      (pending_of-find_one s ps ls)

abbrev row_stores : WebhookStores
row_stores = record {
  logs = list_table log_id;
  endpoints = list_table endpoint_id;
  find_active = select (λ p. p.is_active);
  find_pending = λ s ps. pending_of s ps s;
  find_pending-pending = λ s ps. pending_of-pending s ps s;
  find_pending-find_one = λ s ps. pending_of-find_one s ps s;
}

abbrev hook : Endpoint
hook = record {
  id = 3;
  url = 20;
  event_types = 5 ∷ 6 ∷ [];
  secret_key = 21;
  is_active = true;
  failure_count = 0;
  last_delivery_at = none;
  last_failure_at = none;
}

abbrev one_hook : Webhooks row_stores
one_hook = record { logs = []; endpoints = hook ∷ []; next_id = 1 }

-- The event 5 is emitted at 100; the endpoint answers 500, then not at all, then 200.
abbrev calls : List WebhookCall
calls =
    emits 100 5 9
    ∷ processes 100 (λ l p. Outcome.responds 500)
    ∷ processes 1100 (λ l p. Outcome.throws 8 none)
    ∷ processes 3100 (λ l p. Outcome.responds 200)
    ∷ []

abbrev attempted_once : DeliveryStatus → Option ℕ → Option ℕ → DeliveryLog
attempted_once o at delivered = record {
  id = 1;
  endpoint = 3;
  event_type = 5;
  payload = 9;
  status = o;
  attempt_count = 1;
  http_status_code = none;
  error_message = none;
  next_retry_at = at;
  delivered_at = delivered;
}

runs-AllBounded_example : AllBounded row_stores 5 (runs row_stores 5 calls one_hook)
runs-AllBounded_example = runs-AllBounded row_stores 5 calls one_hook (omega arith) (λ k l h. cc)

abbrev waiting : Webhooks row_stores
waiting = record {
  logs = attempted_once DeliveryStatus.pending (some 1100) none ∷ [];
  endpoints = hook ∷ [];
  next_id = 2;
}
