-- ===== src/Webhooks/Inbound.antt =====
-- Incoming webhooks: backend/src/webhooks/services/webhook-signature.service.ts and
-- backend/src/webhooks/guards/webhook-signature.guard.ts. A text is a number, as in Amounts.
-- Node's crypto and Buffer are parameters; logging is left out.
pub mod Replays
mod Tests
use stow.Prelude.{
  ℕ, ◌+◌, ◌*◌, ◌≡◌, Bool, true, false, not, Option, none, some, List, [], ◌∷◌, length, ltb, ◌==◌,
  ◌&&◌, if◌then◌else◌,
}
use stow.Prelude.Result.{
  Result, ok, err, Action, bad_request, unauthorized, gets, modify, raise, raise_if, pure, ◌>>=◌,
  ◌>>◌,
}
use stow.Amounts.{empty_text}

-- `createHmac('sha256', secret).update(body).digest('hex')` and `Buffer.from(text, 'hex')`
pub record Crypto : Type 0 where
  pub hmac_hex : ℕ → ℕ → ℕ
  pub from_hex : ℕ → List ℕ

-- The table of processed events (webhook-processed-event.entity.ts), unique on the source and the
-- event's identifier: when each was received. An insert of a pair that is there is refused.
pub record ProcessedTable : Type 1 where
  pub Store : Type 0
  pub find_at : ℕ → ℕ → Store → Option ℕ
  pub insert : ℕ → ℕ → ℕ → Store → Option Store
  pub insert-taken :
      (source event now received : ℕ) (s : Store)
      → find_at source event s ≡ some received
      → insert source event now s ≡ none
  pub insert-free :
      (source event now : ℕ) (s : Store)
      → find_at source event s ≡ none
      → (s' : Store) × (insert source event now s ≡ some s') × (find_at source event s' ≡ some now)

-- What the guard reads of a request: the source in its path, the signature header, the raw body,
-- and the body's `event_id` where it is a string.
pub record IncomingRequest : Type 0 where
  pub source : Option ℕ
  pub signature : Option ℕ
  pub raw_body : ℕ
  pub event_id : Option ℕ

pub record WebhookConfig : Type 0 where
  -- `WEBHOOK_HMAC_SECRET`
  pub secret : Option ℕ
  -- `WEBHOOK_REPLAY_WINDOW_SECONDS`
  pub window_seconds : Option ℕ

-- `timingSafeEqual`, on buffers of one length
unfoldable pub same_bytes : List ℕ → List ℕ → Bool
same_bytes [] [] = true
same_bytes [] (_ ∷ _) = false
same_bytes (_ ∷ _) [] = false
same_bytes (x ∷ xs) (y ∷ ys) = let rest = same_bytes xs ys in x == y && rest

abbrev equal_buffers : List ℕ → List ℕ → Bool
equal_buffers expected received =
    if not (length expected == length received) then false else same_bytes expected received

unfoldable pub verify_signature : Crypto → ℕ → Option ℕ → ℕ → Bool
unfolding same_bytes
verify_signature c body none secret = false
verify_signature c body (some header) secret =
    if header == empty_text
    then false
    else equal_buffers (c.from_hex (c.hmac_hex secret body)) (c.from_hex header)

-- `getReplayWindowMs`, by default of 300 seconds
abbrev pub replay_window_ms : Option ℕ → ℕ
replay_window_ms none = 300 * 1000
replay_window_ms (some seconds) = seconds * 1000

-- A text that is there and is not empty.
abbrev pub given : Option ℕ → Option ℕ
given none = none
given (some x) = if x == empty_text then none else some x

module _ (c : Crypto) (t : ProcessedTable) (config : WebhookConfig) where
  -- `age < window`, where the age is `now - received`
  abbrev pub is_recent : ℕ → Option ℕ → Bool
  is_recent now none = false
  is_recent now (some received) = ltb now (received + replay_window_ms config.window_seconds)

  pub is_replay : ℕ → ℕ → ℕ → t.Store → Bool
  is_replay now source event s = is_recent now (t.find_at source event s)

  -- the `try … catch` around the insert
  abbrev kept_or : Option t.Store → t.Store → t.Store
  kept_or none s = s
  kept_or (some s') s = s'

  pub record_processed : ℕ → ℕ → ℕ → t.Store → t.Store
  record_processed now source event s = kept_or (t.insert source event now s) s

  check_event : ℕ → ℕ → Option ℕ → Action t.Store Bool
  unfolding is_replay record_processed
  check_event now source none = raise bad_request
  check_event now source (some event) = do
    replayed ← gets (is_replay now source event)
    raise_if replayed unauthorized
    modify (record_processed now source event)
    pure true

  check_secret : ℕ → ℕ → IncomingRequest → Option ℕ → Action t.Store Bool
  unfolding check_event verify_signature
  check_secret now source q none = raise unauthorized
  check_secret now source q (some secret) = do
    raise_if (not (verify_signature c q.raw_body q.signature secret)) unauthorized
    check_event now source (given q.event_id)

  check_source : ℕ → IncomingRequest → Option ℕ → Action t.Store Bool
  unfolding check_secret
  check_source now q none = raise bad_request
  check_source now q (some source) = check_secret now source q (given config.secret)

  -- `canActivate` at the time `now`
  pub can_activate : ℕ → IncomingRequest → Action t.Store Bool
  unfolding check_source
  can_activate now q = check_source now q (given q.source)
