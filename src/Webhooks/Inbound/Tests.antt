-- ===== src/Webhooks/Inbound/Tests.antt =====
-- Incoming webhooks on concrete tables, with a digest that is the sum of the secret and the body.
use stow.Prelude.{
  ℕ, ◌+◌, ◌≡◌, refl, true, Option, none, some, [], ◌∷◌, arith, ◌==◌, ==_iff, ◌&&◌, if◌then◌else◌,
}
use stow.Prelude.Result.{ok, err, unauthorized}
use stow.Webhooks.Inbound.{
  Crypto, ProcessedTable, IncomingRequest, WebhookConfig, verify_signature, same_bytes,
  can_activate,
}
use stow.Webhooks.Inbound.Replays.{IsSigned, can_activate_again}

abbrev Received : Type 0
Received = ℕ → ℕ → Option ℕ

abbrev inserted : ℕ → ℕ → ℕ → Received → Option ℕ → Option Received
inserted source event now s (some _) = none
inserted source event now s none =
    some (λ x y. if x == source && y == event then some now else s x y)

pub inserted-taken :
    (source event now received : ℕ) (s : Received)
    → s source event ≡ some received
    → inserted source event now s (s source event) ≡ none
inserted-taken source event now received s found = rw found refl

pub inserted-free :
    (source event now : ℕ) (s : Received)
    → s source event ≡ none
    → (s' : Received) × (inserted source event now s (s source event) ≡ some s')
      × (s' source event ≡ some now)
inserted-free source event now s free = (
  (λ x y. if x == source && y == event then some now else s x y),
  rw free refl,
  ground (arith, ==_iff source source, ==_iff event event),
)

abbrev received_events : ProcessedTable
received_events = record {
  Store = Received;
  find_at = λ source event s. s source event;
  insert = λ source event now s. inserted source event now s (s source event);
  insert-taken = inserted-taken;
  insert-free = inserted-free;
}

abbrev sums : Crypto
sums = record { hmac_hex = λ secret body. secret + body; from_hex = λ text. text ∷ [] }

abbrev config : WebhookConfig
config = record { secret = some 30; window_seconds = none }

abbrev request : IncomingRequest
request = record { source = some 20; signature = some 75; raw_body = 45; event_id = some 21 }

request-verified : verify_signature sums 45 (some 75) 30 ≡ true
unfolding verify_signature same_bytes
request-verified = refl

abbrev request-IsSigned : IsSigned sums config request 20 21
request-IsSigned = record {
  from_source = refl;
  with_event = refl;
  secret = 30;
  configured = refl;
  signed = request-verified;
}

abbrev nothing : Received
nothing = λ x y. none

abbrev received_at_zero : Received
received_at_zero = λ x y. if x == 20 && y == 21 then some 0 else none

accepted : (can_activate sums received_events config 5 request nothing).0 ≡ ok true
accepted =
    (can_activate_again sums received_events config 5 6 20 21 request nothing request-IsSigned refl
      (omega arith)).0

can_activate_again_example :
    ((can_activate sums received_events config 5 request nothing).0 ≡ ok true)
    × (can_activate sums received_events config 6 request
          (can_activate sums received_events config 5 request nothing).1
        ≡ (err unauthorized, (can_activate sums received_events config 5 request nothing).1))
can_activate_again_example =
    can_activate_again sums received_events config 5 6 20 21 request nothing request-IsSigned refl
      (omega arith)
