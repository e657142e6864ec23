-- ===== src/Webhooks/Inbound/Replays.antt =====
-- What the guard lets through, and what it makes of a repeated event.
use stow.Prelude.{
  ℕ, ◌+◌, ◌≤◌, ◌<◌, ◌≡◌, refl, ap, ◌∙◌, inl, inr, Bool, true, false, none, some, arith, Bool-cases,
  Option-cases,
}
use stow.Prelude.Result.{ok, err, unauthorized}
use stow.Webhooks.Inbound.{
  Crypto, ProcessedTable, IncomingRequest, WebhookConfig, verify_signature, replay_window_ms, given,
  is_replay, record_processed, check_event, check_secret, check_source, can_activate,
}

-- A request that is complete and rightly signed, from a source and with an event's identifier.
pub record IsSigned (c : Crypto) (config : WebhookConfig) (q : IncomingRequest) (source event : ℕ)
    : Type 0 where
  pub from_source : given q.source ≡ some source
  pub with_event : given q.event_id ≡ some event
  pub secret : ℕ
  pub configured : given config.secret ≡ some secret
  pub signed : verify_signature c q.raw_body q.signature secret ≡ true

module _ (c : Crypto) (t : ProcessedTable) (config : WebhookConfig) where
  signed_lem :
      (now source event : ℕ) (q : IncomingRequest) (s : t.Store)
      → IsSigned c config q source event
      → can_activate c t config now q s ≡ check_event c t config now source (some event) s
  unfolding can_activate check_source check_secret
  signed_lem now source event q s h =
      rw (h.from_source, h.configured, h.signed, h.with_event, check_source, check_secret) refl

  -- Only a request from a source, with an event's identifier, rightly signed under the configured
  -- secret, and whose event has no recent record, is let through.
  pub can_activate-IsSigned :
      (now : ℕ) (q : IncomingRequest) (s : t.Store) (b : Bool)
      → (can_activate c t config now q s).0 ≡ ok b
      → (source : ℕ) × (event : ℕ) × IsSigned c config q source event
        × (is_replay c t config now source event s ≡ false)
  unfolding can_activate check_source check_secret check_event
  can_activate-IsSigned now q s b e = elim (Option-cases (given q.source)) [
    | inl missing ↦ absurd (ground arith)
    | inr (source, from) ↦ elim (Option-cases (given config.secret)) [
      | inl missing ↦ absurd (ground arith)
      | inr (secret, configured) ↦
          elim (Bool-cases (verify_signature c q.raw_body q.signature secret)) [
            | inr unsigned ↦ absurd (ground arith)
            | inl signed ↦ elim (Option-cases (given q.event_id)) [
              | inl missing ↦ absurd (ground arith)
              | inr (event, with_event) ↦ (
                source,
                event,
                record {
                  from_source = from;
                  with_event = with_event;
                  secret = secret;
                  configured = configured;
                  signed = signed;
                },
                ground arith,
              )
            ]
          ]
    ]
  ]

  recorded_lem :
      (now source event : ℕ) (s s' : t.Store)
      → t.find_at source event s ≡ none
      → t.insert source event now s ≡ some s'
      → check_event c t config now source (some event) s ≡ (ok true, s')
  unfolding check_event is_replay record_processed
  recorded_lem now source event s s' fresh done = ground arith

  recent_lem :
      (now source event received : ℕ) (s : t.Store)
      → t.find_at source event s ≡ some received
      → now < received + replay_window_ms config.window_seconds
      → check_event c t config now source (some event) s ≡ (err unauthorized, s)
  unfolding check_event is_replay record_processed
  recent_lem now source event received s found within = ground arith

  old_lem :
      (now source event received : ℕ) (s : t.Store)
      → t.find_at source event s ≡ some received
      → received + replay_window_ms config.window_seconds ≤ now
      → check_event c t config now source (some event) s ≡ (ok true, s)
  unfolding check_event is_replay record_processed
  old_lem now source event received s found old =
      ground (arith, t.insert-taken source event now received s)

  -- The event of a signed request that was accepted for the first time is rejected, and nothing is
  -- written, as long as it comes again within the window.
  pub can_activate_again :
      (now later source event : ℕ) (q : IncomingRequest) (s : t.Store)
      → IsSigned c config q source event
      → t.find_at source event s ≡ none
      → later < now + replay_window_ms config.window_seconds
      → ((can_activate c t config now q s).0 ≡ ok true)
        × (can_activate c t config later q (can_activate c t config now q s).1
            ≡ (err unauthorized, (can_activate c t config now q s).1))
  can_activate_again now later source event q s h fresh within =
      let (s', done, stored) = t.insert-free source event now s fresh in
      let first : can_activate c t config now q s ≡ (ok true, s') =
        signed_lem now source event q s h ∙ recorded_lem now source event s s' fresh done in
      (
        ap (λ x. x.0) first,
        rw first (
            signed_lem later source event q s' h
            ∙ recent_lem later source event now s' stored within),
      )

  -- Once the record of an event is older than the window, a signed request with that event is
  -- accepted and the old record stays: it is then accepted at every time after.
  pub can_activate_old :
      (now later source event received : ℕ) (q : IncomingRequest) (s : t.Store)
      → IsSigned c config q source event
      → t.find_at source event s ≡ some received
      → received + replay_window_ms config.window_seconds ≤ now
      → now ≤ later
      → (can_activate c t config now q s ≡ (ok true, s))
        × (can_activate c t config later q (can_activate c t config now q s).1 ≡ (ok true, s))
  can_activate_old now later source event received q s h found old le =
      let first : can_activate c t config now q s ≡ (ok true, s) =
        signed_lem now source event q s h ∙ old_lem now source event received s found old in
      (
        first,
        rw first (
            signed_lem later source event q s h
            ∙ old_lem later source event received s found (omega arith)),
      )
