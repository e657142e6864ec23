-- ===== src/Idempotency.antt =====
-- backend/src/common/idempotency/idempotency.service.ts and idempotency.interceptor.ts: a request
-- with an `Idempotency-Key` header runs its handler once, and a repetition gets the stored answer.
-- The interceptor is cut where the handler runs: `begin` is what it does before, `complete` and
-- `release` what it does after, and between them other requests may come. Each of these calls runs
-- to its end before the next; texts are numbers, and times are in milliseconds.
pub mod Fresh
pub mod Spares
pub mod Once
pub mod Ends
mod Tests
use stow.Prelude.{
  ℕ, zero, suc, ◌+◌, ◌-◌, ◌≡◌, Bool, true, false, not, Option, none, some, ltb, ◌==◌, ◌&&◌,
  if◌then◌else◌,
}
use stow.Prelude.Result.{
  Result, ok, err, Action, bad_request, unprocessable, conflict, internal, raise, pure, ◌>>=◌,
}
use stow.Amounts.{empty_text}

-- idempotency-key.entity.ts
pub record IdempotencyKey : Type 0 where
  pub id : ℕ
  pub key : ℕ
  pub user_id : ℕ
  pub request_hash : ℕ
  pub status_code : Option ℕ
  pub response_body : Option ℕ
  pub in_progress : Bool
  pub created_at : ℕ

abbrev pub answered : ℕ → ℕ → ℕ → IdempotencyKey → IdempotencyKey
answered id code body r =
    if r.id == id
    then record r { status_code = some code; response_body = some body; in_progress = false }
    else r

abbrev pub update_row : ℕ → ℕ → ℕ → Option IdempotencyKey → Option IdempotencyKey
update_row id code body none = none
update_row id code body (some r) = some (answered id code body r)

abbrev pub drop_row : (IdempotencyKey → Bool) → Option IdempotencyKey → Option IdempotencyKey
drop_row dropped none = none
drop_row dropped (some r) = if dropped r then none else some r

-- The table, unique on the key and the user. `insert` is refused where a row has both; `update`
-- and `delete` go by the identifier, `delete_before` by the time of creation.
pub record KeyTable : Type 1 where
  pub Store : Type 0
  pub find : ℕ → ℕ → Store → Option IdempotencyKey
  pub insert : IdempotencyKey → Store → Store
  pub update : ℕ → ℕ → ℕ → Store → Store
  pub delete : ℕ → Store → Store
  pub delete_before : ℕ → Store → Store
  pub find-insert :
      (k u : ℕ) (r : IdempotencyKey) (s : Store)
      → find r.key r.user_id s ≡ none
      → find k u (insert r s) ≡ (if k == r.key && u == r.user_id then some r else find k u s)
  pub find-update :
      (k u id code body : ℕ) (s : Store)
      → find k u (update id code body s) ≡ update_row id code body (find k u s)
  pub find-delete :
      (k u id : ℕ) (s : Store) → find k u (delete id s) ≡ drop_row (λ r. r.id == id) (find k u s)
  pub find-delete_before :
      (k u at : ℕ) (s : Store)
      → find k u (delete_before at s) ≡ drop_row (λ r. ltb r.created_at at) (find k u s)

pub record Keys (t : KeyTable) : Type 0 where
  pub rows : t.Store
  -- the identifier that the database gives the next row
  pub next_id : ℕ

pub data AcquireResult : Type 0 where
  acquired : IdempotencyKey → AcquireResult
  existing : IdempotencyKey → AcquireResult

-- What the interceptor goes on to: the handler, under the row's identifier, or a stored answer.
pub data Begun : Type 0 where
  runs : ℕ → Begun
  replays : Option ℕ → Begun

module _ (t : KeyTable) (ttl : ℕ) where
  abbrev pub is_expired : ℕ → IdempotencyKey → Bool
  is_expired now r = ltb (r.created_at + ttl) now

  abbrev pub new_row : ℕ → ℕ → ℕ → ℕ → ℕ → IdempotencyKey
  new_row id now key user hash = record {
    id = id;
    key = key;
    user_id = user;
    request_hash = hash;
    status_code = none;
    response_body = none;
    in_progress = true;
    created_at = now;
  }

  -- `save(create(...))` where no row has the key and the user
  unfoldable pub claim_key : ℕ → ℕ → ℕ → ℕ → Keys t → Result AcquireResult × Keys t
  claim_key now key user hash s =
      let r = new_row s.next_id now key user hash in
      (ok (acquired r), record { rows = t.insert r s.rows; next_id = suc s.next_id })

  -- `acquire`, with the depth of its recursion as fuel
  unfoldable pub acquire : ℕ → ℕ → ℕ → ℕ → ℕ → Keys t → Result AcquireResult × Keys t
  unfolding claim_key
  acquire zero now key user hash s = (err internal, s)
  acquire (suc fuel) now key user hash s =
      let again = λ (x : Keys t). acquire fuel now key user hash x in
      elim (t.find key user s.rows) [
        | none ↦ claim_key now key user hash s
        | some r ↦
            if is_expired now r
            then again (record s { rows = t.delete r.id s.rows })
            else (ok (existing r), s)
      ]

  abbrev pub decide : ℕ → AcquireResult → Result Begun
  decide hash (acquired r) = ok (runs r.id)
  decide hash (existing r) =
      if not (r.request_hash == hash)
      then err unprocessable
      else if r.in_progress
      then err conflict
      else ok (replays r.response_body)

  abbrev pub decided : ℕ → Result AcquireResult × Keys t → Result Begun × Keys t
  decided hash (ok a, s) = (decide hash a, s)
  decided hash (err e, s) = (err e, s)

  -- `intercept`, before the handler; an expired row is met once at most, so the fuel is 2.
  unfoldable pub begin : ℕ → Option ℕ → ℕ → ℕ → Keys t → Result Begun × Keys t
  unfolding acquire
  begin now none user hash s = (err bad_request, s)
  begin now (some key) user hash s =
      if key == empty_text
      then (err bad_request, s)
      else decided hash (acquire 2 now key user hash s)

  pub complete : ℕ → ℕ → ℕ → Keys t → Keys t
  complete id code body s = record s { rows = t.update id code body s.rows }

  pub release : ℕ → Keys t → Keys t
  release id s = record s { rows = t.delete id s.rows }

  -- `LessThan(now - ttl)`; no row is older than the clock's start
  pub cleanup_expired_keys : ℕ → Keys t → Keys t
  cleanup_expired_keys now s = record s { rows = t.delete_before (now - ttl) s.rows }
