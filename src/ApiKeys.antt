-- ===== src/ApiKeys.antt =====
-- backend/src/auth/api-key.service.ts: API keys. A raw key is the list of its character codes, and
-- only its prefix and its bcrypt hash are stored. Logging, the lists for display and the name of a
-- key are left out; bcrypt, which is no code of the repository, is an interface.
pub mod Lifecycle
mod Tests
use stow.Prelude.{
  In, ℕ, ◌+◌, ◌-◌, ◌≡◌, ◌⊎◌, Bool, true, false, Option, none, some, List, [], ◌∷◌, ◌++◌, All, take,
  ltb, ◌==◌, ◌&&◌, if◌then◌else◌,
}
use stow.Prelude.Table.{Table}
use stow.Prelude.Result.{Error, Result, ok, err, not_found, unauthorized, forbidden, Action, raise}

-- api-key.entity.ts
pub record ApiKey : Type 0 where
  pub id : ℕ
  pub user_id : ℕ
  pub key_prefix : List ℕ
  pub key_hash : ℕ
  pub scopes : List ℕ
  pub expires_at : Option ℕ
  pub revoked_at : Option ℕ
  pub last_used_at : Option ℕ

abbrev pub key_id : ApiKey → ℕ
key_id k = k.id

-- `hash(text, rounds)`, which draws a salt, and `compare(text, hash)`
pub record Bcrypt : Type 0 where
  pub hash : ℕ → List ℕ → ℕ
  pub compare : List ℕ → ℕ → Bool
  pub compare-hash : (salt : ℕ) (raw : List ℕ) → compare raw (hash salt raw) ≡ true

-- The repository of the keys, with the query by prefix.
pub record KeyTable : Type 1 where
  pub rows : Table ApiKey key_id
  pub find_prefix : List ℕ → rows.Store → List ApiKey
  pub find_prefix-found :
      (p : List ℕ) (s : rows.Store) → All (λ k. rows.find_one k.id s ≡ some k) (find_prefix p s)
  pub find_prefix-complete :
      (p : List ℕ) (s : rows.Store) (k : ApiKey)
      → rows.find_one k.id s ≡ some k
      → k.key_prefix ≡ p
      → In k (find_prefix p s)

-- `KEY_PREFIX`, the text 'ia_'
abbrev pub raw_prefix : List ℕ
raw_prefix = 105 ∷ 97 ∷ 95 ∷ []

abbrev pub starts_with : List ℕ → List ℕ → Bool
starts_with [] text = true
starts_with (c ∷ cs) [] = false
starts_with (c ∷ cs) (d ∷ ds) = let rest = starts_with cs ds in c == d && rest

-- Whether a key has expired at a time.
abbrev pub is_expired : Option ℕ → ℕ → Bool
is_expired none now = false
is_expired (some at_time) now = ltb at_time now

module _ (b : Bcrypt) (t : KeyTable) where
  abbrev pub new_key : ℕ → ℕ → ℕ → List ℕ → List ℕ → Option ℕ → ApiKey
  new_key fresh user salt raw scopes expires_at = record {
    id = fresh;
    user_id = user;
    key_prefix = take 10 raw;
    key_hash = b.hash salt raw;
    scopes = scopes;
    expires_at = expires_at;
    revoked_at = none;
    last_used_at = none;
  }

  -- `create(userId, dto)`: the raw key and the stored row; `random` is the text of the random
  -- bytes, and `salt` what bcrypt draws.
  unfoldable pub create :
      ℕ → ℕ → ℕ → List ℕ → List ℕ → Option ℕ → Action t.rows.Store (List ℕ × ApiKey)
  create fresh user salt random scopes expires_at s =
      let raw = raw_prefix ++ random in
      let key = new_key fresh user salt raw scopes expires_at in (ok (raw, key), t.rows.save key s)

  abbrev pub revoke_found : Option ApiKey → ℕ → ℕ → Action t.rows.Store ApiKey
  revoke_found none user now s = (err not_found, s)
  revoke_found (some k) user now s =
      let revoked : ApiKey = record k { revoked_at = some now } in
      if k.user_id == user
      then elim (k.revoked_at) [
        | some before ↦ (err forbidden, s)
        | none ↦ (ok revoked, t.rows.save revoked s)
      ]
      else (err not_found, s)

  -- `revoke(id, userId)`, at the time `now`
  unfoldable pub revoke : ℕ → ℕ → ℕ → Action t.rows.Store ApiKey
  revoke id user now s = revoke_found (t.rows.find_one id s) user now s

  -- The first candidate whose hash is that of the raw key.
  abbrev pub first_match : List ℕ → List ApiKey → Option ApiKey
  first_match raw [] = none
  first_match raw (k ∷ ks) =
      let rest = first_match raw ks in if b.compare raw k.key_hash then some k else rest

  abbrev pub check_match : Option ApiKey → ℕ → Result ApiKey
  check_match none now = err unauthorized
  check_match (some k) now = elim (k.revoked_at) [
    | some before ↦ err unauthorized
    | none ↦ if is_expired k.expires_at now then err unauthorized else ok k
  ]

  -- `validateKey(rawKey)`, at the time `now`; without candidates nothing matches.
  unfoldable pub validate_key : List ℕ → ℕ → t.rows.Store → Result ApiKey
  validate_key raw now s =
      if starts_with raw_prefix raw
      then check_match (first_match raw (t.find_prefix (take 10 raw) s)) now
      else err unauthorized

  abbrev pub time_or_zero : Option ℕ → ℕ
  time_or_zero none = 0
  time_or_zero (some at_time) = at_time

  abbrev touch_found : Option ApiKey → ℕ → t.rows.Store → t.rows.Store
  touch_found none now s = s
  touch_found (some k) now s = t.rows.save (record k { last_used_at = some now }) s

  -- `touchLastUsed(apiKey)`, at most once in `LAST_USED_THROTTLE_MS`
  unfoldable pub touch_last_used : ApiKey → ℕ → t.rows.Store → t.rows.Store
  touch_last_used k now s =
      if ltb now (time_or_zero k.last_used_at + 60_000)
      then s
      else touch_found (t.rows.find_one k.id s) now s
