-- ===== src/Auth/Sessions/Calls.antt =====
-- backend/src/auth/auth.service.ts: sequences of calls that touch the sessions.
use stow.Prelude.{ℕ, ◌≢◌, List, [], ◌∷◌}
use stow.Auth.Sessions.{
  User, Drawn, AuthConfig, AuthTables, Sessions, create_session, rotate_refresh_token,
}

-- A sign-in, a rotation, and a write to the table of users.
pub data SessionCall : Type 0 where
  logs_in : User → ℕ → Drawn → SessionCall
  rotates : List ℕ → ℕ → Drawn → SessionCall
  saves_user : User → SessionCall

-- No sign-in draws the identifier of this family.
abbrev pub Avoids : ℕ → SessionCall → Type 0
Avoids f (logs_in u now d) = d.family ≢ f
Avoids f (rotates raw now d) = Unit {0}
Avoids f (saves_user u) = Unit {0}

module _ (c : AuthConfig) (t : AuthTables) where
  unfoldable pub step : SessionCall → Sessions t → Sessions t
  step (logs_in u now d) s = (create_session c t u now d s).1
  step (rotates raw now d) s = (rotate_refresh_token c t raw now d s).1
  step (saves_user u) s = record s { users = t.users.rows.save u s.users }

  abbrev pub steps : List SessionCall → Sessions t → Sessions t
  steps [] s = s
  steps (q ∷ qs) s = steps qs (step q s)
