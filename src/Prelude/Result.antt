-- ===== src/Prelude/Result.antt =====
-- Exceptions and state: a service method takes the state of the stores it writes, and returns its
-- value or the exception together with the state, since what was saved before a throw stays saved.
use stow.Prelude.{Bool, true, false, Option, none, some, ◌≡◌, refl, ◌⊎◌, inl, inr}

-- What the services throw, by the class of the exception: Nest's HTTP exceptions, and the
-- SyntaxError of `BigInt(text)`.
pub data Error : Type 0 where
  not_found bad_request unauthorized forbidden unprocessable conflict bad_gateway : Error
  too_many_requests service_unavailable internal syntax_error type_error : Error

pub data Result (A : Type 0) : Type 0 where
  ok : A → Result A
  err : Error → Result A

abbrev pub Action : Type 0 → Type 0 → Type 0
Action S A = S → Result A × S

abbrev pub is_ok : {A : Type 0} → Result A → Bool
is_ok (ok _) = true
is_ok (err _) = false

abbrev pub pure : {S A : Type 0} → A → Action S A
pure a s = (ok a, s)

abbrev pub raise : {S A : Type 0} → Error → Action S A
raise e s = (err e, s)

abbrev pub gets : {S A : Type 0} → (S → A) → Action S A
gets f s = (ok (f s), s)

abbrev pub modify : {S : Type 0} → (S → S) → Action S (Unit {0})
modify f s = (ok tt, f s)

abbrev pub lift : {S A : Type 0} → Result A → Action S A
lift r s = (r, s)

abbrev pub or_raise : {S A : Type 0} → Option A → Error → Action S A
or_raise none e s = (err e, s)
or_raise (some a) _ s = (ok a, s)

abbrev pub raise_if : {S : Type 0} → Bool → Error → Action S (Unit {0})
raise_if true e s = (err e, s)
raise_if false _ s = (ok tt, s)

abbrev pub then_do : {S A B : Type 0} → (A → Action S B) → Result A × S → Result B × S
then_do f (ok a, s) = f a s
then_do f (err e, s) = (err e, s)

infixl 5 ◌>>=◌ ◌>>◌
abbrev pub ◌>>=◌ : {S A B : Type 0} → Action S A → (A → Action S B) → Action S B
◌>>=◌ m f s = then_do f (m s)

abbrev pub ◌>>◌ : {S A B : Type 0} → Action S A → Action S B → Action S B
◌>>◌ m k s = then_do (λ _. k) (m s)

-- `try { m } catch { }`: the exception is dropped, the writes before it stay.
abbrev pub state_after : {S A : Type 0} → Action S A → S → S
state_after m s = (m s).1

pub Result-cases :
    {A : Type 0} (r : Result A) → ((e : Error) × (r ≡ err e)) ⊎ ((a : A) × (r ≡ ok a))
Result-cases (ok a) = inr (a, refl)
Result-cases (err e) = inl (e, refl)

-- Mapping the value of a call leaves its writes.
pub then_do-pure :
    {S A B : Type 0} (f : A → B) (p : Result A × S) → (then_do (λ a. pure (f a)) p).1 ≡ p.1
then_do-pure f (ok a, s) = refl
then_do-pure f (err e, s) = refl
