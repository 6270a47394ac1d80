-- ===== src/Gateway/Outcome.antt =====
-- What a handler of a request ends in: a result, an HTTPException of a status, or an exception that
-- nothing catches, which the server answers by 500. A dependency of a route only reads.
use cloglog.Base.{ℕ, ◌≡◌, refl, ◌⊎◌, inl, inr, Bool, true, false, Option, none, some}
use cloglog.Models.{World}
use cloglog.Action.{Action, Result, ok, err, Error}

pub data Outcome (A : Type 0) : Type 0 where
  returned : A → Outcome A
  http_exception : ℕ → Outcome A
  server_error : Outcome A

infixl 5 ◌>>=◌ ◌>>◌
abbrev pub ◌>>=◌ : {A B : Type 0} → Outcome A → (A → Outcome B) → Outcome B
returned a >>= f = f a
http_exception status >>= f = http_exception status
server_error >>= f = server_error

abbrev pub ◌>>◌ : {A B : Type 0} → Outcome A → Outcome B → Outcome B
m >> k = m >>= λ _. k

-- `if x is None: raise HTTPException(status_code=status)`
abbrev pub required : {A : Type 0} → ℕ → Option A → Outcome A
required status none = http_exception status
required status (some a) = returned a

abbrev pub refuse_if : ℕ → Bool → Outcome (Unit {0})
refuse_if status true = http_exception status
refuse_if status false = returned tt

-- A query of a repository inside a dependency.
abbrev pub of_result : {A : Type 0} → Result A × World → Outcome A
of_result (ok a, w) = returned a
of_result (err e, w) = server_error

abbrev pub Handler : Type 0 → Type 0
Handler A = World → Outcome A × World

-- The handler of a route, behind a dependency.
abbrev pub after : {A B : Type 0} → Outcome A → (A → Handler B) → Handler B
after (returned a) k w = k a w
after (http_exception status) k w = (http_exception status, w)
after server_error k w = (server_error, w)

abbrev pub depends : {A B : Type 0} → (World → Outcome A) → (A → Handler B) → Handler B
depends d k w = after (d w) k w

-- The call of a service, with the `except` clauses of the route.
abbrev pub answer_of : {A : Type 0} → (Error → Outcome A) → Result A × World → Outcome A × World
answer_of handle (ok a, w) = (returned a, w)
answer_of handle (err e, w) = (handle e, w)

abbrev pub calls : {A : Type 0} → (Error → Outcome A) → Action A → Handler A
calls handle m w = answer_of handle (m w)

abbrev pub uncaught : {A : Type 0} → Error → Outcome A
uncaught e = server_error

-- What a part has returned, where the whole returns.
pub >>=-returned :
    {A B : Type 0} (m : Outcome A) (f : A → Outcome B) {b : B}
    → (m >>= f) ≡ returned b
    → (a : A) × (m ≡ returned a) × (f a ≡ returned b)
>>=-returned (returned a) f h = (a, refl, h)
>>=-returned (http_exception status) f h = cc
>>=-returned server_error f h = cc

pub required-returned :
    {A : Type 0} (status : ℕ) (o : Option A) {a : A} → required status o ≡ returned a → o ≡ some a
required-returned status none h = cc
required-returned status (some a) h = cc

pub refuse_if-returned :
    (status : ℕ) (b : Bool) {u : Unit {0}} → refuse_if status b ≡ returned u → b ≡ false
refuse_if-returned status true h = cc
refuse_if-returned status false h = refl

pub of_result-returned :
    {A : Type 0} (r : Result A × World) {a : A} → of_result r ≡ returned a → r.0 ≡ ok a
of_result-returned (ok a, w) h = cc
of_result-returned (err e, w) h = cc

-- A handler behind a dependency leaves the world as it is, or the dependency let the request pass.
pub after-passed :
    {A B : Type 0} (o : Outcome A) (k : A → Handler B) (w : World)
    → ((after o k w).1 ≡ w) ⊎ ((a : A) × (o ≡ returned a))
after-passed (returned a) k w = inr (a, refl)
after-passed (http_exception status) k w = inl refl
after-passed server_error k w = inl refl
