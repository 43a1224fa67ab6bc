-- ===== src/Outcome.antt =====
-- error.c `error`: operations that may end the server, one after the other. `endless` is the answer of
-- a loop of the model that has used up its rounds.
use task_spooler_plus.Base.{◌≡◌, ap}

-- `error ()` ends the server: what it returns is never used.
pub data Outcome {ℓ} (A : Type ℓ) : Type ℓ where
  ok : A → Outcome A
  died endless : Outcome A

infixl 5 ◌>>=◌
abbrev pub ◌>>=◌ {ℓ κ} : {A : Type ℓ} {B : Type κ} → Outcome A → (A → Outcome B) → Outcome B
ok a >>= f = f a
died >>= f = died
endless >>= f = endless

abbrev from_ok {ℓ} : {A : Type ℓ} → A → Outcome A → A
from_ok d (ok a) = a
from_ok d died = d
from_ok d endless = d

pub ok-inj {ℓ} : {A : Type ℓ} {a b : A} → ok a ≡ ok b → a ≡ b
ok-inj {a = a} h = ap (from_ok a) h

-- What holds of the result, if there is one.
abbrev pub Yields {ℓ κ} : {A : Type ℓ} → (A → Type κ) → Outcome A → Type κ
Yields P (ok a) = P a
Yields P died = Unit
Yields P endless = Unit

pub Yields-bind {ℓ κ μ ν} :
    {A : Type ℓ} {B : Type κ} (P : A → Type μ) (Q : B → Type ν) (m : Outcome A) (f : A → Outcome B)
    → Yields P m
    → ((a : A) → P a → Yields Q (f a))
    → Yields Q (m >>= f)
Yields-bind P Q (ok a) f h k = k a h
Yields-bind P Q died f h k = tt
Yields-bind P Q endless f h k = tt

pub Yields-map {ℓ κ μ} :
    {A : Type ℓ} (P : A → Type κ) (Q : A → Type μ) (m : Outcome A)
    → ((a : A) → P a → Q a)
    → Yields P m
    → Yields Q m
Yields-map P Q (ok a) f h = f a h
Yields-map P Q died f h = tt
Yields-map P Q endless f h = tt
