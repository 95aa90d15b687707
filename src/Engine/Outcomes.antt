-- ===== src/Engine/Outcomes.antt =====
-- What holds of the results of calls: src/backend/GraphEngine.cpp and src/backend/MpiStream.cpp.
use casita.Prelude.{◌≡◌, subst}
use casita.Engine.Defs.{Result, ok, raised, undefined, ◌>>=◌}

-- What holds of the value that a call returns, if it returns one.
abbrev pub Holds {ℓ κ} : {A : Type ℓ} → (A → Type κ) → Result A → Type κ
Holds P (ok a) = P a
Holds P raised = Unit
Holds P undefined = Unit

pub Holds-bind {ℓ κ ℓ' κ'} :
    {A : Type ℓ} {B : Type ℓ'} (P : A → Type κ) (Q : B → Type κ') (r : Result A) (f : A → Result B)
    → Holds P r
    → ((a : A) → P a → Holds Q (f a))
    → Holds Q (r >>= f)
Holds-bind P Q (ok a) f h k = k a h
Holds-bind P Q raised f h k = tt
Holds-bind P Q undefined f h k = tt

pub Holds-any {ℓ} : {A : Type ℓ} (r : Result A) → Holds (λ a. Unit {0}) r
Holds-any (ok a) = tt
Holds-any raised = tt
Holds-any undefined = tt

-- The call returns, and the value has the property.
abbrev pub Returns {ℓ} : {A : Type ℓ} → (A → Type 0) → Result A → Type 0
Returns P (ok a) = P a
Returns P raised = ⊥
Returns P undefined = ⊥

pub Returns-bind {ℓ κ} :
    {A : Type ℓ} {B : Type κ} (P : A → Type 0) (Q : B → Type 0) (r : Result A) (f : A → Result B)
    → Returns P r
    → ((a : A) → P a → Returns Q (f a))
    → Returns Q (r >>= f)
Returns-bind P Q (ok a) f h k = k a h
Returns-bind P Q raised f h k = absurd h
Returns-bind P Q undefined f h k = absurd h

pub Holds-ok {ℓ} : {A : Type ℓ} (P : A → Type 0) (r : Result A) (a : A) → Holds P r → r ≡ ok a → P a
Holds-ok P r a h e = subst (Holds P) e h

pub Returns-map {ℓ} :
    {A : Type ℓ} (P Q : A → Type 0) (r : Result A)
    → ((a : A) → P a → Q a)
    → Returns P r
    → Returns Q r
Returns-map P Q (ok a) f h = f a h
Returns-map P Q raised f h = h
Returns-map P Q undefined f h = h

pub Holds-map {ℓ κ κ'} :
    {A : Type ℓ} (P : A → Type κ) (Q : A → Type κ') (r : Result A)
    → ((a : A) → P a → Q a)
    → Holds P r
    → Holds Q r
Holds-map P Q (ok a) f h = f a h
Holds-map P Q raised f h = tt
Holds-map P Q undefined f h = tt
