-- ===== src/Common/Outcome.antt =====
-- A Go call that returns a value and an `error`: the value counts only when the error is nil.
use mathlib.Core.Path.{◌≡◌, refl}
use mathlib.Core.Logic.{◌⊎◌, inl, inr}
use mathlib.Core.Bool.{Bool, true, false}

pub data Result {ℓ κ} (E : Type ℓ) (A : Type κ) : Type (ℓ ⊔ κ) where
  ok : A → Result E A
  err : E → Result E A

-- What a call with only an `error` result returns.
abbrev pub Done : Type 0
Done = Unit {0}

infixl 5 ◌>>=◌ ◌>>◌
abbrev pub ◌>>=◌ {ℓ κ μ} :
    {E : Type ℓ} {A : Type κ} {B : Type μ} → Result E A → (A → Result E B) → Result E B
ok a >>= f = f a
err e >>= f = err e

abbrev pub ◌>>◌ {ℓ κ} : {E : Type ℓ} {B : Type κ} → Result E Done → Result E B → Result E B
m >> k = m >>= λ _. k

-- `if c { return …, e }`
abbrev pub fail_if {ℓ} : {E : Type ℓ} → Bool → E → Result E Done
fail_if true e = err e
fail_if false e = ok tt

pub Result-cases {ℓ κ} :
    {E : Type ℓ} {A : Type κ} (r : Result E A) → ((a : A) × (r ≡ ok a)) ⊎ ((e : E) × (r ≡ err e))
Result-cases (ok a) = inl (a, refl)
Result-cases (err e) = inr (e, refl)

-- A chain that succeeded went through each of its steps.
pub >>=-ok {ℓ κ μ} :
    {E : Type ℓ} {A : Type κ} {B : Type μ} (r : Result E A) (f : A → Result E B) (b : B)
    → (r >>= f) ≡ ok b
    → (a : A) × (r ≡ ok a) × (f a ≡ ok b)
>>=-ok (ok a) f b h = (a, refl, h)
>>=-ok (err e) f b h = cc

pub fail_if-ok {ℓ κ} :
    {E : Type ℓ} {B : Type κ} (c : Bool) (e : E) (k : Result E B) (b : B)
    → (fail_if c e >> k) ≡ ok b
    → (c ≡ false) × (k ≡ ok b)
fail_if-ok true e k b h = cc
fail_if-ok false e k b h = (refl, h)

pub ok_injective {ℓ κ} :
    {E : Type ℓ} {A : Type κ} {r : Result E A} {a b : A} → r ≡ ok a → r ≡ ok b → a ≡ b
ok_injective e h = cc
