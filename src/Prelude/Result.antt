-- ===== src/Prelude/Result.antt =====
-- Python's raising functions: a result or the error raised.
use mathlib.Core.Path.{◌≡◌, refl}
use mathlib.Core.Bool.{Bool, true, false}

pub data Outcome {ℓ κ} (E : Type ℓ) (A : Type κ) : Type (ℓ ⊔ κ) where
  done : A → Outcome E A
  raised : E → Outcome E A

infixl 5 ◌>>=◌ ◌>>◌
abbrev pub ◌>>=◌ {ℓ κ μ} :
    {E : Type ℓ} {A : Type κ} {B : Type μ} → Outcome E A → (A → Outcome E B) → Outcome E B
done a >>= f = f a
raised e >>= f = raised e

abbrev pub ◌>>◌ {ℓ μ} : {E : Type ℓ} {B : Type μ} → Outcome E (Unit {0}) → Outcome E B → Outcome E B
m >> k = m >>= λ _. k

-- `if condition: raise error`
abbrev pub raise_when {ℓ} : {E : Type ℓ} → Bool → E → Outcome E (Unit {0})
raise_when true e = raised e
raise_when false e = done tt

pub >>=-eq-done {ℓ κ μ} :
    {E : Type ℓ} {A : Type κ} {B : Type μ} (m : Outcome E A) (f : A → Outcome E B) {b : B}
    → (m >>= f) ≡ done b
    → (a : A) × (m ≡ done a) × (f a ≡ done b)
>>=-eq-done (done a) f h = (a, refl, h)
>>=-eq-done (raised e) f h = cc

pub done_inj {ℓ κ} :
    {E : Type ℓ} {A : Type κ} {a b : A} → ◌≡◌ {A = Outcome E A} (done a) (done b) → a ≡ b
done_inj h = cc

-- A chain that gets past a guard: the guard's condition does not hold.
pub passed_on {ℓ μ} :
    {E : Type ℓ} {B : Type μ} (b : Bool) (e : E) (m : Outcome E B) {a : B}
    → (raise_when b e >> m) ≡ done a
    → (b ≡ false) × (m ≡ done a)
passed_on true e m h = cc
passed_on false e m h = (refl, h)
