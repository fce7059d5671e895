-- ===== src/Base/Outcome.antt =====
-- A call that returns or throws. The state that a method leaves behind is part of what it returns.
use mathlib.Core.Path.{◌≡◌, refl}

pub data Outcome {ℓ κ} (E : Type ℓ) (A : Type κ) : Type (ℓ ⊔ κ) where
  throws : E → Outcome E A
  returns : A → Outcome E A

infixl 5 ◌>>=◌ ◌>>◌
abbrev pub ◌>>=◌ {ℓ κ μ} :
    {E : Type ℓ} {A : Type κ} {B : Type μ} → Outcome E A → (A → Outcome E B) → Outcome E B
throws e >>= _ = throws e
returns a >>= next = next a

abbrev pub ◌>>◌ {ℓ κ} : {E : Type ℓ} {B : Type κ} → Outcome E (Unit {0}) → Outcome E B → Outcome E B
first >> next = first >>= λ _. next

-- A block that returns: its first call returned, and so did the rest at that value.
pub returns-bind {ℓ κ μ} :
    {E : Type ℓ} {A : Type κ} {B : Type μ} (first : Outcome E A) (next : A → Outcome E B) {b : B}
    → (first >>= next) ≡ returns b
    → (a : A) × (first ≡ returns a) × (next a ≡ returns b)
returns-bind (throws e) next h = cc
returns-bind (returns a) next h = (a, refl, h)
