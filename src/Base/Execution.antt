-- ===== src/Base/Execution.antt =====
-- Fallible code over a state: an exception is a value, and what was written before it stays.
use mathlib.Core.Path.{◌≡◌, refl, ap}
use mathlib.Core.Logic.{◌⊎◌, inl, inr}
use mathlib.Core.Bool.{Bool, true, false}

pub data Result {ℓ κ} (E : Type ℓ) (A : Type κ) : Type (ℓ ⊔ κ) where
  ok : A → Result E A
  err : E → Result E A

-- A call returns its result, or the exception, and the state that it leaves.
abbrev pub Exec {ℓ κ ι} : Type ℓ → Type κ → Type ι → Type (ℓ ⊔ κ ⊔ ι)
Exec S E A = S → Result E A × S

abbrev pub pure {ℓ κ ι} : {S : Type ℓ} {E : Type κ} {A : Type ι} → A → Exec S E A
pure a s = (ok a, s)

abbrev pub raise {ℓ κ ι} : {S : Type ℓ} {E : Type κ} {A : Type ι} → E → Exec S E A
raise e s = (err e, s)

abbrev pub raise_if {ℓ κ} : {S : Type ℓ} {E : Type κ} → Bool → E → Exec S E (Unit {0})
raise_if true e s = (err e, s)
raise_if false e s = (ok tt, s)

infixl 5 ◌>>=◌ ◌>>◌
abbrev pub ◌>>=◌ {ℓ κ ι μ} :
    {S : Type ℓ} {E : Type κ} {A : Type ι} {B : Type μ} → Exec S E A → (A → Exec S E B) → Exec S E B
◌>>=◌ m f s = let (r, s') = m s in elim r [ ok a ↦ f a s' | err e ↦ (err e, s') ]

abbrev pub ◌>>◌ {ℓ κ ι μ} :
    {S : Type ℓ} {E : Type κ} {A : Type ι} {B : Type μ} → Exec S E A → Exec S E B → Exec S E B
m >> k = m >>= λ _. k

-- A pure check that may raise.
abbrev pub check_if {ℓ κ} : {E : Type ℓ} {A : Type κ} → Bool → E → Result E A → Result E A
check_if true e r = err e
check_if false e r = r

pub check_if-ok {ℓ κ} :
    {E : Type ℓ} {A : Type κ} (b : Bool) (e : E) (r : Result E A) {a : A}
    → check_if b e r ≡ ok a
    → (b ≡ false) × (r ≡ ok a)
check_if-ok true e r h = cc
check_if-ok false e r h = (refl, h)

pub Result-cases {ℓ κ} :
    {E : Type ℓ} {A : Type κ} (r : Result E A) → ((a : A) × (r ≡ ok a)) ⊎ ((e : E) × (r ≡ err e))
Result-cases (ok a) = inl (a, refl)
Result-cases (err e) = inr (e, refl)

abbrev ok_or {ℓ κ} : {E : Type ℓ} {A : Type κ} → A → Result E A → A
ok_or d (ok a) = a
ok_or d (err e) = d

pub ok-injective {ℓ κ} :
    {E : Type ℓ} {A : Type κ} {a b : A} → ◌≡◌ {A = Result E A} (ok a) (ok b) → a ≡ b
ok-injective {a} h = ap (ok_or a) h
