-- ===== src/Prelude/Results.antt =====
-- A value, or the exception that Python raises in its place.
use mathlib.Core.Path.{◌≡◌, refl}
use mathlib.Core.Logic.{◌⊎◌, inl, inr}
use net_cortex.Prelude.Tests.{if◌then◌else◌}
use mathlib.Core.Bool.{Bool, true, false}

pub data Fallible {ℓ κ} (E : Type ℓ) (A : Type κ) : Type (ℓ ⊔ κ) where
  ok : A → Fallible E A
  raise : E → Fallible E A

infixl 5 ◌>>=◌ ◌>>◌
abbrev pub ◌>>=◌ {ℓ κ μ} :
    {E : Type ℓ} {A : Type κ} {B : Type μ} → Fallible E A → (A → Fallible E B) → Fallible E B
ok a >>= f = f a
raise e >>= f = raise e

abbrev pub ◌>>◌ {ℓ κ} :
    {E : Type ℓ} {B : Type κ} → Fallible E (Unit {0}) → Fallible E B → Fallible E B
m >> k = m >>= λ _. k

-- `if not b: raise e`
abbrev pub guard {ℓ} : {E : Type ℓ} → Bool → E → Fallible E (Unit {0})
guard true e = ok tt
guard false e = raise e

pub >>=-eq-ok {ℓ κ μ} :
    {E : Type ℓ} {A : Type κ} {B : Type μ} (m : Fallible E A) (f : A → Fallible E B) (b : B)
    → (m >>= f) ≡ ok b
    → (a : A) × (m ≡ ok a) × (f a ≡ ok b)
>>=-eq-ok (ok a) f b h = (a, refl, h)
>>=-eq-ok (raise e) f b h = cc

pub ok_injective {ℓ κ} :
    {E : Type ℓ} {A : Type κ} (a b : A) → (let r : Fallible E A = ok a in r) ≡ ok b → a ≡ b
ok_injective a b h = cc

pub guard-ok {ℓ} : {E : Type ℓ} (b : Bool) (e : E) (u : Unit {0}) → guard b e ≡ ok u → b ≡ true
guard-ok true e u h = refl
guard-ok false e u h = absurd (cc)

pub Fallible-cases {ℓ κ} :
    {E : Type ℓ} {A : Type κ} (r : Fallible E A)
    → ((a : A) × (r ≡ ok a)) ⊎ ((e : E) × (r ≡ raise e))
Fallible-cases (ok a) = inl (a, refl)
Fallible-cases (raise e) = inr (e, refl)

pub guarded-ok {ℓ κ} :
    {E : Type ℓ} {B : Type κ} (b : Bool) (e : E) (m : Fallible E B) (u : B)
    → (guard b e >> m) ≡ ok u
    → (b ≡ true) × (m ≡ ok u)
guarded-ok true e m u h = (refl, h)
guarded-ok false e m u h = absurd (cc)

pub if_else-ok {ℓ κ} :
    {E : Type ℓ} {A : Type κ} (b : Bool) (x : A) (e : E) (y : A)
    → (if b then ok x else raise e) ≡ ok y
    → (b ≡ true) × (x ≡ y)
if_else-ok true x e y h = (refl, ok_injective {E = _} x y h)
if_else-ok false x e y h = absurd (cc)

pub if_else-raise {ℓ κ} :
    {E : Type ℓ} {A : Type κ} (b : Bool) (x : A) (e e' : E)
    → (if b then ok x else raise e) ≡ raise e'
    → (b ≡ false) × (e ≡ e')
if_else-raise true x e e' h = absurd (cc)
if_else-raise false x e e' h = (refl, cc)

pub >>=-eq-raise {ℓ κ μ} :
    {E : Type ℓ} {A : Type κ} {B : Type μ} (m : Fallible E A) (f : A → Fallible E B) (e : E)
    → (m >>= f) ≡ raise e
    → (m ≡ raise e) ⊎ ((a : A) × (m ≡ ok a) × (f a ≡ raise e))
>>=-eq-raise (ok a) f e h = inr (a, refl, h)
>>=-eq-raise (raise e') f e h = inl (cc)
