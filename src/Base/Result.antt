-- ===== src/Base/Result.antt =====
-- A value or an exception, and what holds of each value that is returned.
use mathlib.Core.Path.{◌≡◌, refl, ap, subst}
use mathlib.Core.Bool.{Bool, true, false}
use firmos.Base.Tests.{if◌then◌else◌}

pub data Result {ℓ} (E : Type 0) (A : Type ℓ) : Type ℓ where
  ok : A → Result E A
  raised : E → Result E A

infixl 5 ◌>>=◌ ◌>>◌
unfoldable pub ◌>>=◌ {ℓ κ} :
    {E : Type 0} {A : Type ℓ} {B : Type κ} → Result E A → (A → Result E B) → Result E B
ok a >>= f = f a
raised e >>= f = raised e

abbrev pub ◌>>◌ {ℓ κ} :
    {E : Type 0} {A : Type ℓ} {B : Type κ} → Result E A → Result E B → Result E B
m >> k = m >>= λ _. k

unfoldable pub raise_if : {E : Type 0} → Bool → E → Result E (Unit {0})
raise_if b e = if b then raised e else ok tt

-- An exception seen as another.
unfoldable pub reraise {ℓ} : {E F : Type 0} {A : Type ℓ} → F → Result E A → Result F A
reraise f (ok a) = ok a
reraise f (raised e) = raised f

pub data Ensures {ℓ} {E : Type 0} {A : Type ℓ} (P : A → Type 0) : Result E A → Type ℓ where
  returns : (a : A) → P a → Ensures P (ok a)
  raises : (e : E) → Ensures P (raised e)

pub binds {ℓ κ} :
    {E : Type 0} {A : Type ℓ} {B : Type κ} {P : B → Type 0} (m : Result E A) (f : A → Result E B)
    → ((a : A) → m ≡ ok a → Ensures P (f a))
    → Ensures P (m >>= f)
unfolding ◌>>=◌
binds (ok a) f h = h a refl
binds (raised e) f h = raises e

pub guards {ℓ} :
    {E : Type 0} {B : Type ℓ} {P : B → Type 0} (test : Bool) (e : E) (k : Result E B)
    → (test ≡ false → Ensures P k)
    → Ensures P (raise_if test e >> k)
unfolding ◌>>=◌ raise_if
guards true e k h = raises e
guards false e k h = h refl

pub ensured {ℓ} :
    {E : Type 0} {A : Type ℓ} {P : A → Type 0} {m : Result E A} (a : A)
    → m ≡ ok a
    → Ensures P m
    → P a
ensured {P = P} a e (returns b h) = subst P (ap (λ r. elim r [ ok x ↦ x | raised _ ↦ a ]) e) h
ensured a e (raises x) = cc

pub weaken {ℓ} :
    {E : Type 0} {A : Type ℓ} {P Q : A → Type 0} {m : Result E A}
    → ((a : A) → P a → Q a)
    → Ensures P m
    → Ensures Q m
weaken f (returns a h) = returns a (f a h)
weaken f (raises e) = raises e

pub bind-ok {ℓ κ} :
    {E : Type 0} {A : Type ℓ} {B : Type κ} (m : Result E A) (f : A → Result E B) (b : B)
    → (m >>= f) ≡ ok b
    → (a : A) × (m ≡ ok a) × (f a ≡ ok b)
unfolding ◌>>=◌
bind-ok (ok a) f b h = (a, refl, h)
bind-ok (raised e) f b h = cc

pub ok_injective {ℓ} :
    {E : Type 0} {A : Type ℓ} {a b : A} → ◌≡◌ {A = Result E A} (ok a) (ok b) → a ≡ b
ok_injective {a = a} h = ap (λ r. elim r [ ok x ↦ x | raised _ ↦ a ]) h
