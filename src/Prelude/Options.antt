-- ===== src/Prelude/Options.antt =====
-- `do` blocks over options: `none` is a thrown error.
use mathlib.Core.Path.{◌≡◌, refl, subst}
use mathlib.Core.Option.{Option, none, some}

infixl 5 ◌>>=◌ ◌>>◌
abbrev pub ◌>>=◌ {ℓ κ} : {A : Type ℓ} {B : Type κ} → Option A → (A → Option B) → Option B
none >>= f = none
some a >>= f = f a

abbrev pub ◌>>◌ {ℓ κ} : {A : Type ℓ} {B : Type κ} → Option A → Option B → Option B
m >> k = m >>= λ _. k

-- A condition on the result, if there is one.
abbrev pub Ensures {ℓ κ} : {A : Type ℓ} → (A → Type κ) → Option A → Type κ
Ensures P none = Unit
Ensures P (some a) = P a

module _ {ℓ κ μ} {A : Type ℓ} {B : Type κ} where
  pub Ensures-bind :
      (P : B → Type μ) (m : Option A) (f : A → Option B)
      → ((a : A) → m ≡ some a → Ensures P (f a))
      → Ensures P (m >>= f)
  Ensures-bind P none f k = tt
  Ensures-bind P (some a) f k = k a refl

pub ensures_eq {ℓ κ} :
    {A : Type ℓ} (P : A → Type κ) (m : Option A) (a : A) → Ensures P m → m ≡ some a → P a
ensures_eq P m a h e = subst (Ensures P) e h

pub to_ensures {ℓ κ} :
    {A : Type ℓ} (P : A → Type κ) (m : Option A) → ((a : A) → m ≡ some a → P a) → Ensures P m
to_ensures P none k = tt
to_ensures P (some a) k = k a refl

pub bind_assoc {ℓ κ μ} :
    {A : Type ℓ} {B : Type κ} {C : Type μ} (m : Option A) (f : A → Option B) (g : B → Option C)
    → (m >>= f >>= g) ≡ (m >>= λ a. f a >>= g)
bind_assoc none f g = refl
bind_assoc (some a) f g = refl
