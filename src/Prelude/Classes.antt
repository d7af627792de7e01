-- ===== src/Prelude/Classes.antt =====
-- Types with a Boolean equality, and maps as functions: `update` is `m[k] = v`, `remove` is
-- `m.erase(k)`.
use Prim.Native.Nat.{ℕ}
use mathlib.Core.Path.{◌≡◌, refl}
use mathlib.Core.Logic.{◌↔◌, ◌≢◌, inl, inr}
use mathlib.Core.Bool.{Bool, true, false}
use mathlib.Core.Option.{Option, none, some}
use native.Mathlib.Omega.{arith}
use rmdb.Prelude.Tests.{◌==◌ as nat_beq, ==_iff, if◌then◌else◌, Bool-cases}

pub record Eq {ℓ} (K : Type ℓ) : Type ℓ where
  pub beq : K → K → Bool
  pub beq_iff : (j k : K) → (beq j k ≡ true) ↔ (j ≡ k)

module _ {ℓ κ} {K : Type ℓ} {V : Type κ} ⦃e : Eq K⦄ where
  abbrev pub update : (K → Option V) → K → V → K → Option V
  update m k v q = if e.beq k q then some v else m q

  abbrev pub remove : (K → Option V) → K → K → Option V
  remove m k q = if e.beq k q then none else m q

module _ {ℓ} {K : Type ℓ} ⦃e : Eq K⦄ where
  pub beq_refl : (k : K) → e.beq k k ≡ true
  beq_refl k = (e.beq_iff k k).1 refl

  pub beq_ne : (j k : K) → j ≢ k → e.beq j k ≡ false
  beq_ne j k h = elim (Bool-cases (e.beq j k)) [
    | inl t ↦ absurd (h ((e.beq_iff j k).0 t))
    | inr f ↦ f
  ]

  pub beq_comm : (j k : K) → e.beq j k ≡ e.beq k j
  beq_comm j k = ground (arith, e.beq_iff j k, e.beq_iff k j)

instance abbrev pub nat_eq : Eq ℕ
nat_eq = record { beq = nat_beq; beq_iff = ==_iff }
