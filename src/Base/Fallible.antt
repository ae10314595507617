-- ===== src/Base/Fallible.antt =====
-- A computation that returns an `int` error code or goes on with a value.
use platform_external_drm_hw.Base.Int.{ℤ, nonzero}
use platform_external_drm_hw.Base.Tests.{if◌then◌else◌, Bool-cases}
use mathlib.Core.Path.{◌≡◌, refl, ap}
use mathlib.Core.Bool.{false}
use mathlib.Core.Logic.{inl, inr}
use native.Mathlib.Omega.{arith}

pub data Result {ℓ} (A : Type ℓ) : Type ℓ where
  done : A → Result A
  failed : ℤ → Result A

infixl 5 ◌>>=◌
abbrev pub ◌>>=◌ {ℓ κ} : {A : Type ℓ} {B : Type κ} → Result A → (A → Result B) → Result B
done a >>= f = f a
failed e >>= f = failed e

-- `if (ret) return ret;`
abbrev pub check {ℓ} : {A : Type ℓ} → ℤ × A → Result A
check (ret, a) = if nonzero ret then failed ret else done a

-- A computation that has come to an end has passed its first step.
pub after_done {ℓ κ μ} :
    {A : Type ℓ} {B : Type κ} {C : Type μ} (r : Result A) (f : A → Result B) (b : B)
    → (r >>= f) ≡ done b
    → ((a : A) → r ≡ done a → f a ≡ done b → C)
    → C
after_done (done a) f b e k = k a refl e
after_done (failed c) f b e k = grind (arith, e)

done_or : {A : Type 0} → A → Result A → A
done_or a (done b) = b
done_or a (failed e) = a

pub done-injective : {A : Type 0} → (a b : A) → done a ≡ done b → a ≡ b
unfolding done_or
done-injective a b e = ap (done_or a) e

pub checked :
    {A : Type 0} → (r : ℤ × A) (a : A) → check r ≡ done a → (nonzero r.0 ≡ false) × (a ≡ r.1)
checked (ret, b) a e = elim (Bool-cases (nonzero ret)) [
  | inl fails ↦ grind (arith, fails, e)
  | inr passes ↦ (passes, grind (arith, passes, e))
]
