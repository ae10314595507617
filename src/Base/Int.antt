-- ===== src/Base/Int.antt =====
-- Signed integers over the native numbers, for the `int` results of the program and of libdrm.
use Prim.Native.Nat.{ℕ, zero, suc, ◌-◌}
use mathlib.Core.Bool.{Bool, true, false}
use native.Mathlib.Decide.{ℕ_discrete}
use platform_external_drm_hw.Base.Tests.{leb, if◌then◌else◌}

-- `negsuc n` is -(n + 1).
pub data ℤ : Type 0 where
  pos : ℕ → ℤ
  negsuc : ℕ → ℤ

-- `if (ret)`.
abbrev pub nonzero : ℤ → Bool
nonzero (pos zero) = false
nonzero (pos (suc n)) = true
nonzero (negsuc n) = true

-- `ret < 0`.
abbrev pub negative : ℤ → Bool
negative (pos n) = false
negative (negsuc n) = true

-- A Boolean converted to `int`.
abbrev pub of_bool : Bool → ℤ
of_bool true = pos 1
of_bool false = pos 0

-- a - b, as an integer.
abbrev pub sub_ℕ : ℕ → ℕ → ℤ
sub_ℕ a b = if leb b a then pos (a - b) else negsuc (b - a - 1)

pub ℤ-discrete : Discrete ℤ
ℤ-discrete = hlevel ℕ_discrete
