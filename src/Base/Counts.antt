-- ===== src/Base/Counts.antt =====
-- Counting the elements of a list that pass a test.
use Prim.Native.Nat.{◌+◌, ◌≤◌}
use mathlib.Core.Path.{◌≡◌, refl}
use mathlib.Core.Bool.{Bool, true, false, ◌&&◌}
use mathlib.Core.List.{List, [], ◌∷◌, ◌++◌}
use native.Mathlib.Omega.{arith}
use platform_external_drm_hw.Base.Lists.{length, keep, count_if, All}

module _ {ℓ} {A : Type ℓ} (t : A → Bool) where
  pub count_if-append : (xs ys : List A) → count_if t (xs ++ ys) ≡ count_if t xs + count_if t ys
  count_if-append [] ys = omega arith
  count_if-append (x ∷ xs) ys = ground (arith, count_if-append xs ys)

  pub count_if-keep-le : (p : A → Bool) (xs : List A) → count_if t (keep p xs) ≤ count_if t xs
  count_if-keep-le p [] = omega arith
  count_if-keep-le p (x ∷ xs) = ground (arith, count_if-keep-le p xs)

  pub count_if-le-length : (xs : List A) → count_if t xs ≤ length xs
  count_if-le-length [] = omega arith
  count_if-le-length (x ∷ xs) = ground (arith, count_if-le-length xs)

  pub count_if-eq_zero : (xs : List A) → All (λ x. t x ≡ false) xs → count_if t xs ≡ 0
  count_if-eq_zero [] h = refl
  count_if-eq_zero (x ∷ xs) h = ground (arith, h.0, count_if-eq_zero xs h.1)

  -- Adding a test that every element passes changes no count.
  pub count_if-and :
      (s : A → Bool) (xs : List A)
      → All (λ x. s x ≡ true) xs
      → count_if (λ x. s x && t x) xs ≡ count_if t xs
  count_if-and s [] h = refl
  count_if-and s (x ∷ xs) h = ground (arith, h.0, count_if-and s xs h.1)

  pub count_if-and_zero :
      (s : A → Bool) (xs : List A) → All (λ x. s x ≡ false) xs → count_if (λ x. s x && t x) xs ≡ 0
  count_if-and_zero s [] h = refl
  count_if-and_zero s (x ∷ xs) h = ground (arith, h.0, count_if-and_zero s xs h.1)
