-- ===== src/Importers/Release.antt =====
-- What `ReleaseBuffer` closes.
use platform_external_drm_hw.Base.{
  ℕ, zero, suc, ◌≤◌, ℤ, nonzero, Bool, true, false, List, [], ◌∷◌, map, ◌==◌, ◌||◌, not, ◌&&◌, ◌≡◌,
  refl, ◌≢◌, arith, length, length-map, All, count_if,
}
use platform_external_drm_hw.Layer.{DrmBo}
use platform_external_drm_hw.Importers.{clear_handle, release_handles, release_buffer, max_planes}

abbrev pub has : ℕ → List ℕ → Bool
has k [] = false
has k (h ∷ hs) = h == k || has k hs

abbrev pub is_call : ℕ → ℕ → Bool
is_call k h = h == k

has-clear_handle :
    (k h : ℕ) (hs : List ℕ) → k ≢ 0 → has k (map (clear_handle h) hs) ≡ (not (h == k) && has k hs)
has-clear_handle k h [] some_handle = ground arith
has-clear_handle k h (x ∷ xs) some_handle =
    ground (arith, some_handle, has-clear_handle k h xs some_handle)

-- How often a handle is to be closed.
abbrev pub once : Bool → ℕ
once true = 1
once false = 0

module _ (close : ℕ → ℤ) (closes : (h : ℕ) → nonzero (close h) ≡ false) where
  count-release_handles :
      (n : ℕ) (hs : List ℕ) (k : ℕ)
      → length hs ≤ n
      → k ≢ 0
      → count_if (is_call k) (release_handles close n hs).0 ≡ once (has k hs)
  unfolding release_handles
  count-release_handles zero [] k fits some_handle = refl
  count-release_handles zero (h ∷ hs) k fits some_handle = absurd (omega (arith, fits))
  count-release_handles (suc n) [] k fits some_handle = refl
  count-release_handles (suc n) (h ∷ hs) k fits some_handle = ground (
    arith,
    fits,
    some_handle,
    closes h,
    length-map hs (clear_handle h),
    has-clear_handle k h hs some_handle,
    count-release_handles n hs k (omega (arith, fits)) some_handle,
    count-release_handles n (map (clear_handle h) hs) k
        (omega (arith, fits, length-map hs (clear_handle h))) some_handle,
  )

  left-release_handles :
      (n : ℕ) (hs : List ℕ) → length hs ≤ n → All (λ h. h ≡ 0) (release_handles close n hs).1
  unfolding release_handles
  left-release_handles zero [] fits = tt
  left-release_handles zero (h ∷ hs) fits = absurd (omega (arith, fits))
  left-release_handles (suc n) [] fits = tt
  left-release_handles (suc n) (h ∷ hs) fits = ground (
    arith,
    closes h,
    left-release_handles n hs (omega (arith, fits)),
    left-release_handles n (map (clear_handle h) hs)
        (omega (arith, fits, length-map hs (clear_handle h))),
  )

  -- If the kernel closes what it is asked to, `ReleaseBuffer` closes every GEM handle of a buffer with at
  -- most four planes exactly once, however many planes share it, closes no other handle but perhaps
  -- 0, and leaves no handle in the buffer object.
  pub release_buffer-once :
      (bo : DrmBo)
      → length bo.gem_handles ≤ max_planes
      → (k : ℕ) → k ≢ 0
      → (count_if (is_call k) (release_buffer close bo).closed ≡ once (has k bo.gem_handles))
        × All (λ h. h ≡ 0) (release_buffer close bo).bo.gem_handles
  unfolding release_buffer
  release_buffer-once bo fits k some_handle = (
    count-release_handles max_planes bo.gem_handles k fits some_handle,
    left-release_handles max_planes bo.gem_handles fits,
  )
