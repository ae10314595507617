-- ===== src/Examples/Buffers.antt =====
-- Buffers of the importers.
use platform_external_drm_hw.Base.{
  ℕ, ◌+◌, ◌*◌, ◌/◌, ◌%◌, ◌≤◌, ◌≡◌, ◌≢◌, refl, [], ◌∷◌, arith, ℤ, ok, pos, count_if, All, List,
  length, Option, true, ◌==◌, some, false, einval,
}
use platform_external_drm_hw.Handles.Owner.{
  OwnerCall, takes, moves, gives, Pair, handles, owner_life, owner_of, native_handle, brought,
}
use platform_external_drm_hw.Handles.Owner.Balanced.{owners-balanced}
use platform_external_drm_hw.Layer.{DrmBo}
use platform_external_drm_hw.Importers.{
  no_bo, release_buffer, max_planes, yvu420, convert_hal_format_to_drm,
}
use platform_external_drm_hw.Importers.Release.{release_buffer-once, is_call, once, has}
use platform_external_drm_hw.Importers.Hisi.{PrivateHandle, hisi_bo, align_of}
use platform_external_drm_hw.Importers.Hisi.Layout.{FitsInt, hisi_bo-planes, entry}

abbrev shared_bo : DrmBo
shared_bo = record no_bo { gem_handles = 5 ∷ 5 ∷ 7 ∷ 0 ∷ []; fb_id = 3 }

abbrev closing : ℕ → ℤ
closing h = ok

five_is_not_zero : ◌≢◌ {A = ℕ} 5 0
five_is_not_zero = omega arith

four_planes : length shared_bo.gem_handles ≤ max_planes
four_planes = omega arith

release_example :
    (count_if (is_call 5) (release_buffer closing shared_bo).closed
      ≡ once (has 5 shared_bo.gem_handles))
    × All (λ h. h ≡ 0) (release_buffer closing shared_bo).bo.gem_handles
release_example = release_buffer-once closing (λ h. refl) shared_bo four_planes 5 five_is_not_zero

release_test : (release_buffer closing shared_bo).closed ≡ 5 ∷ 7 ∷ []
unfolding release_buffer
release_test = refl

abbrev a_handle : PrivateHandle
a_handle = record {
  usage = 4096;
  share_fd = pos 4;
  req_format = 0x32315659;
  width = 100;
  height = 51;
  stride = 112;
  byte_stride = 112;
}

a_handle-format : convert_hal_format_to_drm a_handle.req_format ≡ yvu420
unfolding convert_hal_format_to_drm
a_handle-format = refl

a_handle-FitsInt : FitsInt a_handle
a_handle-FitsInt = record { height = omega arith; byte_stride = omega arith; planes = omega arith }

layout_example :
    (51 * entry (hisi_bo a_handle 9).pitches 0 ≤ entry (hisi_bo a_handle 9).offsets 1)
    × (entry (hisi_bo a_handle 9).offsets 1 + 26 * entry (hisi_bo a_handle 9).pitches 1
        ≤ entry (hisi_bo a_handle 9).offsets 2)
    × (entry (hisi_bo a_handle 9).pitches 2 ≡ entry (hisi_bo a_handle 9).pitches 1)
    × (entry (hisi_bo a_handle 9).pitches 0 / 2 ≤ entry (hisi_bo a_handle 9).pitches 1)
    × (entry (hisi_bo a_handle 9).pitches 1 % align_of a_handle ≡ 0)
layout_example = hisi_bo-planes a_handle 9 a_handle-format a_handle-FitsInt

-- Two handles: one is imported, moved over the other and given away, and an import fails.
abbrev handle_calls : List (OwnerCall (ℤ × ℕ))
handle_calls = takes true (ok, 9) ∷ moves false ∷ takes true (einval, 8) ∷ gives false ∷ []

abbrev two_handles : Pair (Option ℕ)
two_handles = record { left = some 5; right = some 9 }

owners_test : owner_life handles handle_calls two_handles ≡ (9 ∷ [], 5 ∷ 9 ∷ [])
unfolding owner_life handles
owners_test = refl

owners_example :
    count_if (λ n. n == 9) (owner_life (owner_of native_handle) handle_calls two_handles).0
      + count_if (λ n. n == 9) (owner_life (owner_of native_handle) handle_calls two_handles).1
    ≡ count_if (λ n. n == 9) (brought (owner_of native_handle) handle_calls)
      + (count_if (λ n. n == 9) ((owner_of native_handle).holds two_handles.left)
          + count_if (λ n. n == 9) ((owner_of native_handle).holds two_handles.right))
owners_example = owners-balanced native_handle (λ n. n == 9) handle_calls two_handles
