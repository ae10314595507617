-- ===== src/Examples/Blobs.antt =====
-- A kernel that keeps a list of its blobs, and a compositor that sets a mode twice and shows a frame.
use platform_external_drm_hw.Base.{
  ℕ, ◌+◌, ◌≤◌, pos, negsuc, Bool, true, false, List, [], ◌∷◌, ◌==◌, ◌&&◌, ◌||◌, not, keep, ok, ◌≡◌,
  refl, arith,
}
use platform_external_drm_hw.Kernel.{Kms}
use platform_external_drm_hw.Composition.{DrmDisplayComposition, init_composition, set_display_mode}
use platform_external_drm_hw.Drm.Mode.{no_mode}
use platform_external_drm_hw.Compositor.{apply_composition, clear_display}
use platform_external_drm_hw.Compositor.State.{System, new_compositor}
use platform_external_drm_hw.Compositor.Flatten.Concurrent.{discard}
use platform_external_drm_hw.Compositor.Blobs.{BlobLaws}
use platform_external_drm_hw.Compositor.Blobs.CompositorCall.{composed, cleared}
use platform_external_drm_hw.Compositor.Blobs.CompositorRun.{start, next}
use platform_external_drm_hw.Compositor.Blobs.Lifetime.{lifetime-live}
use platform_external_drm_hw.Examples.Fixtures.{a_device, a_crtc, floats, fences}

abbrev is_live : List ℕ → ℕ → Bool
is_live [] b = false
is_live (x ∷ xs) b = x == b || is_live xs b

abbrev total : List ℕ → ℕ
total [] = 0
total (x ∷ xs) = x + total xs

abbrev pub blob_kms : Kms (List ℕ)
blob_kms = record {
  alloc = λ w. true;
  add_property = λ w es e. pos 1;
  commit = λ w es flags. record { code = ok; out_fence = negsuc 0; world = w };
  create_blob = λ w mode. (ok, total w + 1, (total w + 1) ∷ w);
  destroy_blob = λ w blob. (ok, keep (λ x. not (x == blob)) w);
  set_connector_property = λ w e. (ok, w);
}

not_live_above : (xs : List ℕ) (b : ℕ) → total xs + 1 ≤ b → is_live xs b ≡ false
not_live_above [] b over = refl
not_live_above (x ∷ xs) b over = ground (arith, over, not_live_above xs b)

live-keep :
    (xs : List ℕ) (id b : ℕ)
    → is_live (keep (λ x. not (x == id)) xs) b ≡ (is_live xs b && not (id == b))
live-keep [] id b = refl
live-keep (x ∷ xs) id b = ground (arith, live-keep xs id b)

blob_laws : BlobLaws blob_kms is_live
blob_laws = record {
  created = λ w info b. ground arith;
  fresh = λ w info e. not_live_above w (total w + 1) (omega arith);
  destroyed = λ w id b. live-keep w id b;
  powered = λ w e b. refl;
  committed = λ w es flags b. refl;
}

abbrev at_start : System (List ℕ)
at_start = record {
  compositor = new_compositor 0;
  device = a_device;
  world = 7 ∷ [];
  crashed = false;
}

abbrev modeset_to : ℕ → DrmDisplayComposition
modeset_to clock =
    (set_display_mode (init_composition a_crtc [] 0) (record no_mode { clock = clock })).1

abbrev applied : DrmDisplayComposition → System (List ℕ) → System (List ℕ)
applied comp s = (apply_composition blob_kms floats fences comp s).1

-- Two modes are set in a row, and the display is cleared.
abbrev at_end : System (List ℕ)
at_end =
    clear_display blob_kms floats fences (applied (modeset_to 2) (applied (modeset_to 1) at_start))

lifetime_example : is_live (discard blob_kms at_end) 7 ≡ is_live at_start.world 7
lifetime_example =
    lifetime-live blob_kms is_live blob_laws floats fences 0 at_start at_end refl
      (next
        (next (next start (composed (modeset_to 1) at_start))
          (composed (modeset_to 2) (applied (modeset_to 1) at_start)))
        (cleared (applied (modeset_to 2) (applied (modeset_to 1) at_start))))
      7 (omega arith)
