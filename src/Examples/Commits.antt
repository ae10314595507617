-- ===== src/Examples/Commits.antt =====
-- Commits of the compositor, and the small queries around them.
use platform_external_drm_hw.Base.{ℕ, negative, false, true, none, some, List, [], ◌≡◌, refl, All}
use platform_external_drm_hw.Kernel.{AtomicEntry}
use platform_external_drm_hw.Drm.Device.{get_connector_for_display}
use platform_external_drm_hw.Composition.{
  DrmDisplayComposition, init_composition, add_plane_disable,
}
use platform_external_drm_hw.Compositor.{disable_planes}
use platform_external_drm_hw.Compositor.Disabling.{disables, HasPlane, disable_planes-commits}
use platform_external_drm_hw.Compositor.Commit.{commit_frame}
use platform_external_drm_hw.Compositor.Commit.Setting.{IsSettled, commit_frame-IsSettled}
use platform_external_drm_hw.Compositor.State.{System}
use platform_external_drm_hw.Examples.Fixtures.{
  kms, floats, fences, system, a_crtc, a_mode, primary_plane,
}

-- A composition that only turns off a plane, and a system with a mode to set.
abbrev empty_screen : DrmDisplayComposition
empty_screen = add_plane_disable (init_composition a_crtc [] 0) primary_plane

abbrev mode_set : System ℕ
mode_set = record system {
  compositor = record system.compositor {
    mode = record { needs_modeset = true; mode = a_mode; blob_id = 9; old_blob_id = 8 };
  };
}

commit_example :
    IsSettled
      (get_connector_for_display mode_set.device (some 0))
      mode_set
      (commit_frame kms floats fences empty_screen false none mode_set).system
commit_example = commit_frame-IsSettled kms floats fences empty_screen false none mode_set

kms-accepts :
    (w : ℕ) (es : List AtomicEntry) (e : AtomicEntry) → negative (kms.add_property w es e) ≡ false
kms-accepts w es e = refl

empty_screen-planes : All (λ c. HasPlane c.plane) empty_screen.composition_planes
unfolding add_plane_disable init_composition
empty_screen-planes = (tt, tt)

disabling_example : disable_planes kms floats fences empty_screen system ≡ (
  (kms.commit 0
      (disables empty_screen.composition_planes)
      (record { allow_modeset = false; test_only = false })).code,
  record system { world = 1 },
)
disabling_example =
    disable_planes-commits kms floats fences kms-accepts empty_screen system refl
      empty_screen-planes
