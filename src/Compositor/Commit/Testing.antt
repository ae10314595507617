-- ===== src/Compositor/Commit/Testing.antt =====
-- A commit that is only a test.
use platform_external_drm_hw.Base.{ℕ, ℤ, true, Option, none, some, arith, ◌≡◌, refl}
use platform_external_drm_hw.Kernel.{Kms}
use platform_external_drm_hw.Drm.Crtc.{DrmCrtc}
use platform_external_drm_hw.Drm.Connector.{DrmConnector}
use platform_external_drm_hw.Drm.Device.{get_connector_for_display, get_crtc_for_display}
use platform_external_drm_hw.Composition.{DrmDisplayComposition}
use platform_external_drm_hw.Compositor.Request.{FloatOps, Line, plane_lines}
use platform_external_drm_hw.Compositor.State.{System, Committed, OutFences}
use platform_external_drm_hw.Compositor.Commit.{
  after_loop, frame_body, commit_on, commit_frame, commit_found, frame_head, keep_out_fence,
}
use platform_external_drm_hw.Compositor.{test_composition}

-- The compositor, the device, and the layers and planes of the composition stay as they were.
pub record Unchanged {W : Type 0} (comp : DrmDisplayComposition) (sys : System W) (r : Committed W)
    : Type 0 where
  pub compositor : r.system.compositor ≡ sys.compositor
  pub device : r.system.device ≡ sys.device
  pub layers : r.composition.layers ≡ comp.layers
  pub planes : r.composition.composition_planes ≡ comp.composition_planes

module _ {W : Type 0} (k : Kms W) where
  after_loop-Unchanged :
      (crtc : DrmCrtc) (conn : DrmConnector) (stale : ℤ) (comp : DrmDisplayComposition) (s : Line)
      (sys : System W)
      → Unchanged comp sys (after_loop k crtc conn true stale comp s sys)
  unfolding after_loop keep_out_fence
  after_loop-Unchanged crtc conn stale comp s sys = ground arith

  module _ (floats : FloatOps) (fences : OutFences) where
    frame_body-Unchanged :
        (crtc : DrmCrtc) (conn : DrmConnector) (comp : DrmDisplayComposition) (head : Line)
        (sys : System W)
        → Unchanged comp sys (frame_body k floats fences crtc conn true comp head sys)
    unfolding frame_body
    frame_body-Unchanged crtc conn comp head sys =
        let s = plane_lines k sys.world floats comp.layers comp.composition_planes head in
        ground (arith, after_loop-Unchanged crtc conn fences.stale comp s sys)

    commit_on-Unchanged :
        (crtc : DrmCrtc) (conn : DrmConnector) (writeback : Option (Option DrmConnector × ℕ))
        (comp : DrmDisplayComposition) (sys : System W)
        → Unchanged comp sys (commit_on k floats fences crtc conn true writeback comp sys)
    unfolding commit_on
    commit_on-Unchanged crtc conn writeback comp sys =
        let head = frame_head k sys.world crtc conn sys.compositor.mode writeback fences in
        ground (arith, frame_body-Unchanged crtc conn comp head sys)

    commit_found-Unchanged :
        (conn : Option DrmConnector) (crtc : Option DrmCrtc)
        (writeback : Option (Option DrmConnector × ℕ)) (comp : DrmDisplayComposition)
        (sys : System W)
        → Unchanged comp sys (commit_found k floats fences conn crtc true writeback comp sys)
    unfolding commit_found
    commit_found-Unchanged none crtc writeback comp sys = record {
      compositor = refl;
      device = refl;
      layers = refl;
      planes = refl;
    }
    commit_found-Unchanged (some conn) none writeback comp sys = record {
      compositor = refl;
      device = refl;
      layers = refl;
      planes = refl;
    }
    commit_found-Unchanged (some conn) (some crtc) writeback comp sys =
        commit_on-Unchanged crtc conn writeback comp sys

    -- A test commit, however it ends, changes neither the state of the compositor nor the device, and
    -- of the composition at most the out fence.
    pub test_composition-Unchanged :
        (comp : DrmDisplayComposition) (sys : System W)
        → Unchanged comp sys (test_composition k floats fences comp sys)
    unfolding test_composition commit_frame
    test_composition-Unchanged comp sys =
        commit_found-Unchanged (get_connector_for_display sys.device (some sys.compositor.display))
          (get_crtc_for_display sys.device (some sys.compositor.display)) none comp sys
