-- ===== src/Compositor/Flatten/Squash.antt =====
-- The planes of a flattened frame.
use platform_external_drm_hw.Base.{ℕ, Bool, ◌&&◌, count_if}
use platform_external_drm_hw.Drm.Crtc.{DrmCrtc}
use platform_external_drm_hw.Drm.Plane.{DrmPlane, get_crtc_supported}
use platform_external_drm_hw.Planner.Counts.{used_planes}
use platform_external_drm_hw.Composition.{DrmDisplayComposition}
use platform_external_drm_hw.Composition.Coverage.{has_id}

-- A plane with this id that the CRTC supports.
abbrev pub supported_id : DrmCrtc → ℕ → DrmPlane → Bool
supported_id crtc k p = get_crtc_supported p crtc && has_id k p

abbrev count_of : ℕ → DrmDisplayComposition → ℕ
count_of k comp = count_if (has_id k) (used_planes comp.composition_planes)
