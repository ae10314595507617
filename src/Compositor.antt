-- ===== src/Compositor.antt =====
-- drmdisplaycompositor.cpp: the compositor of a display, from one composition to the commit of a frame
-- and the state that it leaves.
pub mod Request
pub mod State
pub mod Commit
pub mod Modeset
pub mod Disabling
pub mod Flatten
pub mod Blobs
pub mod Dump
use platform_external_drm_hw.Base.{
  ℕ, suc, ◌+◌, ◌-◌, ℤ, pos, negsuc, nonzero, negative, of_bool, Bool, true, false, Option, none,
  some, List, [], ◌∷◌, ◌++◌, map, ◌==◌, ◌&&◌, not, if◌then◌else◌, ok, einval, enodev, enomem,
}
use platform_external_drm_hw.Kernel.{Kms, AtomicEntry, CommitAnswer, CommitFlags, add}
use platform_external_drm_hw.Drm.Mode.{DrmMode, no_mode, to_mode_info}
use platform_external_drm_hw.Drm.Crtc.{DrmCrtc}
use platform_external_drm_hw.Drm.Plane.{DrmPlane}
use platform_external_drm_hw.Drm.Connector.{DrmConnector}
use platform_external_drm_hw.Drm.Device.{DrmDevice, get_connector_for_display, get_crtc_for_display}
use platform_external_drm_hw.Planner.{DrmCompositionPlane}
use platform_external_drm_hw.Composition.{
  DrmDisplayComposition, DrmCompositionType, empty, frame, dpms, modeset, dpms_on,
}
use platform_external_drm_hw.Vsync.{VSyncWorker, vsync_control}
use Request.{
  FloatOps, Flow, go, continued, fault, broke, Line, entry, plane_lines, add_or_break,
  add_code_or_break, to_u64,
}
use State.{
  ModeState, DrmDisplayCompositor, System, Committed, OutFences, flatten_countdown_init,
  destroy_property_blob, create_mode_blob, apply_dpms, set_active_mode,
}
use Commit.{commit_frame}

module _ {W : Type 0} (k : Kms W) where
  module _ (floats : FloatOps) (fences : OutFences) where
    -- `DisablePlanes`: the request turns off the planes of a composition and is committed with no flag.
    disable_line : Option DrmPlane → W → Line → Line
    unfolding add_or_break
    disable_line none w s = record s { flow = fault }
    disable_line (some p) w s =
        add_or_break k w (entry p.id p.fb_property 0)
          (add_or_break k w (entry p.id p.crtc_property 0) s)

    disable_lines : List DrmCompositionPlane → W → Line → Line
    unfolding disable_line
    disable_lines [] w s = s
    disable_lines (c ∷ cs) w s =
        let t = disable_line c.plane w s in
        let rest = disable_lines cs w t in elim t.flow [ go ↦ rest | _ ↦ t ]

    unfoldable pub disable_planes : DrmDisplayComposition → System W → ℤ × System W
    unfolding disable_lines
    disable_planes comp sys =
        let s =
          disable_lines comp.composition_planes sys.world
            (record { flow = go; ret = ok; entries = [] }) in
        let answer =
          k.commit sys.world s.entries (record { allow_modeset = false; test_only = false }) in
        let committed : ℤ × System W = (answer.code, record sys { world = answer.world }) in
        if k.alloc sys.world
        then elim s.flow [
          | go ↦ committed
          | fault ↦ (s.ret, record sys { crashed = true })
          | _ ↦ (s.ret, sys)
        ]
        else (enomem, sys)

    clear_active : Option DrmDisplayComposition → System W → System W
    unfolding disable_planes vsync_control
    clear_active none sys = sys
    clear_active (some comp) sys =
        let (ret, sys') = disable_planes comp sys in
        if nonzero ret then sys' else record sys' {
          compositor = record sys'.compositor {
            active_composition = none;
            vsync_worker = vsync_control sys'.compositor.vsync_worker false;
          };
        }

    unfoldable pub clear_display : System W → System W
    unfolding clear_active
    clear_display sys = clear_active sys.compositor.active_composition sys

    unfoldable pub countdown_expired : DrmDisplayCompositor → Bool
    countdown_expired c = elim c.flatten_countdown [ pos n ↦ n == 0 | negsuc n ↦ true ]

    -- `ApplyFrame` after a commit with this result.
    frame_applied : Bool → Committed W → System W
    unfolding clear_display vsync_control
    frame_applied writeback r = if nonzero r.ret then clear_display r.system else record r.system {
      compositor = record r.system.compositor {
        dump_frames_composited = r.system.compositor.dump_frames_composited + 1;
        active_composition = some r.composition;
        flatten_countdown = flatten_countdown_init;
        vsync_worker = vsync_control r.system.compositor.vsync_worker (not writeback);
      };
    }

    unfoldable pub apply_frame : DrmDisplayComposition → ℤ → Bool → System W → System W
    unfolding commit_frame countdown_expired frame_applied
    apply_frame comp status writeback sys =
        if nonzero status
        then clear_display sys
        else (if writeback && not (countdown_expired sys.compositor)
            then sys
            else frame_applied writeback (commit_frame k floats fences comp false none sys))

    -- `ApplyComposition` for a composition of type FRAME. The code of the test commit is returned; that
    -- of the commit itself is not.
    apply_frame_composition : DrmDisplayComposition → System W → ℤ × System W
    unfolding apply_frame
    apply_frame_composition comp sys =
        let tested = commit_frame k floats fences comp true none sys in
        if comp.geometry_changed
        then (if nonzero tested.ret
            then (tested.ret, tested.system)
            else (ok, apply_frame tested.composition ok false tested.system))
        else (ok, apply_frame comp ok false sys)

    apply_dpms_composition : DrmDisplayComposition → System W → ℤ × System W
    apply_dpms_composition comp sys =
        apply_dpms k comp
          (record sys { compositor = record sys.compositor { active = comp.dpms_mode == dpms_on } })

    -- A mode that was set and not committed yet loses its blob.
    apply_modeset_composition : DrmDisplayComposition → System W → ℤ × System W
    apply_modeset_composition comp sys =
        let mode = sys.compositor.mode in
        let (dropped, w) = destroy_property_blob k sys.world mode.blob_id in
        let (ret, blob_id, w') = create_mode_blob k w comp.display_mode in
        (
          ret,
          record sys {
            compositor = record sys.compositor {
              mode = record mode {
                mode = comp.display_mode;
                blob_id = blob_id;
                needs_modeset = if nonzero ret then mode.needs_modeset else true;
              };
            };
            world = w';
          },
        )

    apply_by_type : DrmCompositionType → DrmDisplayComposition → System W → ℤ × System W
    unfolding apply_frame_composition apply_dpms_composition apply_modeset_composition
    apply_by_type frame comp sys = apply_frame_composition comp sys
    apply_by_type dpms comp sys = apply_dpms_composition comp sys
    apply_by_type modeset comp sys = apply_modeset_composition comp sys
    apply_by_type empty comp sys = (einval, sys)

    unfoldable pub apply_composition : DrmDisplayComposition → System W → ℤ × System W
    unfolding apply_by_type
    apply_composition comp sys = apply_by_type comp.type comp sys

    unfoldable pub test_composition : DrmDisplayComposition → System W → Committed W
    test_composition comp sys = commit_frame k floats fences comp true none sys
