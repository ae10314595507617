-- ===== src/Compositor/Blobs/Calls.antt =====
-- That each call of a compositor keeps the books of each mode blob.
use platform_external_drm_hw.Base.{
  if◌then◌else◌, ℕ, ℤ, Bool, true, false, Option, none, some, ◌==◌, nonzero, ok, ◌≡◌, ◌≢◌, arith,
  List, [],
}
use platform_external_drm_hw.Kernel.{Kms, AtomicEntry, CommitFlags}
use platform_external_drm_hw.Composition.{
  DrmDisplayComposition, DrmCompositionType, empty, frame, dpms, modeset, dpms_on,
}
use platform_external_drm_hw.Compositor.Request.{FloatOps, go}
use platform_external_drm_hw.Compositor.State.{
  ModeState, System, Committed, OutFences, destroy_property_blob, create_mode_blob, apply_dpms,
}
use platform_external_drm_hw.Compositor.Commit.{commit_frame}
use platform_external_drm_hw.Compositor.Commit.Ledger.{commit_frame-IsBalanced}
use platform_external_drm_hw.Compositor.Commit.Setting.{apply_dpms-IsSame}
use platform_external_drm_hw.Compositor.{
  disable_planes, disable_lines, clear_active, clear_display, frame_applied, apply_frame,
  apply_composition, apply_by_type, apply_frame_composition, apply_dpms_composition,
  apply_modeset_composition,
}
use platform_external_drm_hw.Compositor.Blobs.{BlobLaws}
use platform_external_drm_hw.Compositor.Blobs.Books.{
  IsBalanced, same_live, apply_dpms-live, dropped, made,
}

module _ {W : Type 0} (k : Kms W) (live : W → ℕ → Bool) (laws : BlobLaws k live) (others : Bool)
    (b : ℕ) (some_id : b ≢ 0) where
  -- A commit with any request.
  pub after_commit :
      (es : List AtomicEntry) (flags : CommitFlags) (s : System W)
      → IsBalanced live others b s
      → IsBalanced live others b (record s { world = (k.commit s.world es flags).world })
  after_commit es flags s h =
      same_live k live laws others b some_id s.compositor.mode s.world
        (k.commit s.world es flags).world (laws.committed s.world es flags b) h

  disable_planes-IsBalanced :
      (floats : FloatOps) (fences : OutFences) (comp : DrmDisplayComposition) (s : System W)
      → IsBalanced live others b s
      → let s' = (disable_planes k floats fences comp s).1 in
        IsBalanced live others b s' × (s'.compositor ≡ s.compositor)
  unfolding disable_planes
  disable_planes-IsBalanced floats fences comp s h =
      let l =
        disable_lines k floats fences comp.composition_planes s.world
          (record { flow = go; ret = ok; entries = [] }) in
      let flags : CommitFlags = record { allow_modeset = false; test_only = false } in
      ground (arith, h, after_commit l.entries flags s h)

  module _ (floats : FloatOps) (fences : OutFences) where
    clear_active-IsBalanced :
        (active : Option DrmDisplayComposition) (s : System W)
        → IsBalanced live others b s
        → IsBalanced live others b (clear_active k floats fences active s)
    unfolding clear_active
    clear_active-IsBalanced none s h = h
    clear_active-IsBalanced (some comp) s h =
        ground (arith, disable_planes-IsBalanced floats fences comp s h)

    pub clear_display-IsBalanced :
        (s : System W)
        → IsBalanced live others b s
        → IsBalanced live others b (clear_display k floats fences s)
    unfolding clear_display
    clear_display-IsBalanced s h = clear_active-IsBalanced s.compositor.active_composition s h

    frame_applied-IsBalanced :
        (writeback : Bool) (r : Committed W)
        → IsBalanced live others b r.system
        → IsBalanced live others b (frame_applied k floats fences writeback r)
    unfolding frame_applied
    frame_applied-IsBalanced writeback r h = ground (arith, h, clear_display-IsBalanced r.system h)

    pub apply_frame-IsBalanced :
        (comp : DrmDisplayComposition) (status : ℤ) (writeback : Bool) (s : System W)
        → IsBalanced live others b s
        → IsBalanced live others b (apply_frame k floats fences comp status writeback s)
    unfolding apply_frame
    apply_frame-IsBalanced comp status writeback s h =
        let r = commit_frame k floats fences comp false none s in
        let kept =
          commit_frame-IsBalanced k live laws others b some_id floats fences comp false none s h in
        ground (arith, h, clear_display-IsBalanced s h, frame_applied-IsBalanced writeback r kept)

    apply_frame_composition-IsBalanced :
        (comp : DrmDisplayComposition) (s : System W)
        → IsBalanced live others b s
        → IsBalanced live others b (apply_frame_composition k floats fences comp s).1
    unfolding apply_frame_composition
    apply_frame_composition-IsBalanced comp s h =
        let tested = commit_frame k floats fences comp true none s in
        let kept =
          commit_frame-IsBalanced k live laws others b some_id floats fences comp true none s h in
        ground (
          arith,
          kept,
          apply_frame-IsBalanced tested.composition ok false tested.system kept,
          apply_frame-IsBalanced comp ok false s h,
        )

    apply_dpms_composition-IsBalanced :
        (comp : DrmDisplayComposition) (s : System W)
        → IsBalanced live others b s
        → IsBalanced live others b (apply_dpms_composition k floats fences comp s).1
    unfolding apply_dpms_composition
    apply_dpms_composition-IsBalanced comp s h =
        let s' = record s {
          compositor = record s.compositor { active = comp.dpms_mode == dpms_on };
        } in
        let same = apply_dpms-IsSame k comp s' in
        rw same.0 (
          same_live k live laws others b some_id s.compositor.mode s.world
            (apply_dpms k comp s').1.world (apply_dpms-live k live laws others b some_id comp s') h)

    apply_modeset_composition-IsBalanced :
        (comp : DrmDisplayComposition) (s : System W)
        → IsBalanced live others b s
        → IsBalanced live others b (apply_modeset_composition k floats fences comp s).1
    unfolding apply_modeset_composition
    apply_modeset_composition-IsBalanced comp s h =
        let mode = s.compositor.mode in
        let without : ModeState = record mode { blob_id = 0 } in
        let w = (destroy_property_blob k s.world mode.blob_id).1 in
        let gone =
          dropped k live laws others b some_id mode without mode.blob_id s.world
            (ground (arith, some_id)) h in
        let (ret, blob_id, w') = create_mode_blob k w comp.display_mode in
        made k live laws others b some_id without
          (record mode {
            mode = comp.display_mode;
            blob_id = blob_id;
            needs_modeset = if nonzero ret then mode.needs_modeset else true;
          })
          comp.display_mode w (ground (arith, some_id)) gone

    apply_by_type-IsBalanced :
        (type : DrmCompositionType) (comp : DrmDisplayComposition) (s : System W)
        → IsBalanced live others b s
        → IsBalanced live others b (apply_by_type k floats fences type comp s).1
    unfolding apply_by_type
    apply_by_type-IsBalanced frame comp s h = apply_frame_composition-IsBalanced comp s h
    apply_by_type-IsBalanced dpms comp s h = apply_dpms_composition-IsBalanced comp s h
    apply_by_type-IsBalanced modeset comp s h = apply_modeset_composition-IsBalanced comp s h
    apply_by_type-IsBalanced empty comp s h = h

    pub apply_composition-IsBalanced :
        (comp : DrmDisplayComposition) (s : System W)
        → IsBalanced live others b s
        → IsBalanced live others b (apply_composition k floats fences comp s).1
    unfolding apply_composition
    apply_composition-IsBalanced comp s h = apply_by_type-IsBalanced comp.type comp s h
