-- ===== src/Compositor/Commit/Ledger.antt =====
-- That a commit of a frame keeps the books of each mode blob.
use platform_external_drm_hw.Base.{
  if◌then◌else◌, ℕ, ℤ, Bool, true, false, Option, none, some, nonzero, ◌≢◌, arith, Bool-cases, inl,
  inr, not, ◌&&◌,
}
use platform_external_drm_hw.Kernel.{Kms, CommitFlags}
use platform_external_drm_hw.Drm.Crtc.{DrmCrtc}
use platform_external_drm_hw.Drm.Connector.{DrmConnector}
use platform_external_drm_hw.Drm.Device.{get_connector_for_display, get_crtc_for_display}
use platform_external_drm_hw.Composition.{DrmDisplayComposition}
use platform_external_drm_hw.Compositor.Request.{Line, FloatOps, plane_lines}
use platform_external_drm_hw.Compositor.State.{
  ModeState, System, apply_dpms, destroy_property_blob, OutFences,
}
use platform_external_drm_hw.Compositor.Blobs.{BlobLaws}
use platform_external_drm_hw.Compositor.Blobs.Books.{
  IsBalanced, same_live, apply_dpms-live, dropped,
}
use platform_external_drm_hw.Compositor.Commit.{
  finish_modeset, after_loop, keep_out_fence, frame_body, commit_on, commit_found, commit_frame,
  frame_head,
}
use platform_external_drm_hw.Compositor.Commit.Setting.{apply_dpms-IsSame}

module _ {W : Type 0} (k : Kms W) (live : W → ℕ → Bool) (laws : BlobLaws k live) (others : Bool)
    (b : ℕ) (some_id : b ≢ 0) where
  -- A mode that is set: its blob is the one to destroy next, and the old one is gone.
  abbrev set_mode : ModeState → ModeState
  set_mode mode = record mode { old_blob_id = mode.blob_id; blob_id = 0; needs_modeset = false }

  finish_modeset-IsBalanced :
      (conn : DrmConnector) (comp : DrmDisplayComposition) (s : System W)
      → IsBalanced live others b s
      → IsBalanced live others b (finish_modeset k conn comp s).1
  unfolding finish_modeset
  finish_modeset-IsBalanced conn comp s h =
      let mode = s.compositor.mode in
      let destroyed = destroy_property_blob k s.world mode.old_blob_id in
      let s' = record s { world = destroyed.1 } in
      let powered = apply_dpms k comp s' in
      let same = apply_dpms-IsSame k comp s' in
      let as_before =
        dropped k live laws others b some_id mode mode mode.old_blob_id s.world (ground arith) h in
      let as_set =
        dropped k live laws others b some_id mode (set_mode mode) mode.old_blob_id s.world
          (ground (arith, some_id)) h in
      let lives = apply_dpms-live k live laws others b some_id comp s' in
      elim (Bool-cases (nonzero destroyed.0)) [
        | inl undestroyed ↦ rw undestroyed as_before
        | inr fine ↦ elim (Bool-cases (nonzero powered.0)) [
          | inl unpowered ↦
              rw (fine, unpowered, same.0)
                (same_live k live laws others b some_id mode s'.world powered.1.world lives
                  as_before)
          | inr on ↦
              rw (fine, on)
                (same_live k live laws others b some_id (set_mode mode) s'.world powered.1.world
                  lives as_set)
        ]
      ]

  -- The state behind the commit, if there was one.
  either :
      (failed : Bool) (s s' : System W) (ret code stale fence : ℤ)
      → IsBalanced live others b s
      → IsBalanced live others b s'
      → let tried : ℤ × ℤ × System W = if failed then (ret, stale, s) else (code, fence, s') in
        IsBalanced live others b tried.2
  either true s s' ret code stale fence h h' = h
  either false s s' ret code stale fence h h' = h'

  after_loop-IsBalanced :
      (crtc : DrmCrtc) (conn : DrmConnector) (test_only : Bool) (stale : ℤ)
      (comp : DrmDisplayComposition) (l : Line) (s : System W)
      → IsBalanced live others b s
      → IsBalanced live others b (after_loop k crtc conn test_only stale comp l s).system
  unfolding after_loop keep_out_fence
  after_loop-IsBalanced crtc conn test_only stale comp l s h =
      let flags : CommitFlags = record { allow_modeset = true; test_only = test_only } in
      let answer = k.commit s.world l.entries flags in
      let s' = record s { world = answer.world } in
      let committed =
        same_live k live laws others b some_id s.compositor.mode s.world answer.world
          (laws.committed s.world l.entries flags b) h in
      let tried : ℤ × ℤ × System W =
        if nonzero l.ret then (l.ret, stale, s) else (answer.code, answer.out_fence, s') in
      let after =
        either (nonzero l.ret) s s' l.ret answer.code stale answer.out_fence h committed in
      let finished = finish_modeset-IsBalanced conn comp tried.2 after in
      elim (Bool-cases (not (nonzero l.ret) && nonzero answer.code)) [
        | inl refused ↦ rw (refused, after_loop) committed
        | inr gone_through ↦ elim (Bool-cases (not test_only && s.compositor.mode.needs_modeset)) [
          | inl due ↦ elim (Bool-cases (nonzero (finish_modeset k conn comp tried.2).0)) [
            | inl unset ↦ rw (gone_through, due, unset, after_loop) finished
            | inr set ↦ rw (gone_through, due, set, after_loop) finished
          ]
          | inr quiet ↦ rw (gone_through, quiet, after_loop) after
        ]
      ]

  module _ (floats : FloatOps) (fences : OutFences) where
    frame_body-IsBalanced :
        (crtc : DrmCrtc) (conn : DrmConnector) (test_only : Bool) (comp : DrmDisplayComposition)
        (head : Line) (s : System W)
        → IsBalanced live others b s
        → IsBalanced live others b
            (frame_body k floats fences crtc conn test_only comp head s).system
    unfolding frame_body
    frame_body-IsBalanced crtc conn test_only comp head s h =
        let l = plane_lines k s.world floats comp.layers comp.composition_planes head in
        ground (arith, h, after_loop-IsBalanced crtc conn test_only fences.stale comp l s h)

    commit_found-IsBalanced :
        (conn : Option DrmConnector) (crtc : Option DrmCrtc) (test_only : Bool)
        (writeback : Option (Option DrmConnector × ℕ)) (comp : DrmDisplayComposition) (s : System W)
        → IsBalanced live others b s
        → IsBalanced live others b
            (commit_found k floats fences conn crtc test_only writeback comp s).system
    unfolding commit_found commit_on
    commit_found-IsBalanced none crtc test_only writeback comp s h = h
    commit_found-IsBalanced (some conn) none test_only writeback comp s h = h
    commit_found-IsBalanced (some conn) (some crtc) test_only writeback comp s h =
        let head = frame_head k s.world crtc conn s.compositor.mode writeback fences in
        ground (arith, h, frame_body-IsBalanced crtc conn test_only comp head s h)

    pub commit_frame-IsBalanced :
        (comp : DrmDisplayComposition) (test_only : Bool)
        (writeback : Option (Option DrmConnector × ℕ)) (s : System W)
        → IsBalanced live others b s
        → IsBalanced live others b (commit_frame k floats fences comp test_only writeback s).system
    unfolding commit_frame
    commit_frame-IsBalanced comp test_only writeback s h =
        commit_found-IsBalanced (get_connector_for_display s.device (some s.compositor.display))
          (get_crtc_for_display s.device (some s.compositor.display)) test_only writeback comp s h
