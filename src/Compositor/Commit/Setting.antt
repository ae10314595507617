-- ===== src/Compositor/Commit/Setting.antt =====
-- What a commit of a frame, as a test or not, makes of the mode of the display.
use platform_external_drm_hw.Base.{
  none, ℤ, nonzero, Bool, true, false, not, ◌&&◌, arith, ◌≡◌, refl, ◌⊎◌, inl, inr, Bool-cases, ap,
  Option, some, ℕ,
}
use platform_external_drm_hw.Kernel.{Kms}
use platform_external_drm_hw.Drm.Crtc.{DrmCrtc}
use platform_external_drm_hw.Drm.Connector.{DrmConnector}
use platform_external_drm_hw.Composition.{DrmDisplayComposition}
use platform_external_drm_hw.Compositor.Request.{Line, FloatOps, plane_lines}
use platform_external_drm_hw.Compositor.State.{
  System, ModeState, set_active_mode, apply_dpms, destroy_property_blob, DrmDisplayCompositor,
  OutFences,
}
use platform_external_drm_hw.Compositor.Commit.{
  finish_modeset, after_loop, keep_out_fence, frame_body, commit_on, commit_found, commit_frame,
  get_connector_for_display, frame_head, get_crtc_for_display,
}

-- The compositor and the device are as they were.
abbrev pub IsSame : {W : Type 0} → System W → System W → Type 0
IsSame sys sys' = (sys'.compositor ≡ sys.compositor) × (sys'.device ≡ sys.device)

-- The mode that was due is set: its blob becomes the one to destroy at the next modeset, and it is the
-- active mode of the connector.
abbrev pub IsModeSet : {W : Type 0} → DrmConnector → System W → System W → Type 0
IsModeSet conn sys sys' =
    let mode = sys.compositor.mode in
    (mode.needs_modeset ≡ true)
    × (sys'.compositor ≡ record sys.compositor {
      mode = record mode { old_blob_id = mode.blob_id; blob_id = 0; needs_modeset = false };
    })
    × (sys'.device ≡ set_active_mode conn.id mode.mode sys.device)

-- The mode is as it was, or it is set on the connector found.
abbrev pub IsSettled : {W : Type 0} → Option DrmConnector → System W → System W → Type 0
IsSettled found sys sys' =
    IsSame sys sys' ⊎ ((conn : DrmConnector) × (found ≡ some conn) × IsModeSet conn sys sys')

abbrev set_mode : ModeState → DrmDisplayCompositor → DrmDisplayCompositor
set_mode mode c = record c {
  mode = record mode { old_blob_id = mode.blob_id; blob_id = 0; needs_modeset = false };
}

module _ {W : Type 0} (k : Kms W) where
  pub apply_dpms-IsSame :
      (comp : DrmDisplayComposition) (sys : System W) → IsSame sys (apply_dpms k comp sys).1
  unfolding apply_dpms
  apply_dpms-IsSame comp sys = ground arith

  finish_modeset-IsModeSet :
      (conn : DrmConnector) (comp : DrmDisplayComposition) (sys : System W)
      → sys.compositor.mode.needs_modeset ≡ true
      → IsSame sys (finish_modeset k conn comp sys).1
        ⊎ IsModeSet conn sys (finish_modeset k conn comp sys).1
  unfolding finish_modeset
  finish_modeset-IsModeSet conn comp sys due =
      let mode = sys.compositor.mode in
      let destroyed = destroy_property_blob k sys.world mode.old_blob_id in
      let powered = apply_dpms k comp (record sys { world = destroyed.1 }) in
      let kept = apply_dpms-IsSame comp (record sys { world = destroyed.1 }) in
      elim (Bool-cases (nonzero destroyed.0)) [
        | inl undestroyed ↦ rw undestroyed (inl (refl, refl))
        | inr fine ↦ elim (Bool-cases (nonzero powered.0)) [
          | inl unpowered ↦ rw (fine, unpowered) (inl kept)
          | inr on ↦
              rw (fine, on)
                (inr (
                  due,
                  ap (λ c. set_mode mode c) kept.0,
                  ap (set_active_mode conn.id mode.mode) kept.1,
                ))
        ]
      ]

  after_loop-IsModeSet :
      (crtc : DrmCrtc) (conn : DrmConnector) (test_only : Bool) (stale : ℤ)
      (comp : DrmDisplayComposition) (s : Line) (sys : System W)
      → let sys' = (after_loop k crtc conn test_only stale comp s sys).system in
        IsSame sys sys' ⊎ IsModeSet conn sys sys'
  unfolding after_loop keep_out_fence
  after_loop-IsModeSet crtc conn test_only stale comp s sys =
      let answer =
        k.commit sys.world s.entries (record { allow_modeset = true; test_only = test_only }) in
      elim (Bool-cases (not test_only && sys.compositor.mode.needs_modeset)) [
        | inl due ↦
            let its_due : sys.compositor.mode.needs_modeset ≡ true = ground (arith, due) in
            ground (
              arith,
              due,
              finish_modeset-IsModeSet conn comp sys its_due,
              finish_modeset-IsModeSet conn comp (record sys { world = answer.world }) its_due,
            )
        | inr quiet ↦ ground (arith, quiet)
      ]

  module _ (floats : FloatOps) (fences : OutFences) where
    frame_body-IsModeSet :
        (crtc : DrmCrtc) (conn : DrmConnector) (test_only : Bool) (comp : DrmDisplayComposition)
        (head : Line) (sys : System W)
        → let sys' = (frame_body k floats fences crtc conn test_only comp head sys).system in
          IsSame sys sys' ⊎ IsModeSet conn sys sys'
    unfolding frame_body
    frame_body-IsModeSet crtc conn test_only comp head sys =
        let s = plane_lines k sys.world floats comp.layers comp.composition_planes head in
        ground (arith, after_loop-IsModeSet crtc conn test_only fences.stale comp s sys)

    commit_on-IsModeSet :
        (crtc : DrmCrtc) (conn : DrmConnector) (test_only : Bool)
        (writeback : Option (Option DrmConnector × ℕ)) (comp : DrmDisplayComposition)
        (sys : System W)
        → let sys' = (commit_on k floats fences crtc conn test_only writeback comp sys).system in
          IsSame sys sys' ⊎ IsModeSet conn sys sys'
    unfolding commit_on
    commit_on-IsModeSet crtc conn test_only writeback comp sys =
        let head = frame_head k sys.world crtc conn sys.compositor.mode writeback fences in
        ground (arith, frame_body-IsModeSet crtc conn test_only comp head sys)

    commit_found-IsSettled :
        (conn : Option DrmConnector) (crtc : Option DrmCrtc) (test_only : Bool)
        (writeback : Option (Option DrmConnector × ℕ)) (comp : DrmDisplayComposition)
        (sys : System W)
        → IsSettled conn sys
            (commit_found k floats fences conn crtc test_only writeback comp sys).system
    unfolding commit_found
    commit_found-IsSettled none crtc test_only writeback comp sys = inl (refl, refl)
    commit_found-IsSettled (some conn) none test_only writeback comp sys = inl (refl, refl)
    commit_found-IsSettled (some conn) (some crtc) test_only writeback comp sys =
        elim (commit_on-IsModeSet crtc conn test_only writeback comp sys) [
          | inl same ↦ inl same
          | inr set ↦ inr (conn, refl, set)
        ]

    -- A commit of a frame, as a test or not, either leaves the compositor and the device as they were,
    -- or a modeset was due and is done: its blob becomes the one to destroy at the next modeset, none
    -- is due any more, and the mode is the active mode of the connector of the display.
    pub commit_frame-IsSettled :
        (comp : DrmDisplayComposition) (test_only : Bool)
        (writeback : Option (Option DrmConnector × ℕ)) (sys : System W)
        → IsSettled
            (get_connector_for_display sys.device (some sys.compositor.display))
            sys
            (commit_frame k floats fences comp test_only writeback sys).system
    unfolding commit_frame
    commit_frame-IsSettled comp test_only writeback sys =
        commit_found-IsSettled (get_connector_for_display sys.device (some sys.compositor.display))
          (get_crtc_for_display sys.device (some sys.compositor.display)) test_only writeback comp
          sys
