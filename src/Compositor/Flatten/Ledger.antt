-- ===== src/Compositor/Flatten/Ledger.antt =====
-- That flattening a frame on its own display keeps the books of each mode blob.
use platform_external_drm_hw.Base.{
  ℕ, Bool, true, false, Option, none, some, [], ◌∷◌, ok, ◌≢◌, arith,
}
use platform_external_drm_hw.Kernel.{Kms, CommitFlags}
use platform_external_drm_hw.Drm.Crtc.{DrmCrtc}
use platform_external_drm_hw.Drm.Connector.{DrmConnector}
use platform_external_drm_hw.Drm.Device.{get_crtc_for_display}
use platform_external_drm_hw.Layer.{DrmHwcLayer, Importer, import_buffer}
use platform_external_drm_hw.Composition.{DrmDisplayComposition}
use platform_external_drm_hw.Framebuffer.{allocate}
use platform_external_drm_hw.Compositor.Request.{FloatOps}
use platform_external_drm_hw.Compositor.Commit.{setup_writeback_commit}
use platform_external_drm_hw.Compositor.State.{System, OutFences}
use platform_external_drm_hw.Compositor.Blobs.{BlobLaws}
use platform_external_drm_hw.Compositor.Blobs.Books.{IsBalanced}
use platform_external_drm_hw.Compositor.Blobs.Calls.{apply_frame-IsBalanced, after_commit}
use platform_external_drm_hw.Compositor.Flatten.{
  Flattener, Flattening, flatten_serial, serial_on, flatten_into, write_back, show_flattened,
  squashed, fb_of, writeback_layer, handle_of, create_initialized_composition,
}

module _ {W : Type 0} (k : Kms W) (live : W → ℕ → Bool) (laws : BlobLaws k live) (others : Bool)
    (b : ℕ) (some_id : b ≢ 0) (floats : FloatOps) (fences : OutFences) (fl : Flattener) where
  show_flattened-IsBalanced :
      (crtc : DrmCrtc) (comp : DrmDisplayComposition) (s : System W)
      → IsBalanced live others b s
      → IsBalanced live others b (show_flattened k floats fences fl crtc comp s).1
  unfolding show_flattened
  show_flattened-IsBalanced crtc comp s h = ground (
    arith,
    h,
    apply_frame-IsBalanced k live laws others b some_id floats fences
        (squashed crtc s.device.planes comp) ok true s h,
  )

  write_back-IsBalanced :
      (conn : DrmConnector) (crtc : Option DrmCrtc) (comp : DrmDisplayComposition)
      (layer : DrmHwcLayer) (s : System W)
      → IsBalanced live others b s
      → IsBalanced live others b (write_back k floats fences fl conn crtc comp layer s).1
  unfolding write_back
  write_back-IsBalanced conn none comp layer s h = h
  write_back-IsBalanced conn (some crtc) comp layer s h =
      let es =
        (setup_writeback_commit k s.world crtc conn (fb_of layer.buffer) fl.fence_address []).1 in
      let flags : CommitFlags = record { allow_modeset = false; test_only = false } in
      let written = after_commit k live laws others b some_id es flags s h in
      ground (
        arith,
        h,
        written,
        show_flattened-IsBalanced crtc
            (record comp { layers = record layer { acquire_fence = fl.writeback_fence } ∷ [] })
            (record s { world = (k.commit s.world es flags).world }) written,
      )

  flatten_into-IsBalanced :
      (conn : DrmConnector) (crtc : Option DrmCrtc) (importer : Importer)
      (comp : DrmDisplayComposition) (s : Flattening W)
      → IsBalanced live others b s.system
      → IsBalanced live others b
          (flatten_into k floats fences fl conn crtc importer comp s).1.system
  unfolding flatten_into
  flatten_into-IsBalanced conn crtc importer comp s h =
      let mode = s.system.compositor.mode.mode in
      let fb =
        (allocate fl.graphics mode.h_display mode.v_display
          (s.framebuffers s.framebuffer_index)).1 in
      let layer = (import_buffer importer (writeback_layer floats (handle_of fb) mode)).1 in
      ground (arith, h, write_back-IsBalanced conn crtc comp layer s.system h)

  serial_on-IsBalanced :
      (conn : DrmConnector) (crtc : Option DrmCrtc) (importer : Option Importer)
      (comp : Option DrmDisplayComposition) (s : Flattening W)
      → IsBalanced live others b s.system
      → IsBalanced live others b (serial_on k floats fences fl conn crtc importer comp s).1.system
  unfolding serial_on
  serial_on-IsBalanced conn crtc importer none s h = h
  serial_on-IsBalanced conn crtc none (some comp) s h = h
  serial_on-IsBalanced conn crtc (some importer) (some comp) s h =
      ground (arith, h, flatten_into-IsBalanced conn crtc importer comp s h)

  pub flatten_serial-IsBalanced :
      (conn : DrmConnector) (s : Flattening W)
      → IsBalanced live others b s.system
      → IsBalanced live others b (flatten_serial k floats fences fl conn s).1.system
  unfolding flatten_serial
  flatten_serial-IsBalanced conn s h =
      let crtc = get_crtc_for_display s.system.device (some s.system.compositor.display) in
      serial_on-IsBalanced conn crtc fl.importer
        (create_initialized_composition crtc fl.importer fl.planner) s h
