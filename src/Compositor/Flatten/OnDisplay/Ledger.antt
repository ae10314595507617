-- ===== src/Compositor/Flatten/OnDisplay/Ledger.antt =====
-- That flattening on the CRTC of another display keeps the books of each mode blob.
use platform_external_drm_hw.Base.{
  ℕ, Bool, true, false, Option, none, some, ◌≢◌, arith, nonzero, if◌then◌else◌, find_if,
}
use platform_external_drm_hw.Kernel.{Kms}
use platform_external_drm_hw.Drm.Crtc.{DrmCrtc}
use platform_external_drm_hw.Drm.Mode.{DrmMode}
use platform_external_drm_hw.Drm.Connector.{DrmConnector, ConnectorRes, update_modes}
use platform_external_drm_hw.Drm.Device.{get_crtc_for_display}
use platform_external_drm_hw.Drm.Device.Writeback.{replace}
use platform_external_drm_hw.Layer.{DrmHwcLayer, Importer, new_layer, import_buffer}
use platform_external_drm_hw.Composition.{DrmDisplayComposition, plan, disable_planes}
use platform_external_drm_hw.Framebuffer.{DrmFramebuffer, allocate}
use platform_external_drm_hw.Compositor.Request.{FloatOps}
use platform_external_drm_hw.Compositor.Commit.{commit_frame}
use platform_external_drm_hw.Compositor.Commit.Ledger.{commit_frame-IsBalanced}
use platform_external_drm_hw.Compositor.State.{
  ModeState, System, OutFences, create_mode_blob, destroy_property_blob,
}
use platform_external_drm_hw.Compositor.Blobs.{BlobLaws}
use platform_external_drm_hw.Compositor.Blobs.Books.{IsBalanced, dropped, made}
use platform_external_drm_hw.Compositor.Flatten.{Flattener, fb_of, handle_of}
use platform_external_drm_hw.Compositor.Flatten.OnDisplay.{
  flatten_on_display, take_mode, commit_written, write_planned, plan_on, pools_of, same_size,
}

module _ {W : Type 0} (k : Kms W) (live : W → ℕ → Bool) (laws : BlobLaws k live) (others : Bool)
    (b : ℕ) (some_id : b ≢ 0) (floats : FloatOps) (fences : OutFences) (fl : Flattener) where
  take_mode-IsBalanced :
      (mode : Option DrmMode) (s : System W)
      → IsBalanced live others b s
      → IsBalanced live others b (take_mode k floats fences fl mode s).1
  unfolding take_mode
  take_mode-IsBalanced none s h = h
  take_mode-IsBalanced (some mode) s h =
      let old = s.compositor.mode in
      let without : ModeState = record old { blob_id = 0 } in
      let w = (destroy_property_blob k s.world old.blob_id).1 in
      let gone =
        dropped k live laws others b some_id old without old.blob_id s.world
          (ground (arith, some_id)) h in
      let (ret, blob_id, w') = create_mode_blob k w mode in
      made k live laws others b some_id without
        (record old {
          mode = mode;
          blob_id = blob_id;
          needs_modeset = if nonzero ret then old.needs_modeset else true;
        })
        mode w (ground (arith, some_id)) gone

  commit_written-IsBalanced :
      (conn : DrmConnector) (comp : DrmDisplayComposition) (layer : DrmHwcLayer) (s : System W)
      → IsBalanced live others b s
      → IsBalanced live others b (commit_written k floats fences fl conn comp layer s).system
  unfolding commit_written
  commit_written-IsBalanced conn comp layer s h =
      let target = some (some conn, fb_of layer.buffer) in
      let own : OutFences = record fences { writeback_address = fl.fence_address } in
      let tested = commit_frame k floats own comp true target s in
      let kept =
        commit_frame-IsBalanced k live laws others b some_id floats own comp true target s h in
      ground (
        arith,
        kept,
        commit_frame-IsBalanced k live laws others b some_id floats own tested.composition false
            target tested.system kept,
      )

  write_planned-IsBalanced :
      (conn : DrmConnector) (importer : Option Importer) (fb : DrmFramebuffer)
      (comp : DrmDisplayComposition) (s : System W)
      → IsBalanced live others b s
      → IsBalanced live others b (write_planned k floats fences fl conn importer fb comp s).system
  unfolding write_planned
  write_planned-IsBalanced conn none fb comp s h = h
  write_planned-IsBalanced conn (some importer) fb comp s h =
      let mode = s.compositor.mode.mode in
      let fb' = (allocate fl.graphics mode.h_display mode.v_display fb).1 in
      let layer =
        (import_buffer importer (record new_layer { sf_handle = some (handle_of fb') })).1 in
      ground (arith, h, commit_written-IsBalanced conn comp layer s h)

  plan_on-IsBalanced :
      (crtc : Option DrmCrtc) (conn : DrmConnector) (fb : DrmFramebuffer)
      (comp : DrmDisplayComposition) (s : System W)
      → IsBalanced live others b s
      → IsBalanced live others b (plan_on k floats fences fl crtc conn fb comp s).system
  unfolding plan_on
  plan_on-IsBalanced none conn fb comp s h = h
  plan_on-IsBalanced (some crtc) conn fb comp s h =
      let p = plan comp (pools_of crtc s.device.planes) in
      let finished =
        disable_planes (disable_planes p.composition p.pools.primary) p.pools.overlay in
      ground (arith, h, write_planned-IsBalanced conn fl.importer fb finished s h)

  pub flatten_on_display-IsBalanced :
      (answer : Option ConnectorRes) (conn : DrmConnector) (src_mode : DrmMode)
      (fb : DrmFramebuffer) (comp : DrmDisplayComposition) (s : System W)
      → IsBalanced live others b s
      → IsBalanced live others b
          (flatten_on_display k floats fences fl answer conn src_mode fb comp s).system
  unfolding flatten_on_display
  flatten_on_display-IsBalanced answer conn src_mode fb comp s h =
      let u = update_modes answer s.device.mode_id conn in
      let s' : System W = record s {
        device = record s.device {
          writeback_connectors = replace u.connector s.device.writeback_connectors;
          mode_id = u.mode_id;
        };
      } in
      let mode = find_if (λ m. same_size m src_mode) u.connector.modes in
      let taken = (take_mode k floats fences fl mode s').1 in
      let kept = take_mode-IsBalanced mode s' h in
      ground (
        arith,
        h,
        kept,
        plan_on-IsBalanced (get_crtc_for_display taken.device (some taken.compositor.display))
            u.connector fb comp taken kept,
      )
