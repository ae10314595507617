-- ===== src/Compositor/Flatten/Concurrent/Ledger.antt =====
-- That flattening a frame with a compositor made for another display, which is then destroyed, keeps the
-- books of each mode blob; and so a vsync.
use platform_external_drm_hw.Base.{
  ℕ, negsuc, ok, Bool, true, Option, none, some, List, [], ◌∷◌, ◌≡◌, ◌≢◌, arith, if◌then◌else◌,
}
use platform_external_drm_hw.Kernel.{Kms}
use platform_external_drm_hw.Drm.Crtc.{DrmCrtc}
use platform_external_drm_hw.Drm.Connector.{DrmConnector}
use platform_external_drm_hw.Drm.Device.{get_crtc_for_display}
use platform_external_drm_hw.Layer.{DrmHwcLayer, Importer, import_buffer}
use platform_external_drm_hw.Layer.DrmHwcBlending.{pre_mult}
use platform_external_drm_hw.Planner.{layer_plane}
use platform_external_drm_hw.Composition.{DrmDisplayComposition, set_layers, add_plane_composition}
use platform_external_drm_hw.Framebuffer.{DrmFramebuffer}
use platform_external_drm_hw.Compositor.Request.{FloatOps}
use platform_external_drm_hw.Compositor.State.{System, OutFences, new_compositor}
use platform_external_drm_hw.Compositor.Blobs.{BlobLaws}
use platform_external_drm_hw.Compositor.Blobs.Books.{IsBalanced, same_live}
use platform_external_drm_hw.Compositor.Blobs.Calls.{apply_frame-IsBalanced}
use platform_external_drm_hw.Compositor.Blobs.Discarding.{settled}
use platform_external_drm_hw.Compositor.Flatten.{
  Flattener, Flattening, writeback_layer, create_initialized_composition,
}
use platform_external_drm_hw.Compositor.Flatten.Ledger.{flatten_serial-IsBalanced}
use platform_external_drm_hw.Compositor.Flatten.OnDisplay.{flatten_on_display}
use platform_external_drm_hw.Compositor.Flatten.OnDisplay.Ledger.{flatten_on_display-IsBalanced}
use platform_external_drm_hw.Compositor.Flatten.Concurrent.{
  squash_last, usable_handle, Elsewhere, show_on, flatten_copies, flatten_due, copy_layers,
  concurrent_on, flatten_concurrent, flatten_active_composition, vsync, pred_ℤ,
}

module _ {W : Type 0} (k : Kms W) (live : W → ℕ → Bool) (laws : BlobLaws k live) (others : Bool)
    (b : ℕ) (some_id : b ≢ 0) where
  module _ (floats : FloatOps) (fences : OutFences) (fl : Flattener) where
    show_on-IsBalanced :
        (crtc : DrmCrtc) (importer : Importer) (written : DrmHwcLayer)
        (comp : DrmDisplayComposition) (s : System W)
        → IsBalanced live others b s
        → IsBalanced live others b (show_on k floats fences fl crtc importer written comp s).1
    unfolding show_on
    show_on-IsBalanced crtc importer written comp s h =
        let (chosen, comp') = squash_last crtc s.device.planes none comp in
        let layer =
          (import_buffer importer (record (writeback_layer floats 0 s.compositor.mode.mode) {
            sf_handle = usable_handle written;
            blending = pre_mult;
          })).1 in
        let squashed =
          add_plane_composition (record comp' { layers = layer ∷ [] })
            (layer_plane chosen crtc 0) in
        ground (
          arith,
          h,
          apply_frame-IsBalanced k live laws others b some_id floats fences squashed ok true s h,
        )

    flatten_copies-IsBalanced :
        (conn : DrmConnector) (crtc : DrmCrtc) (importer : Importer) (copies : List DrmHwcLayer)
        (copy_comp comp : DrmDisplayComposition) (other : Elsewhere W) (display : ℕ) (s : System W)
        → other.system.compositor ≡ new_compositor display
        → IsBalanced live others b s
        → IsBalanced live others b
            (flatten_copies k floats fences fl conn crtc importer copies copy_comp comp other s).1
    unfolding flatten_copies new_compositor
    flatten_copies-IsBalanced conn crtc importer copies copy_comp comp other display s fresh h =
        let unused : DrmFramebuffer = record { buffer = none; release_fence_fd = negsuc 0 } in
        let before : System W = record other.system { world = s.world } in
        let src_mode = s.compositor.mode.mode in
        let plans = (set_layers copy_comp copies true).1 in
        let r =
          flatten_on_display k floats fences other.flattener other.answer conn src_mode unused plans
            before in
        let books =
          flatten_on_display-IsBalanced k live laws (live s.world b) b some_id floats fences
            other.flattener other.answer conn src_mode unused plans before
            (record {
              keeps = λ e. (e, ground (arith, fresh, some_id));
              owns = λ e. ground (arith, e);
            }) in
        let back : System W = record s {
          world = r.system.world;
          device = if other.same_device then r.system.device else s.device;
        } in
        let there : others ≡ true → live s.world b ≡ true = λ e. (h.keeps e).0 in
        let kept : live r.system.world b ≡ live s.world b → IsBalanced live others b back = λ e.
          same_live k live laws others b some_id s.compositor.mode s.world r.system.world e h in
        ground (
          arith,
          settled k live laws others b some_id r.system back s.world books there kept,
          settled k live laws others b some_id r.system
              (show_on k floats fences fl crtc importer r.layer comp back).1 s.world books there
              (λ e. show_on-IsBalanced crtc importer r.layer comp back (kept e)),
        )

    flatten_due-IsBalanced :
        (conn : DrmConnector) (crtc : DrmCrtc) (importer : Importer)
        (copies : Option (List DrmHwcLayer)) (copy_comp comp : DrmDisplayComposition)
        (other : Elsewhere W) (display : ℕ) (s : System W)
        → other.system.compositor ≡ new_compositor display
        → IsBalanced live others b s
        → IsBalanced live others b
            (flatten_due k floats fences fl conn crtc importer copies copy_comp comp other s).1
    unfolding flatten_due
    flatten_due-IsBalanced conn crtc importer none copy_comp comp other display s fresh h = h
    flatten_due-IsBalanced conn crtc importer (some copies) copy_comp comp other display s fresh h =
        flatten_copies-IsBalanced conn crtc importer copies copy_comp comp other display s fresh h

    concurrent_on-IsBalanced :
        (conn : DrmConnector) (copy_comp comp : Option DrmDisplayComposition)
        (copier importer : Option Importer) (other : Elsewhere W) (display : ℕ) (s : System W)
        (shown : Option DrmDisplayComposition)
        → other.system.compositor ≡ new_compositor display
        → IsBalanced live others b s
        → IsBalanced live others b
            (concurrent_on k floats fences fl conn copy_comp comp copier importer other s shown).1
    unfolding concurrent_on
    concurrent_on-IsBalanced conn (some copy_comp) (some comp) (some copier) (some importer) other
          display s (some shown) fresh h =
        ground (
          arith,
          h,
          flatten_due-IsBalanced conn shown.crtc importer (copy_layers copier shown.layers)
              copy_comp comp other display s fresh h,
        )
    concurrent_on-IsBalanced conn none comp copier importer other display s shown fresh h = h
    concurrent_on-IsBalanced conn (some c) none copier importer other display s shown fresh h = h
    concurrent_on-IsBalanced conn (some c) (some d) none importer other display s shown fresh h = h
    concurrent_on-IsBalanced conn (some c) (some d) (some i) none other display s shown fresh h = h
    concurrent_on-IsBalanced conn (some c) (some d) (some i) (some j) other display s none fresh h =
        h

    flatten_concurrent-IsBalanced :
        (conn : DrmConnector) (other : Elsewhere W) (display : ℕ) (s : System W)
        → other.system.compositor ≡ new_compositor display
        → IsBalanced live others b s
        → IsBalanced live others b (flatten_concurrent k floats fences fl conn other s).1
    unfolding flatten_concurrent
    flatten_concurrent-IsBalanced conn other display s fresh h =
        let crtc = get_crtc_for_display s.device (some s.compositor.display) in
        let its_crtc =
          get_crtc_for_display other.system.device (some other.system.compositor.display) in
        ground (
          arith,
          h,
          concurrent_on-IsBalanced conn
              (create_initialized_composition its_crtc other.flattener.importer
                other.flattener.planner)
              (create_initialized_composition crtc fl.importer fl.planner) other.flattener.importer
              fl.importer other display s s.compositor.active_composition fresh h,
        )

    flatten_active_composition-IsBalanced :
        (conn : Option DrmConnector) (other : Elsewhere W) (display : ℕ) (s : Flattening W)
        → other.system.compositor ≡ new_compositor display
        → IsBalanced live others b s.system
        → IsBalanced live others b
            (flatten_active_composition k floats fences fl conn other s).1.system
    unfolding flatten_active_composition
    flatten_active_composition-IsBalanced none other display s fresh h = h
    flatten_active_composition-IsBalanced (some conn) other display s fresh h = ground (
      arith,
      h,
      flatten_serial-IsBalanced k live laws others b some_id floats fences fl conn s h,
      flatten_concurrent-IsBalanced conn other display s.system fresh h,
    )

    pub vsync-IsBalanced :
        (conn : Option DrmConnector) (other : Elsewhere W) (display : ℕ) (s : Flattening W)
        → other.system.compositor ≡ new_compositor display
        → IsBalanced live others b s.system
        → IsBalanced live others b (vsync k floats fences fl conn other s).system
    unfolding vsync
    vsync-IsBalanced conn other display s fresh h =
        let ticked : Flattening W = record s {
          system = record s.system {
            compositor = record s.system.compositor {
              flatten_countdown = pred_ℤ s.system.compositor.flatten_countdown;
            };
          };
        } in
        ground (arith, h, flatten_active_composition-IsBalanced conn other display ticked fresh h)
