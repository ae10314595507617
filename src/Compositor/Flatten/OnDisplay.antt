-- ===== src/Compositor/Flatten/OnDisplay.antt =====
-- `FlattenOnDisplay` of drmdisplaycompositor.cpp: the frame of a composition is written back by the
-- CRTC of a display.
pub mod Ledger
use platform_external_drm_hw.Base.{
  ℤ, nonzero, Bool, true, false, Option, none, some, List, keep, ◌==◌, ◌&&◌, not, if◌then◌else◌, ok,
  einval, enomem, find_if,
}
use platform_external_drm_hw.Kernel.{Kms}
use platform_external_drm_hw.Drm.Mode.{DrmMode}
use platform_external_drm_hw.Drm.Crtc.{DrmCrtc}
use platform_external_drm_hw.Drm.Plane.{DrmPlane, type_primary, type_overlay, get_crtc_supported}
use platform_external_drm_hw.Drm.Connector.{DrmConnector, ConnectorRes, update_modes}
use platform_external_drm_hw.Drm.Device.{get_crtc_for_display}
use platform_external_drm_hw.Drm.Device.Writeback.{replace}
use platform_external_drm_hw.Layer.{DrmHwcLayer, Importer, new_layer, import_buffer}
use platform_external_drm_hw.Composition.{DrmDisplayComposition, Pools, plan, disable_planes}
use platform_external_drm_hw.Framebuffer.{DrmFramebuffer, allocate}
use platform_external_drm_hw.Compositor.Request.{FloatOps}
use platform_external_drm_hw.Compositor.Commit.{commit_frame}
use platform_external_drm_hw.Compositor.State.{
  System, OutFences, create_mode_blob, destroy_property_blob,
}
use platform_external_drm_hw.Compositor.Flatten.{Flattener, wait_writeback_fence, handle_of, fb_of}

-- The result of `FlattenOnDisplay`: the code, and the layer of the flattened frame if the code is 0.
pub record Flattened (W : Type 0) : Type 0 where
  pub ret : ℤ
  pub layer : DrmHwcLayer
  pub system : System W

same_size : DrmMode → DrmMode → Bool
same_size a b = a.h_display == b.h_display && a.v_display == b.v_display

-- The planes that the CRTC supports, primary and overlay.
pools_of : DrmCrtc → List DrmPlane → Pools
pools_of crtc planes = record {
  primary = keep (λ p. get_crtc_supported p crtc && p.type == type_primary) planes;
  overlay = keep (λ p. get_crtc_supported p crtc && p.type == type_overlay) planes;
}

module _ {W : Type 0} (k : Kms W) (floats : FloatOps) (fences : OutFences) (fl : Flattener) where
  -- The loop over the modes: the first of the right size is made the mode.
  take_mode : Option DrmMode → System W → ℤ × System W
  unfolding create_mode_blob destroy_property_blob
  take_mode none sys = (ok, sys)
  take_mode (some mode) sys =
      let old = sys.compositor.mode in
      let (dropped, w) = destroy_property_blob k sys.world old.blob_id in
      let (ret, blob_id, w') = create_mode_blob k w mode in
      (
        ret,
        record sys {
          compositor = record sys.compositor {
            mode = record old {
              mode = mode;
              blob_id = blob_id;
              needs_modeset = if nonzero ret then old.needs_modeset else true;
            };
          };
          world = w';
        },
      )

  -- The two commits and the wait for the written frame.
  commit_written : DrmConnector → DrmDisplayComposition → DrmHwcLayer → System W → Flattened W
  unfolding commit_frame
  commit_written conn comp layer sys =
      let target = some (some conn, fb_of layer.buffer) in
      let own = record fences { writeback_address = fl.fence_address } in
      let tested = commit_frame k floats own comp true target sys in
      let committed = commit_frame k floats own tested.composition false target tested.system in
      let waited = fl.graphics.sync_wait fl.writeback_fence wait_writeback_fence in
      let written = record layer { acquire_fence = fl.writeback_fence } in
      if nonzero tested.ret
      then record { ret = tested.ret; layer = layer; system = tested.system }
      else (if nonzero committed.ret
          then record { ret = committed.ret; layer = layer; system = committed.system }
          else record { ret = waited; layer = written; system = committed.system })

  -- With the composition planned, from the framebuffer on.
  write_planned :
      DrmConnector
      → Option Importer
      → DrmFramebuffer
      → DrmDisplayComposition
      → System W
      → Flattened W
  unfolding allocate import_buffer commit_written
  write_planned conn none fb comp sys = record { ret = einval; layer = new_layer; system = sys }
  write_planned conn (some importer) fb comp sys =
      let mode = sys.compositor.mode.mode in
      let (there, fb') = allocate fl.graphics mode.h_display mode.v_display fb in
      let (ret, layer) =
        import_buffer importer (record new_layer { sf_handle = some (handle_of fb') }) in
      let written = commit_written conn comp layer sys in
      if not there
      then record { ret = enomem; layer = new_layer; system = sys }
      else (if nonzero ret then record { ret = ret; layer = layer; system = sys } else written)

  -- From the CRTC of the display on.
  plan_on :
      Option DrmCrtc
      → DrmConnector
      → DrmFramebuffer
      → DrmDisplayComposition
      → System W
      → Flattened W
  unfolding pools_of plan disable_planes write_planned
  plan_on none conn fb comp sys = record { ret = einval; layer = new_layer; system = sys }
  plan_on (some crtc) conn fb comp sys =
      let p = plan comp (pools_of crtc sys.device.planes) in
      let finished =
        disable_planes (disable_planes p.composition p.pools.primary) p.pools.overlay in
      let written = write_planned conn fl.importer fb finished sys in
      if nonzero p.ret then record { ret = p.ret; layer = new_layer; system = sys } else written

  -- `FlattenOnDisplay`, on the kernel's answer about the writeback connector and a framebuffer that
  -- the compositor has not used before.
  unfoldable pub flatten_on_display :
      Option ConnectorRes
      → DrmConnector
      → DrmMode
      → DrmFramebuffer
      → DrmDisplayComposition
      → System W
      → Flattened W
  unfolding update_modes replace same_size take_mode plan_on get_crtc_for_display
  flatten_on_display answer conn src_mode fb comp sys =
      let u = update_modes answer sys.device.mode_id conn in
      let sys' = record sys {
        device = record sys.device {
          writeback_connectors = replace u.connector sys.device.writeback_connectors;
          mode_id = u.mode_id;
        };
      } in
      let (ret, taken) = take_mode (find_if (λ m. same_size m src_mode) u.connector.modes) sys' in
      let planned =
        plan_on (get_crtc_for_display taken.device (some taken.compositor.display)) u.connector fb
          comp taken in
      if nonzero u.ret
      then record { ret = u.ret; layer = new_layer; system = sys }
      else (if nonzero ret
          then record { ret = ret; layer = new_layer; system = taken }
          else (if taken.compositor.mode.blob_id == 0
              then record { ret = einval; layer = new_layer; system = taken }
              else planned))
