-- ===== src/Examples/Flattening.antt =====
-- The planes of a flattened frame, and a vsync that flattens one on another display.
use platform_external_drm_hw.Base.{
  List, Option, none, some, ℕ, pos, negsuc, ok, true, false, length, has_bit, [], ◌∷◌, ◌≡◌, refl,
}
use platform_external_drm_hw.Planner.{greedy, provision_planes, emplace, validate_plane}
use platform_external_drm_hw.Drm.Mode.{same_mode}
use platform_external_drm_hw.Drm.Plane.{get_crtc_supported}
use platform_external_drm_hw.Drm.Device.{get_connector_for_display}
use platform_external_drm_hw.Composition.{DrmDisplayComposition, init_composition}
use platform_external_drm_hw.Layer.{DrmHwcLayer, new_layer}
use platform_external_drm_hw.Drm.Connector.{DrmConnector, connected}
use platform_external_drm_hw.Compositor.State.{new_compositor}
use platform_external_drm_hw.Compositor.Flatten.{Flattening, Flattener}
use platform_external_drm_hw.Compositor.Flatten.Concurrent.{Elsewhere, vsync}
use platform_external_drm_hw.Examples.Blobs.{blob_kms}
use platform_external_drm_hw.Examples.Fixtures.{
  property, a_mode, a_mode_info, a_connector, importer, floats, fences, a_crtc, a_device,
}

abbrev bare_composition : DrmDisplayComposition
bare_composition = record (init_composition a_crtc (greedy ∷ []) 0) { composition_planes = [] }

-- A display shows two layers, and its countdown is about to run out.
abbrev shown_layer : DrmHwcLayer
shown_layer = record new_layer { sf_handle = some 200 }

abbrev two_layers : DrmDisplayComposition
two_layers = record bare_composition { layers = shown_layer ∷ shown_layer ∷ [] }

abbrev idle : Flattening (List ℕ)
idle = record {
  system = record {
    compositor = record (new_compositor 0) {
      active = true;
      mode = record { needs_modeset = false; mode = a_mode; blob_id = 7; old_blob_id = 0 };
      active_composition = some two_layers;
      flatten_countdown = pos 1;
    };
    device = a_device;
    world = 7 ∷ [];
    crashed = false;
  };
  framebuffers = λ n. record { buffer = none; release_fence_fd = negsuc 0 };
  framebuffer_index = 0;
}

abbrev flattener : Flattener
flattener = record {
  planner = greedy ∷ [];
  importer = some importer;
  graphics = record { new_buffer = λ w h. 300; sync_wait = λ fence timeout. ok };
  fence_address = 8192;
  writeback_fence = pos 20;
}

-- Another device, whose display has a connector for writing back.
abbrev elsewhere : Elsewhere (List ℕ)
elsewhere = record {
  init_ret = ok;
  system = record { compositor = new_compositor 0; device = a_device; world = []; crashed = false };
  flattener = flattener;
  answer = some (record { connection = connected; modes = a_mode_info ∷ [] });
  same_device = false;
}

abbrev writeback_connector : DrmConnector
writeback_connector = record a_connector {
  id = 53;
  display = some 1;
  type = 18;
  writeback_fb_id = property 105;
  writeback_out_fence = property 106;
}

abbrev after_vsync : Flattening (List ℕ)
after_vsync = vsync blob_kms floats fences flattener (some writeback_connector) elsewhere idle

abbrev layers_of : Option DrmDisplayComposition → List DrmHwcLayer
layers_of none = []
layers_of (some comp) = comp.layers

-- The frame is shown as one layer, and the blob of the other compositor is gone.
vsync_test :
    (length (layers_of after_vsync.system.compositor.active_composition) ≡ 1)
    × (after_vsync.system.world ≡ 7 ∷ [])
unfolding vsync new_compositor same_mode provision_planes get_crtc_supported has_bit emplace
    validate_plane get_connector_for_display
vsync_test = (refl, refl)
