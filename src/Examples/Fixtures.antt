-- ===== src/Examples/Fixtures.antt =====
-- A device with one CRTC and two planes, and a kernel that accepts what it is asked.
use platform_external_drm_hw.Base.{
  ℕ, ◌+◌, ℤ, pos, negsuc, Bool, true, false, Option, none, some, [], ◌∷◌, ok, einval,
}
use platform_external_drm_hw.Kernel.{Kms}
use platform_external_drm_hw.Drm.Property.{DrmProperty, no_property}
use platform_external_drm_hw.Drm.Mode.{DrmMode, ModeInfo, no_mode}
use platform_external_drm_hw.Drm.Crtc.{DrmCrtc, DrmEncoder}
use platform_external_drm_hw.Drm.Plane.{DrmPlane, type_primary, type_overlay}
use platform_external_drm_hw.Drm.Connector.{DrmConnector, connected}
use platform_external_drm_hw.Drm.Device.{DrmDevice}
use platform_external_drm_hw.Layer.{DrmHwcLayer, DrmBo, Importer, new_layer}
use platform_external_drm_hw.Planner.{greedy, Provision, Layers}
use platform_external_drm_hw.Compositor.Request.{FloatOps}
use platform_external_drm_hw.Compositor.State.{System, OutFences, flatten_countdown_init}
use platform_external_drm_hw.Vsync.{new_vsync_worker}
use platform_external_drm_hw.Hwc.CompositionType
use platform_external_drm_hw.Hwc.Layer.{HwcLayer, new_hwc_layer, Os}
use platform_external_drm_hw.Hwc.Display.{HwcDisplay, LayerMap, Platform}

abbrev pub property : ℕ → DrmProperty
property id = record no_property { id = id }

abbrev pub a_crtc : DrmCrtc
a_crtc = record {
  id = 31;
  pipe = 0;
  display = some 0;
  active_property = property 100;
  mode_property = property 101;
  out_fence_ptr_property = property 102;
}

abbrev pub a_plane : ℕ → ℕ → DrmPlane
a_plane id type = record {
  id = id;
  possible_crtc_mask = 1;
  type = type;
  crtc_property = property 1;
  fb_property = property 2;
  crtc_x_property = property 3;
  crtc_y_property = property 4;
  crtc_w_property = property 5;
  crtc_h_property = property 6;
  src_x_property = property 7;
  src_y_property = property 8;
  src_w_property = property 9;
  src_h_property = property 10;
  zpos_property = no_property;
  rotation_property = no_property;
  alpha_property = no_property;
  blend_property = no_property;
  in_fence_fd_property = no_property;
}

abbrev pub primary_plane : DrmPlane
primary_plane = a_plane 41 type_primary

abbrev pub overlay_plane : DrmPlane
overlay_plane = a_plane 42 type_overlay

-- A layer that every plane can show, and one that needs a plane that can rotate.
abbrev pub plain_layer : DrmHwcLayer
plain_layer = new_layer

abbrev pub rotated_layer : DrmHwcLayer
rotated_layer = record new_layer { transform = 4 }

abbrev pub stack : Layers
stack = (0, plain_layer) ∷ (1, rotated_layer) ∷ []

abbrev pub provision : Provision
provision = record {
  ret = ok;
  composition = [];
  layers = stack;
  planes = primary_plane ∷ overlay_plane ∷ [];
}

abbrev pub a_mode : DrmMode
a_mode = record no_mode { id = 7; h_display = 1920; v_display = 1080 }

abbrev pub a_mode_info : ModeInfo
a_mode_info = record {
  clock = 148500;
  hdisplay = 1920;
  hsync_start = 2008;
  hsync_end = 2052;
  htotal = 2200;
  hskew = 0;
  vdisplay = 1080;
  vsync_start = 1084;
  vsync_end = 1089;
  vtotal = 1125;
  vscan = 0;
  vrefresh = 60;
  flags = 5;
  type = 8;
  name = "1920x1080";
}

abbrev pub a_connector : DrmConnector
a_connector = record {
  id = 51;
  encoder = none;
  display = some 0;
  type = 14;
  state = connected;
  mm_width = 300;
  mm_height = 200;
  active_mode = no_mode;
  modes = a_mode ∷ [];
  dpms_property = property 103;
  crtc_id_property = property 104;
  writeback_pixel_formats = no_property;
  writeback_fb_id = no_property;
  writeback_out_fence = no_property;
  possible_encoders = 61 ∷ [];
  preferred_mode_id = 7;
}

-- A connector that is free to become a display.
abbrev pub new_connector : DrmConnector
new_connector = record a_connector { id = 52; display = none; type = 11 }

abbrev pub an_encoder : DrmEncoder
an_encoder = record {
  id = 61;
  crtc = some 31;
  display = some 0;
  possible_crtcs = 31 ∷ [];
  possible_clones = [];
}

abbrev pub a_device : DrmDevice
a_device = record {
  crtcs = a_crtc ∷ [];
  encoders = an_encoder ∷ [];
  connectors = a_connector ∷ [];
  writeback_connectors = [];
  planes = primary_plane ∷ overlay_plane ∷ [];
  displays = 0 ∷ [];
  mode_id = 7;
}

-- The world counts the commits.
abbrev pub kms : Kms ℕ
kms = record {
  alloc = λ w. true;
  add_property = λ w es e. pos 1;
  commit = λ w es flags. record { code = ok; out_fence = negsuc 0; world = w + 1 };
  create_blob = λ w mode. (ok, 9, w);
  destroy_blob = λ w blob. (ok, w);
  set_connector_property = λ w e. (ok, w);
}

abbrev pub a_bo : DrmBo
a_bo = record {
  width = 64;
  height = 64;
  format = 0;
  hal_format = 1;
  usage = 0;
  pixel_stride = 64;
  pitches = 256 ∷ 0 ∷ 0 ∷ 0 ∷ [];
  offsets = 0 ∷ 0 ∷ 0 ∷ 0 ∷ [];
  gem_handles = 5 ∷ 0 ∷ 0 ∷ 0 ∷ [];
  fb_id = 77;
}

abbrev can_import : Option ℕ → Bool
can_import none = false
can_import (some h) = true

abbrev import_it : Option ℕ → ℤ × DrmBo
import_it none = (einval, a_bo)
import_it (some h) = (ok, a_bo)

abbrev pub importer : Importer
importer = record {
  import_buffer = import_it;
  can_import_buffer = can_import;
  copy_handle = λ h bo n. (ok, 500);
}

abbrev pub floats : FloatOps
floats = record { sub = λ a b. 0; to_int = λ a. pos 0; of_uint = λ n. n; to_alpha = λ a. 0xffff }

abbrev pub fences : OutFences
fences = record { address = 4096; writeback_address = 8192; stale = negsuc 0 }

abbrev pub os : Os
os = record { dup = λ fd. fd; sync_merge = λ a b. a }

abbrev pub platform : Platform ℕ
platform = record { kms = kms; importer = importer; floats = floats; os = os; fences = fences }

abbrev pub system : System ℕ
system = record {
  compositor = record {
    display = 0;
    active = true;
    mode = record { needs_modeset = false; mode = no_mode; blob_id = 0; old_blob_id = 0 };
    active_composition = none;
    dump_frames_composited = 0;
    flatten_countdown = flatten_countdown_init;
    vsync_worker = new_vsync_worker;
  };
  device = a_device;
  world = 0;
  crashed = false;
}

abbrev pub device_layer : ℕ → HwcLayer
device_layer z = record new_hwc_layer {
  sf_type = CompositionType.device;
  buffer = some 200;
  z_order = z;
}

-- Three layers that ask for a plane each, where there are two.
abbrev pub three_layers : LayerMap
three_layers = (0, device_layer 2) ∷ (1, device_layer 0) ∷ (2, device_layer 1) ∷ []

abbrev pub display : HwcDisplay ℕ
display = record {
  system = system;
  planner = greedy ∷ [];
  primary_planes = primary_plane ∷ [];
  overlay_planes = overlay_plane ∷ [];
  vsync_worker = new_vsync_worker;
  crtc = a_crtc;
  layer_idx = 3;
  layers = three_layers;
  client_layer = record new_hwc_layer { buffer = some 300 };
  retire_fence = negsuc 0;
  next_retire_fence = negsuc 0;
  color_mode = 0;
  frame_no = 0;
}
