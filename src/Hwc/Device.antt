-- ===== src/Hwc/Device.antt =====
-- `DrmHwcTwo` of drmhwctwo.cpp: its displays and callbacks, and hotplug. The displays of one card work
-- on the same device: the device and the world of a display's state are those of the manager, which
-- are put in before a call and taken out after it.
pub mod Each
pub mod Creation
pub mod Hotplug
use platform_external_drm_hw.Base.{
  ℕ, zero, suc, ◌+◌, ◌*◌, ◌/◌, ◌%◌, ◌^◌, ℤ, pos, negsuc, nonzero, Bool, true, false, Option, none,
  some, List, [], ◌∷◌, ◌++◌, map, keep, ◌==◌, ◌&&◌, ◌||◌, not, if◌then◌else◌, ok, einval, find_if,
}
use platform_external_drm_hw.Drm.Property.{no_property}
use platform_external_drm_hw.Drm.Mode.{DrmMode, no_mode}
use platform_external_drm_hw.Drm.Crtc.{DrmCrtc}
use platform_external_drm_hw.Drm.Plane.{DrmPlane, type_primary, type_overlay, get_crtc_supported}
use platform_external_drm_hw.Drm.Connector.{
  DrmConnector, ConnectorRes, Connection, connected, disconnected, unknown_connection, update_modes,
}
use platform_external_drm_hw.Drm.Device.{
  DrmDevice, get_connector_for_display, get_crtc_for_display, handles_display,
}
use platform_external_drm_hw.Drm.Device.Writeback.{is_connected, replace, follow}
use platform_external_drm_hw.Layer.{Importer}
use platform_external_drm_hw.Planner.{PlanStage}
use platform_external_drm_hw.Resources.{ResourceManager, get_drm_device, get_importer}
use platform_external_drm_hw.Compositor.{clear_display}
use platform_external_drm_hw.Compositor.State.{System, new_compositor}
use platform_external_drm_hw.Vsync.{new_vsync_worker}
use platform_external_drm_hw.Hwc.Layer.{
  HwcLayer, Error, no_error, bad_display, bad_config, no_resources, new_hwc_layer,
}
use platform_external_drm_hw.Hwc.Display.{HwcDisplay, Platform}
use platform_external_drm_hw.Hwc.Config.{get_num_configs, set_active_config, connector_of}
use platform_external_drm_hw.Hwc.Present.{is_no_error}

-- `HwcCallback`: what Android wants back, and the function to call.
pub record HwcCallback : Type 0 where
  pub context : ℕ
  pub func : ℕ

-- An entry of `displays_`, with the callback of its vsync worker.
pub record Slot (W : Type 0) : Type 0 where
  pub handle : ℕ
  pub display : HwcDisplay W
  pub vsync_callback : Option HwcCallback

pub record DrmHwcTwo (W : Type 0) : Type 0 where
  pub manager : ResourceManager Importer
  pub world : W
  pub displays : List (Slot W)
  -- `callbacks_`, by the numbers of HWC2_CALLBACK: 1 for hotplug, 2 for refresh and 3 for vsync.
  pub callbacks : List (ℕ × HwcCallback)

-- A call of the hotplug callback.
pub record Note : Type 0 where
  pub callback : HwcCallback
  pub display : Option ℕ
  pub plugged : Bool

-- What the parts of a display need when it is made: the planner of the platform, the property
-- "hwc.drm.use_overlay_planes", and the codes of `pthread_mutex_init` and of the vsync worker.
pub record Setup : Type 0 where
  pub planner : Option (List PlanStage)
  pub use_overlay_planes : Bool
  pub lock_ret : ℤ
  pub vsync_ret : ℤ

-- A null CRTC.
abbrev no_crtc : DrmCrtc
no_crtc = record {
  id = 0;
  pipe = 0;
  display = none;
  active_property = no_property;
  mode_property = no_property;
  out_fence_ptr_property = no_property;
}

abbrev pub find_callback : ℕ → List (ℕ × HwcCallback) → Option HwcCallback
find_callback k [] = none
find_callback k (c ∷ cs) = let rest = find_callback k cs in if c.0 == k then some c.1 else rest

-- `callbacks_.emplace` keeps a callback that is there.
unfoldable pub emplace_callback : ℕ → HwcCallback → List (ℕ × HwcCallback) → List (ℕ × HwcCallback)
emplace_callback k c cs = elim (find_callback k cs) [ none ↦ cs ++ (k, c) ∷ [] | some old ↦ cs ]

-- `DrmDisplayCompositor::Init`: the code.
unfoldable pub init_compositor : ResourceManager Importer → ℤ → ℕ → ℤ
unfolding get_drm_device
init_compositor manager lock_ret display = elim (get_drm_device manager display) [
  | none ↦ einval
  | some dev ↦ lock_ret
]

-- `GetActiveModeResolution`, with the code.
unfoldable pub get_active_mode_resolution : DrmDevice → ℕ → ℕ × ℕ × ℤ
get_active_mode_resolution dev display = elim (get_connector_for_display dev (some display)) [
  | none ↦ (0, 0, negsuc 18)
  | some conn ↦ (conn.active_mode.h_display, conn.active_mode.v_display, ok)
]

-- Dots per 1000 inches, from the pixels and the millimetres.
abbrev dots : ℕ → ℕ → Option ℕ
dots pixels mm = if mm == 0 then none else some (pixels * 25400 % 2 ^ 32 / mm)

-- `GetDisplayAttribute` for the attributes width 1, height 2, DPI 4 and 5 of HWC2; the vsync period, 3,
-- comes from a float and is the argument. `none` stands for -1.
unfoldable pub get_display_attribute : (DrmMode → ℕ) → DrmConnector → ℕ → ℕ → Error × Option ℕ
get_display_attribute period conn config attribute =
    elim (find_if (λ m. m.id == config) conn.modes) [
      | none ↦ (bad_config, none)
      | some mode ↦
          if attribute == 1
          then (no_error, some mode.h_display)
          else (if attribute == 2
              then (no_error, some mode.v_display)
              else (if attribute == 3
                  then (no_error, some (period mode))
                  else (if attribute == 4
                      then (no_error, dots mode.h_display conn.mm_width)
                      else (if attribute == 5
                          then (no_error, dots mode.v_display conn.mm_height)
                          else (bad_config, none)))))
    ]

module _ {W : Type 0} where
  -- The constructor. It leaves `color_mode_`, which nothing reads, as it is.
  unfoldable pub new_display : ℕ → DrmDevice → W → HwcDisplay W
  unfolding new_compositor
  new_display display dev w = record {
    system = record {
      compositor = new_compositor display;
      device = dev;
      world = w;
      crashed = false;
    };
    planner = [];
    primary_planes = [];
    overlay_planes = [];
    vsync_worker = new_vsync_worker;
    crtc = no_crtc;
    layer_idx = 0;
    layers = [];
    client_layer = new_hwc_layer;
    retire_fence = negsuc 0;
    next_retire_fence = negsuc 0;
    color_mode = 0;
    frame_no = 0;
  }

  -- The display, on a device and a world.
  abbrev pub load : DrmDevice → W → HwcDisplay W → HwcDisplay W
  load dev w d = record d { system = record d.system { device = dev; world = w } }

  unfoldable pub find_slot : ℕ → List (Slot W) → Option (Slot W)
  find_slot h = find_if λ s. s.handle == h

  put_slot : Slot W → List (Slot W) → List (Slot W)
  put_slot slot = map λ s. if s.handle == slot.handle then slot else s

  emplace_slot : Slot W → List (Slot W) → List (Slot W)
  unfolding find_slot
  emplace_slot slot ss = elim (find_slot slot.handle ss) [ none ↦ ss ++ slot ∷ [] | some old ↦ ss ]

-- Replacing the first device that has a display.
put_device : ℕ → DrmDevice → List DrmDevice → List DrmDevice
put_device display dev [] = []
put_device display dev (d ∷ ds) =
    let rest = put_device display dev ds in if handles_display d display then dev ∷ ds else d ∷ rest

module _ {W : Type 0} where
  -- A call on the display of an entry, with its device.
  unfoldable pub run_on :
      {A : Type 0}
      → ℕ
      → (HwcDisplay W → A × HwcDisplay W)
      → DrmHwcTwo W
      → Option (Slot W)
      → Option DrmDevice
      → Option (A × DrmHwcTwo W)
  unfolding put_slot put_device
  run_on h f s none dev = none
  run_on h f s (some slot) none = none
  run_on h f s (some slot) (some dev) =
      let (a, d) = f (load dev s.world slot.display) in
      some (
        a,
        record s {
          manager = record s.manager { drms = put_device h d.system.device s.manager.drms };
          world = d.system.world;
          displays = put_slot (record slot { display = d }) s.displays;
        },
      )

  -- A call on `displays_.at(h)`: `none` where `at` throws. A display that is there has its device.
  unfoldable pub run_display :
      {A : Type 0} → ℕ → (HwcDisplay W → A × HwcDisplay W) → DrmHwcTwo W → Option (A × DrmHwcTwo W)
  unfolding run_on find_slot get_drm_device
  run_display h f s = run_on h f s (find_slot h s.displays) (get_drm_device s.manager h)

  -- `HwcDisplay::ClearDisplay`.
  unfoldable pub clear_hwc_display : Platform W → HwcDisplay W → Error × HwcDisplay W
  unfolding clear_display
  clear_hwc_display pf d =
      (no_error, record d { system = clear_display pf.kms pf.floats pf.fences d.system })
