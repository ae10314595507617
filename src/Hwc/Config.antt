-- ===== src/Hwc/Config.antt =====
-- The calls of `HwcDisplay` in drmhwctwo.cpp about modes, power and the client target. `connector_` is
-- the connector of the device that has the display's number: `Init` looks it up and refuses a display
-- without one, and numbers do not change after that. Where the source would go on without a connector
-- the answer here is BadDisplay.
pub mod Active
pub mod Kept
use platform_external_drm_hw.Base.{
  ℕ, suc, ◌+◌, ◌*◌, ◌/◌, ◌%◌, ◌^◌, ℤ, pos, negsuc, nonzero, Bool, true, false, Option, none, some,
  List, [], ◌∷◌, map, ◌==◌, ltb, leb, if◌then◌else◌, not, ◌&&◌, ◌||◌, take, length, find_if,
}
use platform_external_drm_hw.Drm.Mode.{DrmMode}
use platform_external_drm_hw.Drm.Connector.{DrmConnector, ConnectorRes, update_modes}
use platform_external_drm_hw.Drm.Device.{DrmDevice, get_connector_for_display}
use platform_external_drm_hw.Composition.{
  init_composition, set_display_mode, set_dpms_mode, dpms_on, dpms_off,
}
use platform_external_drm_hw.Compositor.{apply_composition}
use platform_external_drm_hw.Compositor.Request.{to_int32}
use platform_external_drm_hw.Compositor.State.{System, set_active_mode}
use platform_external_drm_hw.Layer.{Rect, FRect}
use platform_external_drm_hw.Vsync.{vsync_control}
use platform_external_drm_hw.Hwc.Layer.{
  HwcLayer, Error, no_error, bad_config, bad_parameter, bad_display, unsupported,
}
use platform_external_drm_hw.Hwc.Display.{HwcDisplay, Platform}

active_config : Option DrmConnector → Error × ℕ
active_config none = (bad_display, 0)
active_config (some conn) =
    if conn.active_mode.id == 0 then (bad_config, 0) else (no_error, conn.active_mode.id)

-- `GetClientTargetSupport`, for the device's smallest and largest width and height. The dataspaces
-- UNKNOWN and STANDARD_UNSPECIFIED of the platform are both 0.
unfoldable pub get_client_target_support : ℕ × ℕ → ℕ × ℕ → ℕ → ℕ → ℕ → Error
get_client_target_support smallest largest width height dataspace =
    if ltb width smallest.0 || ltb height smallest.1
    then unsupported
    else (if ltb largest.0 width || ltb largest.1 height
        then unsupported
        else (if dataspace == 0 then no_error else unsupported))

list_configs : ℕ → Option DrmConnector → Error × List ℕ
list_configs room none = (bad_display, [])
list_configs room (some conn) = (no_error, take room (map (λ m. m.id) conn.modes))

module _ {W : Type 0} where
  unfoldable pub connector_of : HwcDisplay W → Option DrmConnector
  connector_of d = get_connector_for_display d.system.device (some d.system.compositor.display)

  -- `GetActiveConfig`: the code, and the config if the code is None.
  unfoldable pub get_active_config : HwcDisplay W → Error × ℕ
  unfolding connector_of active_config
  get_active_config d = active_config (connector_of d)

  -- Replacing a connector by its id.
  put_connector : DrmConnector → ℕ → HwcDisplay W → HwcDisplay W
  put_connector conn mode_id d = record d {
    system = record d.system {
      device = record d.system.device {
        connectors = map (λ c. if c.id == conn.id then conn else c) d.system.device.connectors;
        mode_id = mode_id;
      };
    };
  }

  count_configs :
      Option DrmConnector → Option ConnectorRes → HwcDisplay W → Error × ℕ × HwcDisplay W
  unfolding put_connector update_modes
  count_configs none answer d = (bad_display, 0, d)
  count_configs (some conn) answer d =
      let updated = update_modes answer d.system.device.mode_id conn in
      if nonzero updated.ret then (bad_display, 0, d) else (
        no_error,
        length updated.connector.modes,
        put_connector updated.connector updated.mode_id d,
      )

  -- `GetDisplayConfigs` without an array, on what `drmModeGetConnector` answers: the modes are read
  -- again and counted.
  unfoldable pub get_num_configs : Option ConnectorRes → HwcDisplay W → Error × ℕ × HwcDisplay W
  unfolding count_configs connector_of
  get_num_configs answer d = count_configs (connector_of d) answer d

  -- `GetDisplayConfigs` with an array that has room for `room` configs.
  unfoldable pub get_display_configs : ℕ → HwcDisplay W → Error × List ℕ
  unfolding list_configs connector_of
  get_display_configs room d = list_configs room (connector_of d)

  -- HAL_COLOR_MODE_NATIVE is 0.
  unfoldable pub set_color_mode : ℕ → HwcDisplay W → Error × HwcDisplay W
  set_color_mode mode d =
      if mode == 0 then (no_error, record d { color_mode = mode }) else (unsupported, d)

  -- HWC2_VSYNC_ENABLE is 1.
  unfoldable pub set_vsync_enabled : ℕ → HwcDisplay W → Error × HwcDisplay W
  unfolding vsync_control
  set_vsync_enabled enabled d =
      (no_error, record d { vsync_worker = vsync_control d.vsync_worker (enabled == 1) })

module _ {W : Type 0} (pf : Platform W) where
  unfoldable pub set_client_target : Option ℕ → ℤ → ℕ → HwcDisplay W → Error × HwcDisplay W
  set_client_target target acquire_fence dataspace d = (
    no_error,
    record d {
      client_layer = record d.client_layer {
        buffer = target;
        acquire_fence = pf.os.dup acquire_fence;
        dataspace = dataspace;
      };
    },
  )

  -- The frame and the crop of the client layer, for a mode.
  client_area : DrmMode → HwcLayer → HwcLayer
  unfolding to_int32
  client_area mode l = record l {
    display_frame = record {
      left = pos 0;
      top = pos 0;
      right = to_int32 mode.h_display;
      bottom = to_int32 mode.v_display;
    };
    source_crop = record {
      left = 0;
      top = 0;
      right = pf.floats.of_uint mode.h_display;
      bottom = pf.floats.of_uint mode.v_display;
    };
  }

  -- `SetActiveConfig` once the mode is found. The code of `SetDisplayMode` is dropped.
  activate : DrmConnector → DrmMode → HwcDisplay W → Error × HwcDisplay W
  unfolding client_area set_display_mode init_composition apply_composition set_active_mode
  activate conn mode d =
      let comp = (set_display_mode (init_composition d.crtc d.planner d.frame_no) mode).1 in
      let (ret, sys) = apply_composition pf.kms pf.floats pf.fences comp d.system in
      if nonzero ret then (bad_config, record d { system = sys }) else (
        no_error,
        record d {
          system = record sys { device = set_active_mode conn.id mode sys.device };
          client_layer = client_area mode d.client_layer;
        },
      )

  activate_found : DrmConnector → Option DrmMode → HwcDisplay W → Error × HwcDisplay W
  unfolding activate
  activate_found conn none d = (bad_config, d)
  activate_found conn (some mode) d = activate conn mode d

  set_config : Option DrmConnector → ℕ → HwcDisplay W → Error × HwcDisplay W
  unfolding activate_found
  set_config none config d = (bad_display, d)
  set_config (some conn) config d = activate_found conn (find_if (λ m. m.id == config) conn.modes) d

  unfoldable pub set_active_config : ℕ → HwcDisplay W → Error × HwcDisplay W
  unfolding set_config connector_of
  set_active_config config d = set_config (connector_of d) config d

  apply_power : ℕ → HwcDisplay W → Error × HwcDisplay W
  unfolding set_dpms_mode init_composition apply_composition
  apply_power dpms_value d =
      let comp = (set_dpms_mode (init_composition d.crtc d.planner d.frame_no) dpms_value).1 in
      let (ret, sys) = apply_composition pf.kms pf.floats pf.fences comp d.system in
      (if nonzero ret then bad_parameter else no_error, record d { system = sys })

  -- `SetPowerMode`, for the platform's modes Off, 0, and On, 2.
  unfoldable pub set_power_mode : ℕ → HwcDisplay W → Error × HwcDisplay W
  unfolding apply_power
  set_power_mode mode d =
      let off = apply_power dpms_off d in
      let on = apply_power dpms_on d in
      if mode == 0 then off else (if mode == 2 then on else (unsupported, d))
