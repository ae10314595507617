-- ===== src/Hwc/Functions.antt =====
-- `HookDevGetFunction` of drmhwctwo.cpp and the hooks of drmhwctwo.h: the functions of HWC2 with their
-- arguments, and the member that each one calls. An answer has the type that its function has. `Dump`,
-- which does nothing, and `GetDisplayType`, which answers a constant, are left out.
pub mod Layers
pub mod Numbering
use platform_external_drm_hw.Base.{ℕ, ℤ, Bool, Option, none, some, List, [], ◌∷◌}
use platform_external_drm_hw.Drm.Mode.{DrmMode}
use platform_external_drm_hw.Drm.Connector.{DrmConnector, ConnectorRes}
use platform_external_drm_hw.Hwc.Layer.{
  Error, no_error, bad_display, unsupported, LayerCall, set_layer_buffer, layer_call, HwcLayer,
}
use platform_external_drm_hw.Hwc.Display
use platform_external_drm_hw.Hwc.Display.{HwcDisplay, Platform}
use platform_external_drm_hw.Hwc.Validate
use platform_external_drm_hw.Hwc.Present
use platform_external_drm_hw.Hwc.Config
use platform_external_drm_hw.Hwc.Config.{connector_of}
use platform_external_drm_hw.Hwc.Queries
use platform_external_drm_hw.Hwc.Hooks.{get_layer, put_layer}
use platform_external_drm_hw.Hwc.Device.{DrmHwcTwo, HwcCallback, run_display}
use platform_external_drm_hw.Hwc.Device
use platform_external_drm_hw.Hwc.Device.Hotplug

-- What the members read that is not the state of the display: the texts and periods that come from the
-- platform, what the kernel answers about the connector, and the resolutions of the device.
pub record Surroundings (W : Type 0) : Type 0 where
  pub platform : Platform W
  pub decimal : ℕ → List ℕ
  pub period : DrmMode → ℕ
  pub connector : Option ConnectorRes
  pub min_resolution : ℕ × ℕ
  pub max_resolution : ℕ × ℕ

pub data DisplayFunction : Type 0 where
  accept_display_changes : DisplayFunction
  create_layer : DisplayFunction
  destroy_layer : ℕ → DisplayFunction
  get_active_config : DisplayFunction
  get_changed_composition_types : Bool → Bool → ℕ → DisplayFunction
  get_client_target_support : ℕ → ℕ → ℕ → DisplayFunction
  get_color_modes : Bool → DisplayFunction
  get_display_attribute : ℕ → ℕ → DisplayFunction
  get_num_configs : DisplayFunction
  get_display_configs : ℕ → DisplayFunction
  get_display_name : Option ℕ → DisplayFunction
  get_display_requests : DisplayFunction
  get_doze_support : DisplayFunction
  get_hdr_capabilities : DisplayFunction
  get_release_fences : Bool → ℕ → DisplayFunction
  present_display : DisplayFunction
  set_active_config : ℕ → DisplayFunction
  set_client_target : Option ℕ → ℤ → ℕ → DisplayFunction
  set_color_mode : ℕ → DisplayFunction
  set_color_transform : DisplayFunction
  set_output_buffer : DisplayFunction
  set_power_mode : ℕ → DisplayFunction
  set_vsync_enabled : ℕ → DisplayFunction
  validate_display : DisplayFunction

-- The functions on a layer: `SetLayerBuffer` with its buffer and fence, and the others.
pub data LayerFunction : Type 0 where
  set_buffer : Option ℕ → ℤ → LayerFunction
  change : LayerCall → LayerFunction

-- The code of each function, and what it writes through its pointers.
abbrev pub Answer : DisplayFunction → Type 0
Answer accept_display_changes = Error
Answer create_layer = Error × ℕ
Answer (destroy_layer h) = Error
Answer get_active_config = Error × ℕ
Answer (get_changed_composition_types layers types room) = Error × Present.ChangedTypes
Answer (get_client_target_support w h dataspace) = Error
Answer (get_color_modes array) = Error × Option ℕ × Option ℕ
Answer (get_display_attribute config attribute) = Error × Option ℕ
Answer get_num_configs = Error × ℕ
Answer (get_display_configs room) = Error × List ℕ
Answer (get_display_name room) = Error × ℕ × List ℕ
Answer get_display_requests = Error × ℕ × Option ℕ
Answer get_doze_support = Error × ℕ
Answer get_hdr_capabilities = Error × ℕ
Answer (get_release_fences both room) = Error × ℕ × List (ℕ × ℤ)
Answer present_display = Error × Option ℤ
Answer (set_active_config config) = Error
Answer (set_client_target target fence dataspace) = Error
Answer (set_color_mode mode) = Error
Answer set_color_transform = Error
Answer set_output_buffer = Error
Answer (set_power_mode mode) = Error
Answer (set_vsync_enabled enabled) = Error
Answer validate_display = Error × ℕ

attribute_of : (DrmMode → ℕ) → Option DrmConnector → ℕ → ℕ → Error × Option ℕ
unfolding Device.get_display_attribute
attribute_of period none config attribute = (bad_display, none)
attribute_of period (some conn) config attribute =
    Device.get_display_attribute period conn config attribute

module _ {W : Type 0} (env : Surroundings W) where
  -- The member that a function calls.
  unfoldable pub display_function : (f : DisplayFunction) → HwcDisplay W → Answer f × HwcDisplay W
  unfolding attribute_of connector_of
  display_function accept_display_changes d = (no_error, Display.accept_display_changes d)
  display_function create_layer d = let (error, h, d') = Present.create_layer d in ((error, h), d')
  display_function (destroy_layer h) d = Present.destroy_layer h d
  display_function get_active_config d = (Config.get_active_config d, d)
  display_function (get_changed_composition_types layers types room) d =
      ((no_error, Present.get_changed_composition_types layers types room d), d)
  display_function (get_client_target_support w h dataspace) d =
      (Config.get_client_target_support env.min_resolution env.max_resolution w h dataspace, d)
  display_function (get_color_modes array) d = (Queries.get_color_modes array, d)
  display_function (get_display_attribute config attribute) d =
      (attribute_of env.period (connector_of d) config attribute, d)
  display_function get_num_configs d =
      let (error, n, d') = Config.get_num_configs env.connector d in ((error, n), d')
  display_function (get_display_configs room) d = (Config.get_display_configs room d, d)
  display_function (get_display_name room) d = (Queries.get_display_name env.decimal room d, d)
  display_function get_display_requests d = (Queries.get_display_requests, d)
  display_function get_doze_support d = (Queries.get_doze_support, d)
  display_function get_hdr_capabilities d = (Queries.get_hdr_capabilities, d)
  display_function (get_release_fences both room) d =
      let (n, fences, d') = Present.get_release_fences both room d in ((no_error, n, fences), d')
  display_function present_display d =
      let r = Present.present_display env.platform d in ((r.error, r.retire_fence), r.display)
  display_function (set_active_config config) d = Config.set_active_config env.platform config d
  display_function (set_client_target target fence dataspace) d =
      Config.set_client_target env.platform target fence dataspace d
  display_function (set_color_mode mode) d = Config.set_color_mode mode d
  display_function set_color_transform d = (unsupported, d)
  display_function set_output_buffer d = (unsupported, d)
  display_function (set_power_mode mode) d = Config.set_power_mode env.platform mode d
  display_function (set_vsync_enabled enabled) d = Config.set_vsync_enabled enabled d
  display_function validate_display d =
      let r = Validate.validate_display env.platform d in ((r.error, r.num_types), r.display)

  unfoldable pub layer_function : LayerFunction → HwcLayer → Error × HwcLayer
  layer_function (set_buffer buffer fence) l = set_layer_buffer env.platform.os buffer fence l
  layer_function (change call) l = layer_call call l

-- A function of HWC2 with the handles it is called on.
pub data HwcFunction : Type 0 where
  create_virtual_display : HwcFunction
  destroy_virtual_display : HwcFunction
  get_max_virtual_display_count : HwcFunction
  register_callback : ℕ → Option HwcCallback → HwcFunction
  display_hook : ℕ → DisplayFunction → HwcFunction
  layer_hook : ℕ → ℕ → LayerFunction → HwcFunction

-- What happens to the device: a call of Android, or an event of the kernel about the device at a
-- position, with the ids of its connectors and what the kernel answers about them.
pub data HwcEvent (W : Type 0) : Type 0 where
  call : Surroundings W → HwcFunction → HwcEvent W
  hotplug :
      Platform W → ℕ → (ℕ → Option ConnectorRes) → (ℕ → Option ConnectorRes) → List ℕ → HwcEvent W

module _ {W : Type 0} where
  -- `LayerHook` on a display, where `get_layer` may throw.
  unfoldable pub layer_on :
      Surroundings W → ℕ → LayerFunction → HwcDisplay W → Option Error × HwcDisplay W
  unfolding layer_function put_layer get_layer
  layer_on env h f d = elim (get_layer d.layers h) [
    | none ↦ (none, d)
    | some l ↦
        let (error, l') = layer_function env f l in
        (some error, record d { layers = put_layer h l' d.layers })
  ]

  abbrev pub state_called : {A : Type 0} → Option (A × DrmHwcTwo W) → Option (DrmHwcTwo W)
  state_called none = none
  state_called (some (a, s)) = some s

  abbrev pub state_after_layer : Option (Option Error × DrmHwcTwo W) → Option (DrmHwcTwo W)
  state_after_layer none = none
  state_after_layer (some (none, s)) = none
  state_after_layer (some (some e, s)) = some s

  abbrev pub state_after_event : {A : Type 0} → Option (DrmHwcTwo W × A) → Option (DrmHwcTwo W)
  state_after_event none = none
  state_after_event (some (s, a)) = some s

  -- The hook that `HookDevGetFunction` gives for a function, called. `none` stands for a handle that
  -- is not there, where `at` throws.
  unfoldable pub call_function : Surroundings W → HwcFunction → DrmHwcTwo W → Option (DrmHwcTwo W)
  unfolding layer_on display_function run_display Hotplug.register_callback
  call_function env create_virtual_display s = some s
  call_function env destroy_virtual_display s = some s
  call_function env get_max_virtual_display_count s = some s
  call_function env (register_callback k cb) s = some (Hotplug.register_callback k cb s).1
  call_function env (display_hook h f) s = state_called (run_display h (display_function env f) s)
  call_function env (layer_hook h l f) s = state_after_layer (run_display h (layer_on env l f) s)

  unfoldable pub handle : HwcEvent W → DrmHwcTwo W → Option (DrmHwcTwo W)
  unfolding call_function Hotplug.handle_event
  handle (call env f) s = call_function env f s
  handle (hotplug pf i first again ids) s =
      state_after_event (Hotplug.handle_event pf i first again ids s)

  unfoldable pub handle_all : List (HwcEvent W) → DrmHwcTwo W → Option (DrmHwcTwo W)
  unfolding handle
  handle_all [] s = some s
  handle_all (e ∷ es) s = elim (handle e s) [ none ↦ none | some s' ↦ handle_all es s' ]
