-- ===== src/Examples/Lives.antt =====
-- A composer that is made, and on whose display layers are made, changed and destroyed.
use platform_external_drm_hw.Base.{ℕ, true, Option, none, some, List, [], ◌∷◌, ok, ◌≡◌, refl, arith}
use platform_external_drm_hw.Hwc.Layer.LayerCall.{set_layer_z_order}
use platform_external_drm_hw.Hwc.Present
use platform_external_drm_hw.Hwc.Layer.{layer_call}
use platform_external_drm_hw.Resources.{get_drm_device, get_importer}
use platform_external_drm_hw.Drm.Device.{
  handles_display, get_crtc_for_display, get_connector_for_display,
}
use platform_external_drm_hw.Hwc.Hooks.{get_layer, put_layer}
use platform_external_drm_hw.Hwc.Present.Handles.{WellNumbered}
use platform_external_drm_hw.Hwc.Device.{DrmHwcTwo, Setup, find_slot}
use platform_external_drm_hw.Hwc.Device.Each.{Each}
use platform_external_drm_hw.Hwc.Device.Creation.{init_hwc}
use platform_external_drm_hw.Hwc.Functions.{
  DisplayFunction, Surroundings, HwcEvent, handle_all, DisplayFunction,
}
use platform_external_drm_hw.Hwc.Functions.HwcEvent.{call}
use platform_external_drm_hw.Hwc.Functions.HwcFunction.{display_hook, layer_hook}
use platform_external_drm_hw.Hwc.Functions.DisplayFunction.{create_layer, destroy_layer}
use platform_external_drm_hw.Hwc.Functions.LayerFunction.{change}
use platform_external_drm_hw.Hwc.Functions.Numbering.{lifetime-WellNumbered}
use platform_external_drm_hw.Examples.Fixtures.{platform}
use platform_external_drm_hw.Examples.Hotplug.{composer, no_answer}

abbrev unmade : DrmHwcTwo ℕ
unmade = record composer { displays = [] }

abbrev a_setup : Setup
a_setup = record { planner = some []; use_overlay_planes = true; lock_ret = ok; vsync_ret = ok }

abbrev surroundings : Surroundings ℕ
surroundings = record {
  platform = platform;
  decimal = λ n. [];
  period = λ m. 16;
  connector = none;
  min_resolution = (0, 0);
  max_resolution = (4096, 4096);
}

abbrev made : DrmHwcTwo ℕ
made = (init_hwc platform a_setup no_answer ok unmade).1

abbrev on_display_0 : DisplayFunction → HwcEvent ℕ
on_display_0 f = call surroundings (display_hook 0 f)

abbrev events : List (HwcEvent ℕ)
events =
    on_display_0 create_layer
    ∷ on_display_0 create_layer
    ∷ call surroundings (layer_hook 0 1 (change (set_layer_z_order 5)))
    ∷ on_display_0 (destroy_layer 0)
    ∷ on_display_0 create_layer
    ∷ []

abbrev state_or_unmade : Option (DrmHwcTwo ℕ) → DrmHwcTwo ℕ
state_or_unmade none = unmade
state_or_unmade (some s) = s

abbrev at_end : DrmHwcTwo ℕ
at_end = state_or_unmade (handle_all events made)

gets_through : handle_all events made ≡ some at_end
unfolding handle_all Present.create_layer Present.destroy_layer handles_display find_slot
    get_crtc_for_display get_connector_for_display init_hwc put_layer get_layer layer_call
    get_importer get_drm_device
gets_through = refl

numbering_example : Each WellNumbered at_end
numbering_example =
    lifetime-WellNumbered platform a_setup no_answer ok unmade at_end events refl (omega arith)
      gets_through
