-- ===== src/Examples/Hotplug.antt =====
-- The callbacks of a device with one display, and an unplugged connector.
use platform_external_drm_hw.Base.{
  ℕ, true, Option, none, some, List, [], ◌∷◌, ◌==◌, if◌then◌else◌, ◌≡◌, refl,
}
use platform_external_drm_hw.Drm.Connector.{ConnectorRes}
use platform_external_drm_hw.Drm.Device.{handles_display}
use platform_external_drm_hw.Drm.Device.Writeback.{is_some}
use platform_external_drm_hw.Resources.{get_drm_device}
use platform_external_drm_hw.Hwc.Device.{DrmHwcTwo, HwcCallback, Note, find_callback, find_slot}
use platform_external_drm_hw.Hwc.Device.Hotplug.{handle_connector, register_callback}
use platform_external_drm_hw.Hwc.Device.Hotplug.Callbacks.{register_callback-callbacks, entered}
use platform_external_drm_hw.Hwc.Device.Hotplug.Changes.{handle_connector-report, report, answered}
use platform_external_drm_hw.Examples.Fixtures.{a_device, a_connector, display, importer, platform}

abbrev old_callback : HwcCallback
old_callback = record { context = 1; func = 2 }

abbrev new_callback : HwcCallback
new_callback = record { context = 3; func = 4 }

abbrev pub composer : DrmHwcTwo ℕ
composer = record {
  manager = record {
    num_displays = 1;
    drms = a_device ∷ [];
    importers = importer ∷ [];
    gralloc = true;
  };
  world = 0;
  displays = record { handle = 0; display = display; vsync_callback = none } ∷ [];
  callbacks = (1, old_callback) ∷ [];
}

callback_example :
    find_callback 1 (register_callback 1 (some new_callback) composer).1.callbacks ≡ (
      if 1 == 1
      then entered (some new_callback) (find_callback 1 composer.callbacks)
      else find_callback 1 composer.callbacks)
callback_example = register_callback-callbacks 1 (some new_callback) composer 1

-- The old callback is still the one that is called.
callback_test :
    find_callback 1 (register_callback 1 (some new_callback) composer).1.callbacks
    ≡ some old_callback
callback_test = register_callback-callbacks 1 (some new_callback) composer 1

abbrev pub no_answer : ℕ → Option ConnectorRes
no_answer id = none

shown_slot : is_some (find_slot 0 composer.displays) ≡ true
unfolding find_slot
shown_slot = refl

owned_device : is_some (get_drm_device composer.manager 0) ≡ true
unfolding get_drm_device handles_display
owned_device = refl

unplug_example :
    (t : DrmHwcTwo ℕ) × (notes : List Note) × (handle_connector platform 0 no_answer no_answer
        a_connector a_device composer
      ≡ some (t, notes))
    × (notes ≡ report old_callback (answered none) a_connector)
    × (t.callbacks ≡ composer.callbacks)
unplug_example =
    handle_connector-report platform 0 no_answer no_answer a_connector a_device composer
      old_callback 0 refl refl refl shown_slot owned_device
