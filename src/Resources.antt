-- ===== src/Resources.antt =====
-- resourcemanager.cpp: the DRM devices of the system, their importers, and which device has a display.
-- An importer is a parameter `I`: `Importer::CreateInstance` is chosen when the program is built.
pub mod Numbering
pub mod Startup
use platform_external_drm_hw.Base.{
  ℕ, zero, suc, ◌+◌, ℤ, nonzero, Bool, true, false, Option, none, some, List, [], ◌∷◌, ◌++◌, ◌==◌,
  ◌&&◌, not, if◌then◌else◌, ok, enodev, einval, Result, done, failed, length, find_if,
}
use platform_external_drm_hw.Drm.Connector.{DrmConnector}
use platform_external_drm_hw.Drm.Device.{DrmDevice, handles_display}
use platform_external_drm_hw.Drm.Device.Writeback.{available_writeback_connector, or_else}
use platform_external_drm_hw.Drm.Device.Init.{Card, Opened, init}

pub record ResourceManager (I : Type 0) : Type 0 where
  pub num_displays : ℕ
  pub drms : List DrmDevice
  pub importers : List I
  pub gralloc : Bool

abbrev pub new_manager : {I : Type 0} → ResourceManager I
new_manager = record { num_displays = 0; drms = []; importers = []; gralloc = false }

-- What "hwc.drm.device" names: one device, or, with a final %, those of which 0, 1 and so on end the path.
pub data Devices : Type 0 where
  single : Card → Devices
  wildcard : (ℕ → Card) → Devices

module _ {I : Type 0} (create_importer : DrmDevice → Option I) where
  -- An opened device enters with its importer.
  pub add_opened : Option I → DrmDevice → ResourceManager I → ℤ × ResourceManager I
  add_opened none dev m = (enodev, m)
  add_opened (some i) dev m = (
    ok,
    record m {
      importers = m.importers ++ i ∷ [];
      drms = m.drms ++ dev ∷ [];
      num_displays = m.num_displays + length dev.displays;
    },
  )

  pub add_result : Result Opened → ResourceManager I → ℤ × ResourceManager I
  unfolding add_opened
  add_result (failed ret) m = (ret, m)
  add_result (done o) m = add_opened (create_importer o.device) o.device m

  unfoldable pub add_drm_device : Card → ResourceManager I → ℤ × ResourceManager I
  unfolding add_result init
  add_drm_device card m = add_result (init card m.num_displays) m

  -- The loop over the numbered devices, `none` when `fuel` runs out before one fails to open.
  unfoldable pub add_all : (ℕ → Card) → ℕ → ℕ → ResourceManager I → Option (ℤ × ResourceManager I)
  unfolding add_drm_device
  add_all cards zero idx m = none
  add_all cards (suc fuel) idx m =
      let (ret, m') = add_drm_device (cards idx) m in
      let rest = add_all cards fuel (idx + 1) m' in if nonzero ret then some (ret, m') else rest

  pub add_devices : Devices → ℕ → ResourceManager I → Option (ℤ × ResourceManager I)
  unfolding add_drm_device add_all
  add_devices (single card) fuel m = some (add_drm_device card m)
  add_devices (wildcard cards) fuel m = add_all cards fuel 0 m

  -- The end of `Init`, on the code of the devices and the code of `hw_get_module`.
  pub finish : ℤ → ℤ × ResourceManager I → ℤ × ResourceManager I
  finish module_ret (ret, m) =
      if m.num_displays == 0
      then ((if nonzero ret then einval else ret), m)
      else (module_ret, record m { gralloc = not (nonzero module_ret) })

  unfoldable pub init_manager : Devices → ℤ → ℕ → ResourceManager I → Option (ℤ × ResourceManager I)
  unfolding add_devices finish
  init_manager devices module_ret fuel m = elim (add_devices devices fuel m) [
    | none ↦ none
    | some r ↦ some (finish module_ret r)
  ]

module _ {I : Type 0} where
  unfoldable pub get_drm_device : ResourceManager I → ℕ → Option DrmDevice
  unfolding handles_display
  get_drm_device m display = find_if (λ d. handles_display d display) m.drms

  -- The importer at the position of the first device that has the display.
  importer_at : List DrmDevice → List I → ℕ → Option I
  unfolding handles_display
  importer_at [] is display = none
  importer_at (d ∷ ds) [] display = none
  importer_at (d ∷ ds) (i ∷ is) display =
      let rest = importer_at ds is display in if handles_display d display then some i else rest

  unfoldable pub get_importer : ResourceManager I → ℕ → Option I
  unfolding importer_at
  get_importer m display = importer_at m.drms m.importers display

-- The loop over the devices of `AvailableWritebackConnector`, which skips the display's own device: the
-- first one that handles the display.
writeback_elsewhere : ℕ → Bool → List DrmDevice → Option DrmConnector
unfolding available_writeback_connector handles_display
writeback_elsewhere display passed [] = none
writeback_elsewhere display passed (d ∷ ds) =
    let own = handles_display d display && not passed in
    let rest = writeback_elsewhere display (if own then true else passed) ds in
    if own then rest else or_else (available_writeback_connector d (some display)) rest

writeback_on : Option DrmDevice → ℕ → Option DrmConnector
unfolding available_writeback_connector
writeback_on none display = none
writeback_on (some d) display = available_writeback_connector d (some display)

unfoldable pub manager_writeback_connector :
    {I : Type 0} → ResourceManager I → ℕ → Option DrmConnector
unfolding writeback_on writeback_elsewhere get_drm_device
manager_writeback_connector m display =
    or_else (writeback_on (get_drm_device m display) display)
      (writeback_elsewhere display false m.drms)
