-- ===== src/Examples/Devices.antt =====
-- Modes, connectors and the numbering of displays.
use platform_external_drm_hw.Base.{has_bit, ◌≤◌, ◌≡◌, refl, some, [], ◌∷◌, count_if, true, ◌⊎◌}
use platform_external_drm_hw.Drm.Mode.{
  of_mode_info, to_mode_info, of_mode_info-to_mode_info, same_mode,
}
use platform_external_drm_hw.Drm.Connector.{ConnectorRes, connected, update_modes}
use platform_external_drm_hw.Drm.Connector.Modes.{AreModes, update_modes-AreModes, has_id}
use platform_external_drm_hw.Drm.Device.{number_displays}
use platform_external_drm_hw.Drm.Device.Displays.{number_displays_lem, shows, is_key, in_window}
use platform_external_drm_hw.Examples.Fixtures.{a_mode_info, a_connector, new_connector}

mode_example :
    (to_mode_info (of_mode_info a_mode_info) ≡ a_mode_info)
    × (same_mode (of_mode_info a_mode_info) a_mode_info ≡ true)
mode_example = of_mode_info-to_mode_info a_mode_info

abbrev answer : ConnectorRes
answer = record { connection = connected; modes = a_mode_info ∷ [] }

modes_example :
    AreModes (update_modes (some answer) 7 a_connector).connector.modes (a_mode_info ∷ [])
    × (((update_modes (some answer) 7 a_connector).connector.modes ≡ [])
        ⊎ (1
            ≤ count_if
                (has_id (update_modes (some answer) 7 a_connector).connector.preferred_mode_id)
                (update_modes (some answer) 7 a_connector).connector.modes))
modes_example = update_modes-AreModes answer 7 a_connector

-- The mode is new: it gets the next id, and is the preferred one.
modes_test : (update_modes (some answer) 7 a_connector).connector.preferred_mode_id ≡ 8
unfolding update_modes same_mode has_bit
modes_test = refl

numbers_example :
    (0 ≤ (number_displays 0 (new_connector ∷ [])).num_displays)
    × (count_if (shows 0) (number_displays 0 (new_connector ∷ [])).connectors
        ≡ in_window 0 (number_displays 0 (new_connector ∷ [])).num_displays 0)
    × (count_if (is_key 0) (number_displays 0 (new_connector ∷ [])).displays
        ≡ in_window 0 (number_displays 0 (new_connector ∷ [])).num_displays 0)
numbers_example = number_displays_lem 0 (new_connector ∷ []) (refl, tt) 0
