-- ===== src/Hwc/Config/Kept.antt =====
-- That the calls about modes and power leave the layers of a display alone.
use platform_external_drm_hw.Base.{ℕ, Option, none, some, ◌≡◌, refl, arith, find_if, ◌==◌}
use platform_external_drm_hw.Drm.Mode.{DrmMode}
use platform_external_drm_hw.Drm.Connector.{DrmConnector, ConnectorRes}
use platform_external_drm_hw.Hwc.Display.{HwcDisplay, Platform}
use platform_external_drm_hw.Hwc.Config.{
  count_configs, get_num_configs, connector_of, put_connector, activate, activate_found, set_config,
  set_active_config, apply_power, set_power_mode,
}

-- The layers and their counter are as before.
pub record SameLayers {W : Type 0} (d d' : HwcDisplay W) : Type 0 where
  pub layers : d'.layers ≡ d.layers
  pub index : d'.layer_idx ≡ d.layer_idx

module _ {W : Type 0} where
  count_configs-SameLayers :
      (conn : Option DrmConnector) (answer : Option ConnectorRes) (d : HwcDisplay W)
      → SameLayers d (count_configs conn answer d).2
  unfolding count_configs put_connector
  count_configs-SameLayers none answer d = record { layers = refl; index = refl }
  count_configs-SameLayers (some conn) answer d = ground arith

  pub get_num_configs-SameLayers :
      (answer : Option ConnectorRes) (d : HwcDisplay W) → SameLayers d (get_num_configs answer d).2
  unfolding get_num_configs
  get_num_configs-SameLayers answer d = count_configs-SameLayers (connector_of d) answer d

module _ {W : Type 0} (pf : Platform W) where
  activate-SameLayers :
      (conn : DrmConnector) (mode : DrmMode) (d : HwcDisplay W)
      → SameLayers d (activate pf conn mode d).1
  unfolding activate
  activate-SameLayers conn mode d = ground arith

  activate_found-SameLayers :
      (conn : DrmConnector) (mode : Option DrmMode) (d : HwcDisplay W)
      → SameLayers d (activate_found pf conn mode d).1
  unfolding activate_found
  activate_found-SameLayers conn none d = record { layers = refl; index = refl }
  activate_found-SameLayers conn (some mode) d = activate-SameLayers conn mode d

  set_config-SameLayers :
      (conn : Option DrmConnector) (config : ℕ) (d : HwcDisplay W)
      → SameLayers d (set_config pf conn config d).1
  unfolding set_config
  set_config-SameLayers none config d = record { layers = refl; index = refl }
  set_config-SameLayers (some conn) config d =
      activate_found-SameLayers conn (find_if (λ m. m.id == config) conn.modes) d

  pub set_active_config-SameLayers :
      (config : ℕ) (d : HwcDisplay W) → SameLayers d (set_active_config pf config d).1
  unfolding set_active_config
  set_active_config-SameLayers config d = set_config-SameLayers (connector_of d) config d

  pub set_power_mode-SameLayers :
      (mode : ℕ) (d : HwcDisplay W) → SameLayers d (set_power_mode pf mode d).1
  unfolding set_power_mode apply_power
  set_power_mode-SameLayers mode d = ground arith
