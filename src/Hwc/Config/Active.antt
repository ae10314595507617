-- ===== src/Hwc/Config/Active.antt =====
-- Setting the active config and reading it back.
use platform_external_drm_hw.Base.{
  ℕ, Bool, Option, none, some, List, [], ◌∷◌, map, ◌≡◌, refl, ◌==◌, arith, find_if, Bool-cases, inl,
  inr, if◌then◌else◌, ap, ℤ, ◌≢◌, ◌∙◌, nonzero, sym,
}
use platform_external_drm_hw.Drm.Mode.{DrmMode}
use platform_external_drm_hw.Drm.Crtc.{same_id}
use platform_external_drm_hw.Drm.Connector.{DrmConnector}
use platform_external_drm_hw.Drm.Device.{DrmDevice, get_connector_for_display}
use platform_external_drm_hw.Compositor.State.{set_active_mode, System}
use platform_external_drm_hw.Hwc.Display.{Platform, HwcDisplay}
use platform_external_drm_hw.Hwc.Config.{
  connector_of, active_config, activate, get_active_config, no_error, set_active_config, set_config,
  activate_found,
}
use platform_external_drm_hw.Composition.{
  set_display_mode, init_composition, validate_composition_type,
}
use platform_external_drm_hw.Compositor.{apply_composition}
use platform_external_drm_hw.Compositor.Modeset.{apply_modeset-device}

-- A change that a search does not see.
mapped : (DrmConnector → DrmConnector) → Option DrmConnector → Option DrmConnector
mapped f none = none
mapped f (some c) = some (f c)

find_if-map :
    (p : DrmConnector → Bool) (f : DrmConnector → DrmConnector)
    → ((c : DrmConnector) → p (f c) ≡ p c)
    → (cs : List DrmConnector) → find_if p (map f cs) ≡ mapped f (find_if p cs)
unfolding mapped
find_if-map p f same [] = refl
find_if-map p f same (c ∷ cs) = elim (Bool-cases (p c)) [
  | inl here ↦ rw (same c, here) refl
  | inr there ↦ rw (same c, there) (find_if-map p f same cs)
]

put_mode : ℕ → DrmMode → DrmConnector → DrmConnector
put_mode id mode c = if c.id == id then record c { active_mode = mode } else c

put_mode-display :
    (id : ℕ) (mode : DrmMode) (c : DrmConnector) → (put_mode id mode c).display ≡ c.display
unfolding put_mode
put_mode-display id mode c = ground arith

put_mode-active_mode :
    (mode : DrmMode) (c : DrmConnector) → (put_mode c.id mode c).active_mode ≡ mode
unfolding put_mode
put_mode-active_mode mode c = ground arith

-- The connector of a display after the active mode of one has been set.
connector-set_active_mode :
    (id : ℕ) (mode : DrmMode) (dev : DrmDevice) (display : Option ℕ)
    → get_connector_for_display (set_active_mode id mode dev) display
      ≡ mapped (put_mode id mode) (get_connector_for_display dev display)
unfolding get_connector_for_display set_active_mode put_mode
connector-set_active_mode id mode dev display =
    find_if-map (λ c. same_id c.display display) (put_mode id mode)
      (λ c. ap (λ o. same_id o display) (put_mode-display id mode c)) dev.connectors

found-id :
    (config : ℕ) (modes : List DrmMode) (mode : DrmMode)
    → find_if (λ m. m.id == config) modes ≡ some mode
    → mode.id ≡ config
found-id config [] mode found = grind (arith, found)
found-id config (m ∷ ms) mode found = grind (arith, found, found-id config ms mode)

active_config-set :
    (mode : DrmMode) (conn : DrmConnector)
    → mode.id ≢ 0
    → active_config (some (put_mode conn.id mode conn)) ≡ (no_error, mode.id)
unfolding active_config
active_config-set mode conn there =
    grind (arith, there, ap (λ m. m.id) (put_mode-active_mode mode conn))

module _ {W : Type 0} (pf : Platform W) (d : HwcDisplay W) where
  -- The compositor's part of `SetActiveConfig`.
  abbrev applied : DrmMode → ℤ × System W
  applied mode =
      apply_composition pf.kms pf.floats pf.fences
        (set_display_mode (init_composition d.crtc d.planner d.frame_no) mode).1 d.system

  applied-connector :
      (mode : DrmMode)
      → get_connector_for_display (applied mode).1.device (some (applied mode).1.compositor.display)
        ≡ connector_of d
  unfolding connector_of set_display_mode init_composition validate_composition_type
  applied-connector mode =
      let comp = (set_display_mode (init_composition d.crtc d.planner d.frame_no) mode).1 in
      let kept = apply_modeset-device pf.kms pf.floats pf.fences comp d.system refl in
      rw (kept.0, kept.1) refl

  activate-active_config :
      (conn : DrmConnector) (mode : DrmMode)
      → connector_of d ≡ some conn
      → mode.id ≢ 0
      → (activate pf conn mode d).0 ≡ no_error
      → get_active_config (activate pf conn mode d).1 ≡ (no_error, mode.id)
  unfolding activate get_active_config mapped connector_of
  activate-active_config conn mode its there accepted =
      let sys = (applied mode).1 in
      let read_back =
        ap active_config (
          connector-set_active_mode conn.id mode sys.device (some sys.compositor.display)
          ∙ ap (mapped (put_mode conn.id mode)) (applied-connector mode ∙ its))
        ∙ active_config-set mode conn there in
      elim (Bool-cases (nonzero (applied mode).0)) [
        | inl refused ↦ grind (arith, accepted, refused)
        | inr done ↦ rw done read_back
      ]

  activate_found-active_config :
      (conn : DrmConnector) (config : ℕ) (mode : Option DrmMode)
      → connector_of d ≡ some conn
      → config ≢ 0
      → find_if (λ m. m.id == config) conn.modes ≡ mode
      → (activate_found pf conn mode d).0 ≡ no_error
      → get_active_config (activate_found pf conn mode d).1 ≡ (no_error, config)
  unfolding activate_found
  activate_found-active_config conn config none its there found accepted = grind (arith, accepted)
  activate_found-active_config conn config (some mode) its there found accepted =
      let same = found-id config conn.modes mode found in
      activate-active_config conn mode its (λ zero_id. there (sym same ∙ zero_id)) accepted
      ∙ ap (λ id. (no_error, id)) same

  set_config-active_config :
      (conn : Option DrmConnector) (config : ℕ)
      → connector_of d ≡ conn
      → config ≢ 0
      → (set_config pf conn config d).0 ≡ no_error
      → get_active_config (set_config pf conn config d).1 ≡ (no_error, config)
  unfolding set_config
  set_config-active_config none config its there accepted = grind (arith, accepted)
  set_config-active_config (some conn) config its there accepted =
      activate_found-active_config conn config (find_if (λ m. m.id == config) conn.modes) its there
        refl accepted

  -- After an accepted `SetActiveConfig` the active config is the one that was set. The config 0, which
  -- stands for no mode, is left out.
  pub set_active_config-get_active_config :
      (config : ℕ)
      → config ≢ 0
      → (set_active_config pf config d).0 ≡ no_error
      → get_active_config (set_active_config pf config d).1 ≡ (no_error, config)
  unfolding set_active_config
  set_active_config-get_active_config config there accepted =
      set_config-active_config (connector_of d) config refl there accepted
