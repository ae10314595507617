-- ===== src/Hwc/Device/Creation.antt =====
-- How `DrmHwcTwo::Init` of drmhwctwo.cpp makes the displays.
pub mod Each
pub mod Kept
use platform_external_drm_hw.Base.{
  ℕ, zero, suc, ◌+◌, ℤ, nonzero, Option, none, some, List, keep, ◌==◌, ◌&&◌, ◌||◌, not,
  if◌then◌else◌,
}
use platform_external_drm_hw.Drm.Crtc.{DrmCrtc}
use platform_external_drm_hw.Drm.Plane.{DrmPlane, type_primary, type_overlay, get_crtc_supported}
use platform_external_drm_hw.Drm.Connector.{DrmConnector, ConnectorRes}
use platform_external_drm_hw.Drm.Device.{DrmDevice, get_crtc_for_display}
use platform_external_drm_hw.Layer.{Importer}
use platform_external_drm_hw.Resources.{ResourceManager, get_drm_device, get_importer}
use platform_external_drm_hw.Hwc.Layer.{Error, no_error, bad_display, no_resources}
use platform_external_drm_hw.Hwc.Display.{HwcDisplay, Platform}
use platform_external_drm_hw.Hwc.Config.{get_num_configs, set_active_config, connector_of}
use platform_external_drm_hw.Hwc.Present.{is_no_error}
use platform_external_drm_hw.Hwc.Device.{
  DrmHwcTwo, Setup, new_display, emplace_slot, put_device, run_display, init_compositor,
}

abbrev pub preferred_of : Option DrmConnector → ℕ
preferred_of none = 0
preferred_of (some conn) = conn.preferred_mode_id

abbrev pub state_or : {A B : Type 0} → B → Option (A × B) → B
state_or b none = b
state_or b (some r) = r.1

module _ {W : Type 0} where
  -- `ChosePreferredConfig`, on what the kernel answers about the connector.
  unfoldable pub chose_preferred_config :
      Platform W → Option ConnectorRes → HwcDisplay W → Error × HwcDisplay W
  unfolding get_num_configs set_active_config connector_of
  chose_preferred_config pf answer d =
      let (err, num_configs, d') = get_num_configs answer d in
      let chosen = set_active_config pf (preferred_of (connector_of d')) d' in
      if not (is_no_error err) || num_configs == 0 then (err, d') else chosen

  -- The end of `HwcDisplay::Init`.
  init_found :
      Platform W
      → Setup
      → Option ConnectorRes
      → Option DrmCrtc
      → HwcDisplay W
      → Error × HwcDisplay W
  unfolding chose_preferred_config connector_of
  init_found pf setup answer none d = (bad_display, d)
  init_found pf setup answer (some crtc) d =
      let chosen = chose_preferred_config pf answer (record d { crtc = crtc }) in
      elim (connector_of d) [
        | none ↦ (bad_display, record d { crtc = crtc })
        | some conn ↦
            if nonzero setup.vsync_ret then (bad_display, record d { crtc = crtc }) else chosen
      ]

  -- `HwcDisplay::Init`, on the planes that the display's CRTC supports.
  unfoldable pub init_display :
      Platform W
      → Setup
      → ResourceManager Importer
      → Option ConnectorRes
      → List DrmPlane
      → HwcDisplay W
      → Error × HwcDisplay W
  unfolding init_compositor get_crtc_for_display init_found chose_preferred_config
  init_display pf setup manager answer planes d = elim setup.planner [
    | none ↦ (no_resources, d)
    | some stages ↦
        let display = d.system.compositor.display in
        let split = record d {
          planner = stages;
          primary_planes = keep (λ p. p.type == type_primary) planes;
          overlay_planes = keep (λ p. setup.use_overlay_planes && p.type == type_overlay) planes;
        } in
        let found =
          init_found pf setup answer (get_crtc_for_display d.system.device (some display)) split in
        if nonzero (init_compositor manager setup.lock_ret display)
        then (no_resources, record d { planner = stages })
        else found
  ]

  -- `CreateDisplay`. The result of the display's own `Init` is dropped.
  create_found :
      Platform W
      → Setup
      → Option ConnectorRes
      → ℕ
      → Option DrmDevice
      → Option Importer
      → DrmHwcTwo W
      → Error × DrmHwcTwo W
  unfolding emplace_slot new_display put_device init_display run_display get_crtc_for_display
  create_found pf setup answer h none importer s = (no_resources, s)
  create_found pf setup answer h (some dev) none s = (no_resources, s)
  create_found pf setup answer h (some dev) (some importer) s =
      let s' = record s {
        displays =
            emplace_slot
              (record { handle = h; display = new_display h dev s.world; vsync_callback = none })
              s.displays;
      } in
      elim (get_crtc_for_display dev (some h)) [
        | none ↦ (bad_display, s')
        | some crtc ↦ (
          no_error,
          state_or s' (
              run_display h
                (init_display pf setup s.manager answer
                  (keep (λ p. get_crtc_supported p crtc) dev.planes))
                s'),
        )
      ]

  unfoldable pub create_display :
      Platform W → Setup → Option ConnectorRes → ℕ → DrmHwcTwo W → Error × DrmHwcTwo W
  unfolding create_found
  create_display pf setup answer h s =
      create_found pf setup answer h (get_drm_device s.manager h) (get_importer s.manager h) s

  -- The loop of `DrmHwcTwo::Init` over the displays from `i`, `n` in number.
  create_displays :
      Platform W → Setup → (ℕ → Option ConnectorRes) → ℕ → ℕ → DrmHwcTwo W → Error × DrmHwcTwo W
  unfolding create_display
  create_displays pf setup answers i zero s = (no_error, s)
  create_displays pf setup answers i (suc n) s =
      let (err, s') = create_display pf setup (answers i) i s in
      let rest = create_displays pf setup answers (i + 1) n s' in
      if is_no_error err then rest else (err, s')

  -- `DrmHwcTwo::Init`, on the code of the manager's `Init`.
  unfoldable pub init_hwc :
      Platform W → Setup → (ℕ → Option ConnectorRes) → ℤ → DrmHwcTwo W → Error × DrmHwcTwo W
  unfolding create_displays
  init_hwc pf setup answers rv s =
      let created = create_displays pf setup answers 0 s.manager.num_displays s in
      if nonzero rv then (no_resources, s) else created
