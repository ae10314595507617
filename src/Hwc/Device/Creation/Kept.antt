-- ===== src/Hwc/Device/Creation/Kept.antt =====
-- That `HwcDisplay::Init` makes and loses no layer.
use platform_external_drm_hw.Base.{
  Option, none, some, List, keep, ◌==◌, ◌&&◌, Option-cases, inl, inr, refl, ◌∙◌, arith,
}
use platform_external_drm_hw.Drm.Crtc.{DrmCrtc}
use platform_external_drm_hw.Drm.Plane.{DrmPlane, type_primary, type_overlay}
use platform_external_drm_hw.Drm.Connector.{ConnectorRes}
use platform_external_drm_hw.Drm.Device.{get_crtc_for_display}
use platform_external_drm_hw.Layer.{Importer}
use platform_external_drm_hw.Resources.{ResourceManager}
use platform_external_drm_hw.Hwc.Display.{HwcDisplay, Platform}
use platform_external_drm_hw.Hwc.Config.{get_num_configs, connector_of}
use platform_external_drm_hw.Hwc.Config.Kept.{
  SameLayers, get_num_configs-SameLayers, set_active_config-SameLayers,
}
use platform_external_drm_hw.Hwc.Device.{Setup}
use platform_external_drm_hw.Hwc.Device.Creation.{
  preferred_of, chose_preferred_config, init_found, init_display,
}

module _ {W : Type 0} where
  SameLayers-trans : {a b c : HwcDisplay W} → SameLayers a b → SameLayers b c → SameLayers a c
  SameLayers-trans p q = record { layers = q.layers ∙ p.layers; index = q.index ∙ p.index }

module _ {W : Type 0} (pf : Platform W) where
  pub chose_preferred_config-SameLayers :
      (answer : Option ConnectorRes) (d : HwcDisplay W)
      → SameLayers d (chose_preferred_config pf answer d).1
  unfolding chose_preferred_config
  chose_preferred_config-SameLayers answer d =
      let d' = (get_num_configs answer d).2 in
      let counted = get_num_configs-SameLayers answer d in
      let chosen =
        SameLayers-trans counted
          (set_active_config-SameLayers pf (preferred_of (connector_of d')) d') in
      ground (arith, counted, chosen)

  module _ (setup : Setup) (answer : Option ConnectorRes) where
    init_found-SameLayers :
        (crtc : Option DrmCrtc) (d : HwcDisplay W)
        → SameLayers d (init_found pf setup answer crtc d).1
    unfolding init_found
    init_found-SameLayers none d = record { layers = refl; index = refl }
    init_found-SameLayers (some crtc) d =
        let chosen = chose_preferred_config-SameLayers answer (record d { crtc = crtc }) in
        ground (arith, chosen)

    pub init_display-SameLayers :
        (manager : ResourceManager Importer) (planes : List DrmPlane) (d : HwcDisplay W)
        → SameLayers d (init_display pf setup manager answer planes d).1
    unfolding init_display
    init_display-SameLayers manager planes d =
        let display = d.system.compositor.display in
        let crtc = get_crtc_for_display d.system.device (some display) in
        elim (Option-cases setup.planner) [
          | inl without ↦ rw (without, init_display) (record { layers = refl; index = refl })
          | inr (stages, with) ↦
              let split = record d {
                planner = stages;
                primary_planes = keep (λ p. p.type == type_primary) planes;
                overlay_planes =
                    keep (λ p. setup.use_overlay_planes && p.type == type_overlay) planes;
              } in
              let found = init_found-SameLayers crtc split in
              rw (with, init_display) (ground (arith, found))
        ]
