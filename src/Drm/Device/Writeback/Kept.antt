-- ===== src/Drm/Device/Writeback/Kept.antt =====
-- What a writeback connector, attached or not, leaves alone: the CRTCs and the display numbers.
use platform_external_drm_hw.Base.{ℕ, Option, none, some, ◌≡◌, refl, Bool-cases, inl, inr}
use platform_external_drm_hw.Drm.Crtc.{DrmCrtc, DrmEncoder}
use platform_external_drm_hw.Drm.Connector.{DrmConnector, ConnectorRes}
use platform_external_drm_hw.Drm.Device.{DrmDevice, get_writeback_connector_for_display}
use platform_external_drm_hw.Drm.Device.Writeback.{
  is_some, attach_for, attach_writeback, attach, attach_found, find_writeback,
}

attach_found-crtcs :
    (modes : ℕ → Option ConnectorRes) (crtc : DrmCrtc) (o : Option (DrmConnector × DrmEncoder))
    (dev : DrmDevice)
    → let r = (attach_found modes crtc o dev).1 in
      (r.crtcs ≡ dev.crtcs) × (r.displays ≡ dev.displays)
unfolding attach_found attach
attach_found-crtcs modes crtc none dev = (refl, refl)
attach_found-crtcs modes crtc (some (w, e)) dev = (refl, refl)

pub attach_for-crtcs :
    (modes : ℕ → Option ConnectorRes) (o : Option DrmCrtc) (dev : DrmDevice)
    → let r = attach_for modes o dev in (r.crtcs ≡ dev.crtcs) × (r.displays ≡ dev.displays)
unfolding attach_for attach_writeback
attach_for-crtcs modes none dev = (refl, refl)
attach_for-crtcs modes (some crtc) dev =
    elim (Bool-cases (is_some (get_writeback_connector_for_display dev crtc.display))) [
      | inl has ↦ rw (has, attach_for) (refl, refl)
      | inr hasnt ↦
          rw (hasnt, attach_for)
            (attach_found-crtcs modes crtc (find_writeback dev crtc dev.writeback_connectors) dev)
    ]
