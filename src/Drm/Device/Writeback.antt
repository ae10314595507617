-- ===== src/Drm/Device/Writeback.antt =====
-- The writeback connectors of drmdevice.cpp: `AttachWriteback`, which gives one to a display, and
-- `AvailableWritebackConnector`, which finds one for the flattening of a display.
pub mod Kept
use platform_external_drm_hw.Base.{
  ℕ, ℤ, Bool, true, false, Option, none, some, List, [], ◌∷◌, map, ◌==◌, ◌||◌, ◌&&◌, if◌then◌else◌,
  ok, einval, find_if,
}
use platform_external_drm_hw.Drm.Crtc.{DrmCrtc, DrmEncoder, same_id, can_bind}
use platform_external_drm_hw.Drm.Connector.{
  DrmConnector, Connection, connected, disconnected, unknown_connection, ConnectorRes, update_modes,
}
use platform_external_drm_hw.Drm.Objects.{can_clone}
use platform_external_drm_hw.Drm.Device.{
  DrmDevice, contains, encoders_at, get_connector_for_display, get_writeback_connector_for_display,
  crtc_at, encoder_at, set_encoder_crtc, is_unnumbered,
}

abbrev pub is_some {ℓ} : {A : Type ℓ} → Option A → Bool
is_some none = false
is_some (some a) = true

abbrev pub or_else {ℓ} : {A : Type ℓ} → Option A → Option A → Option A
or_else none b = b
or_else (some a) b = some a

-- Following a pointer that may be NULL.
abbrev pub follow {ℓ κ} : {A : Type ℓ} {B : Type κ} → Option A → (A → Option B) → Option B
follow none f = none
follow (some a) f = f a

abbrev with_encoder :
    DrmConnector
    → Option DrmEncoder
    → Option (DrmConnector × DrmEncoder)
    → Option (DrmConnector × DrmEncoder)
with_encoder w none rest = rest
with_encoder w (some e) rest = some (w, e)

abbrev pub is_connected : Connection → Bool
is_connected connected = true
is_connected disconnected = false
is_connected unknown_connection = false

abbrev shows_connected : Option DrmConnector → Bool
shows_connected none = false
shows_connected (some c) = is_connected c.state

-- A null encoder, which the source would follow, clones nothing here.
encoders_clone : Option DrmEncoder → Option DrmEncoder → Bool
unfolding can_clone
encoders_clone none e = false
encoders_clone (some w) none = false
encoders_clone (some w) (some e) = can_clone w e

-- The encoders that can feed a writeback connector from the CRTC of a display.
can_feed : DrmCrtc → DrmEncoder → Bool
unfolding contains can_bind
can_feed crtc e = contains crtc.id e.possible_crtcs && can_bind e.display crtc.display

-- The loops of `AttachWriteback`: the first free connector and encoder that fit.
find_writeback : DrmDevice → DrmCrtc → List DrmConnector → Option (DrmConnector × DrmEncoder)
unfolding can_feed encoders_at
find_writeback dev crtc [] = none
find_writeback dev crtc (w ∷ ws) =
    let rest = find_writeback dev crtc ws in
    if is_unnumbered w.display
    then with_encoder w (find_if (can_feed crtc) (encoders_at dev w.possible_encoders)) rest
    else rest

unfoldable pub replace : DrmConnector → List DrmConnector → List DrmConnector
replace conn = map λ c. if c.id == conn.id then conn else c

-- `set_crtc`, `set_encoder`, `set_display` and `UpdateModes`, the code of which is not looked at.
attach : (ℕ → Option ConnectorRes) → DrmCrtc → DrmConnector → DrmEncoder → DrmDevice → DrmDevice
unfolding set_encoder_crtc update_modes replace
attach modes crtc w e dev =
    let u =
      update_modes (modes w.id) dev.mode_id
        (record w { encoder = some e.id; display = crtc.display }) in
    record dev {
      encoders = set_encoder_crtc e.id crtc.id crtc.display dev.encoders;
      writeback_connectors = replace u.connector dev.writeback_connectors;
      mode_id = u.mode_id;
    }

attach_found :
    (ℕ → Option ConnectorRes)
    → DrmCrtc
    → Option (DrmConnector × DrmEncoder)
    → DrmDevice
    → ℤ × DrmDevice
unfolding attach
attach_found modes crtc none dev = (einval, dev)
attach_found modes crtc (some (w, e)) dev = (ok, attach modes crtc w e dev)

-- `AttachWriteback`, on the CRTC of the display.
unfoldable pub attach_writeback : (ℕ → Option ConnectorRes) → DrmCrtc → DrmDevice → ℤ × DrmDevice
unfolding attach_found find_writeback
attach_writeback modes crtc dev =
    if is_some (get_writeback_connector_for_display dev crtc.display)
    then (einval, dev)
    else attach_found modes crtc (find_writeback dev crtc dev.writeback_connectors) dev

-- `display_conn->encoder()->crtc()`; a connector that has a pipe has both.
unfoldable pub crtc_of : DrmDevice → ℕ → Option DrmCrtc
unfolding crtc_at encoder_at
crtc_of dev id =
    follow (find_if (λ c. c.id == id) dev.connectors)
      λ conn. follow (follow conn.encoder (encoder_at dev)) λ enc. follow enc.crtc (crtc_at dev)

unfoldable pub attach_for : (ℕ → Option ConnectorRes) → Option DrmCrtc → DrmDevice → DrmDevice
unfolding attach_writeback
attach_for modes none dev = dev
attach_for modes (some crtc) dev = (attach_writeback modes crtc dev).1

-- The loop over the CRTCs of `AvailableWritebackConnector`.
other_writeback : DrmDevice → Option ℕ → List DrmCrtc → Option DrmConnector
unfolding get_connector_for_display get_writeback_connector_for_display
other_writeback dev display [] = none
other_writeback dev display (c ∷ cs) =
    let rest = other_writeback dev display cs in
    if same_id c.display display || shows_connected (get_connector_for_display dev c.display)
    then rest
    else or_else (get_writeback_connector_for_display dev c.display) rest

-- The test on the writeback connector of the display itself.
clones : DrmDevice → Option DrmConnector → Option DrmConnector → Bool
unfolding encoders_clone encoder_at
clones dev none w = false
clones dev (some c) none = false
clones dev (some c) (some w) =
    encoders_clone (follow w.encoder (encoder_at dev)) (follow c.encoder (encoder_at dev))

unfoldable pub available_writeback_connector : DrmDevice → Option ℕ → Option DrmConnector
unfolding other_writeback clones
available_writeback_connector dev display =
    let own = get_writeback_connector_for_display dev display in
    if clones dev (get_connector_for_display dev display) own
    then own
    else other_writeback dev display dev.crtcs
