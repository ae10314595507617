-- ===== src/Drm/Device/Init/Kept.antt =====
-- What the pipes leave alone: the display numbers.
use platform_external_drm_hw.Base.{ℕ, Option, none, some, List, [], ◌∷◌, ◌≡◌, refl, arith}
use platform_external_drm_hw.Drm.Crtc.{DrmEncoder}
use platform_external_drm_hw.Drm.Connector.{DrmConnector}
use platform_external_drm_hw.Drm.Device.{
  DrmDevice, bind, try_crtcs, try_encoder_for_display, create_display_pipe, try_encoders,
  try_current, bind_current, encoders_at, current_encoder,
}

try_crtcs-displays :
    (display : Option ℕ) (enc : DrmEncoder) (cs : List ℕ) (dev : DrmDevice)
    → (try_crtcs display enc cs dev).1.displays ≡ dev.displays
unfolding try_crtcs bind
try_crtcs-displays display enc [] dev = refl
try_crtcs-displays display enc (c ∷ cs) dev = ground (arith, try_crtcs-displays display enc cs dev)

bind_current-displays :
    (display : Option ℕ) (enc : DrmEncoder) (o : Option ℕ) (dev : DrmDevice)
    → (bind_current display enc o dev).displays ≡ dev.displays
unfolding bind_current bind
bind_current-displays display enc none dev = refl
bind_current-displays display enc (some c) dev = refl

try_encoder-displays :
    (display : Option ℕ) (enc : DrmEncoder) (dev : DrmDevice)
    → (try_encoder_for_display display enc dev).1.displays ≡ dev.displays
unfolding try_encoder_for_display
try_encoder-displays display enc dev = ground (
  arith,
  bind_current-displays display enc enc.crtc dev,
  try_crtcs-displays display enc enc.possible_crtcs dev,
)

try_encoders-displays :
    (conn : DrmConnector) (encs : List DrmEncoder) (dev : DrmDevice)
    → (try_encoders conn encs dev).1.displays ≡ dev.displays
unfolding try_encoders
try_encoders-displays conn [] dev = refl
try_encoders-displays conn (e ∷ es) dev = ground (
  arith,
  try_encoder-displays conn.display e dev,
  try_encoders-displays conn es (try_encoder_for_display conn.display e dev).1,
)

try_current-displays :
    (conn : DrmConnector) (o : Option DrmEncoder) (dev : DrmDevice)
    → (try_current conn o dev).1.displays ≡ dev.displays
unfolding try_current
try_current-displays conn none dev = refl
try_current-displays conn (some e) dev = try_encoder-displays conn.display e dev

pub create_display_pipe-displays :
    (conn : DrmConnector) (dev : DrmDevice)
    → (create_display_pipe conn dev).1.displays ≡ dev.displays
unfolding create_display_pipe
create_display_pipe-displays conn dev =
    let dev' = (try_current conn (current_encoder dev conn) dev).1 in
    ground (
      arith,
      try_current-displays conn (current_encoder dev conn) dev,
      try_encoders-displays conn (encoders_at dev' conn.possible_encoders) dev',
    )
