-- ===== src/Drm/Device.antt =====
-- drmdevice.cpp: the objects of one device, the numbering of its displays and the binding of
-- connectors, encoders and CRTCs. Objects refer to one another by id.
pub mod Binding
pub mod Displays
pub mod Counting
pub mod Writeback
pub mod Init
use platform_external_drm_hw.Base.{
  ℕ, zero, suc, ◌+◌, ℤ, nonzero, Bool, true, false, Option, none, some, List, [], ◌∷◌, ◌++◌, map,
  ◌==◌, ◌||◌, ◌&&◌, not, if◌then◌else◌, ok, enodev, eagain, einval, find_if, pos, negsuc,
}
use platform_external_drm_hw.Drm.Crtc.{DrmCrtc, DrmEncoder, same_id, can_bind}
use platform_external_drm_hw.Drm.Plane.{DrmPlane}
use platform_external_drm_hw.Drm.Connector.{DrmConnector, Connection, connected, internal, external}

pub record DrmDevice : Type 0 where
  pub crtcs : List DrmCrtc
  pub encoders : List DrmEncoder
  pub connectors : List DrmConnector
  pub writeback_connectors : List DrmConnector
  pub planes : List DrmPlane
  pub displays : List ℕ
  pub mode_id : ℕ

contains : ℕ → List ℕ → Bool
contains a [] = false
contains a (x ∷ xs) = x == a || contains a xs

unfoldable pub handles_display : DrmDevice → ℕ → Bool
unfolding contains
handles_display dev display = contains display dev.displays

unfoldable pub get_connector_for_display : DrmDevice → Option ℕ → Option DrmConnector
get_connector_for_display dev display = find_if (λ c. same_id c.display display) dev.connectors

unfoldable pub get_writeback_connector_for_display : DrmDevice → Option ℕ → Option DrmConnector
get_writeback_connector_for_display dev display =
    find_if (λ c. same_id c.display display) dev.writeback_connectors

unfoldable pub get_crtc_for_display : DrmDevice → Option ℕ → Option DrmCrtc
get_crtc_for_display dev display = find_if (λ c. same_id c.display display) dev.crtcs

unfoldable pub get_plane : DrmDevice → ℕ → Option DrmPlane
get_plane dev id = find_if (λ p. p.id == id) dev.planes

-- Following a pointer.
unfoldable pub crtc_at : DrmDevice → ℕ → Option DrmCrtc
crtc_at dev id = find_if (λ c. c.id == id) dev.crtcs

pub encoder_at : DrmDevice → ℕ → Option DrmEncoder
encoder_at dev id = find_if (λ e. e.id == id) dev.encoders

-- `set_display` of a CRTC, and `DrmEncoder::set_crtc`, which copies the CRTC's display.
pub set_crtc_display : ℕ → Option ℕ → List DrmCrtc → List DrmCrtc
set_crtc_display id display = map λ c. if c.id == id then record c { display = display } else c

pub set_encoder_crtc : ℕ → ℕ → Option ℕ → List DrmEncoder → List DrmEncoder
set_encoder_crtc id crtc display =
    map λ e. if e.id == id then record e { crtc = some crtc; display = display } else e

bind : Option ℕ → ℕ → ℕ → DrmDevice → DrmDevice
unfolding set_crtc_display set_encoder_crtc
bind display crtc enc dev = record dev {
  crtcs = set_crtc_display crtc display dev.crtcs;
  encoders = set_encoder_crtc enc crtc display dev.encoders;
}

-- `crtc && crtc->can_bind(display)`
bindable : DrmDevice → Option ℕ → Option DrmCrtc → Bool
unfolding can_bind
bindable dev display none = false
bindable dev display (some c) = can_bind c.display display

-- The loop over `possible_crtcs` of `TryEncoderForDisplay`, which skips the current CRTC.
try_crtcs : Option ℕ → DrmEncoder → List ℕ → DrmDevice → ℤ × DrmDevice
unfolding bind bindable crtc_at
try_crtcs display enc [] dev = (eagain, dev)
try_crtcs display enc (c ∷ cs) dev =
    let rest = try_crtcs display enc cs dev in
    if same_id (some c) enc.crtc
    then rest
    else (if bindable dev display (crtc_at dev c) then (ok, bind display c enc.id dev) else rest)

current_bindable : DrmDevice → Option ℕ → Option ℕ → Bool
unfolding bindable crtc_at
current_bindable dev display none = false
current_bindable dev display (some c) = bindable dev display (crtc_at dev c)

bind_current : Option ℕ → DrmEncoder → Option ℕ → DrmDevice → DrmDevice
unfolding bind
bind_current display enc none dev = dev
bind_current display enc (some c) dev = bind display c enc.id dev

unfoldable pub try_encoder_for_display : Option ℕ → DrmEncoder → DrmDevice → ℤ × DrmDevice
unfolding try_crtcs current_bindable bind_current
try_encoder_for_display display enc dev =
    if current_bindable dev display enc.crtc
    then (ok, bind_current display enc enc.crtc dev)
    else try_crtcs display enc enc.possible_crtcs dev

abbrev is_eagain : ℤ → Bool
is_eagain (pos n) = false
is_eagain (negsuc n) = n == 10

set_connector_encoder : ℕ → ℕ → List DrmConnector → List DrmConnector
set_connector_encoder id enc = map λ c. if c.id == id then record c { encoder = some enc } else c

-- The loop over `possible_encoders` of `CreateDisplayPipe`. `TryEncoderForDisplay` answers 0 or
-- -EAGAIN; any other code would end the loop.
try_encoders : DrmConnector → List DrmEncoder → DrmDevice → ℤ × DrmDevice
unfolding set_connector_encoder
try_encoders conn [] dev = (enodev, dev)
try_encoders conn (e ∷ es) dev =
    let (ret, dev') = try_encoder_for_display conn.display e dev in
    let rest = try_encoders conn es dev' in
    if nonzero ret
    then (if is_eagain ret then rest else (ret, dev'))
    else (ok, record dev' { connectors = set_connector_encoder conn.id e.id dev'.connectors })

-- The encoders that a list of pointers names.
encoders_at : DrmDevice → List ℕ → List DrmEncoder
unfolding encoder_at
encoders_at dev [] = []
encoders_at dev (e ∷ es) = elim (encoder_at dev e) [
  | none ↦ encoders_at dev es
  | some enc ↦ enc ∷ encoders_at dev es
]

-- The attempt with the encoder that the connector has, if any.
try_current : DrmConnector → Option DrmEncoder → DrmDevice → ℤ × DrmDevice
try_current conn none dev = (eagain, dev)
try_current conn (some e) dev = try_encoder_for_display conn.display e dev

current_encoder : DrmDevice → DrmConnector → Option DrmEncoder
unfolding encoder_at
current_encoder dev conn = elim conn.encoder [ none ↦ none | some e ↦ encoder_at dev e ]

-- A failed attempt leaves the device alone, so the encoders of the second loop are those of `dev`.
unfoldable pub create_display_pipe : DrmConnector → DrmDevice → ℤ × DrmDevice
unfolding try_encoders encoders_at try_current current_encoder
create_display_pipe conn dev =
    let (ret, dev') = try_current conn (current_encoder dev conn) dev in
    let rest = try_encoders conn (encoders_at dev' conn.possible_encoders) dev' in
    if nonzero ret then (if is_eagain ret then rest else (ret, dev')) else (ok, dev')

-- What the numbering loops of `Init` carry: the next display number, `found_primary`, the keys of
-- `displays_` and the connectors passed.
pub record Numbering : Type 0 where
  pub num_displays : ℕ
  pub found_primary : Bool
  pub displays : List ℕ
  pub connectors : List DrmConnector

number_it : DrmConnector → Numbering → Numbering
number_it conn n = record {
  num_displays = n.num_displays + 1;
  found_primary = true;
  displays = n.displays ++ n.num_displays ∷ [];
  connectors = n.connectors ++ record conn { display = some n.num_displays } ∷ [];
}

pass_it : DrmConnector → Numbering → Numbering
pass_it conn n = record n { connectors = n.connectors ++ conn ∷ [] }

-- The first loop: the first internal connector becomes the primary display if there is none yet, and
-- the loop ends.
number_primary : List DrmConnector → Numbering → Numbering
unfolding number_it pass_it
number_primary [] n = n
number_primary (c ∷ cs) n =
    let rest = number_primary cs (pass_it c n) in
    if internal c.type && not n.found_primary
    then (let m = number_it c n in record m { connectors = m.connectors ++ cs })
    else rest

abbrev pub is_unnumbered : Option ℕ → Bool
is_unnumbered none = true
is_unnumbered (some d) = false

-- The test of the second loop on a connector.
abbrev pub wants_number : DrmConnector → Numbering → Bool
wants_number c n =
    (external c.type || internal c.type) && (not n.found_primary || is_unnumbered c.display)

-- The second loop: the other internal and external connectors in their order.
number_others : List DrmConnector → Numbering → Numbering
unfolding number_it pass_it
number_others [] n = n
number_others (c ∷ cs) n =
    number_others cs (if wants_number c n then number_it c n else pass_it c n)

-- The two loops, on the number of displays of the devices opened before.
unfoldable pub number_displays : ℕ → List DrmConnector → Numbering
unfolding number_primary number_others
number_displays num_displays conns =
    let first = number_primary conns (record {
      num_displays = num_displays;
      found_primary = not (num_displays == 0);
      displays = [];
      connectors = [];
    }) in
    number_others first.connectors (record first { connectors = [] })
