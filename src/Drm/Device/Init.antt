-- ===== src/Drm/Device/Init.antt =====
-- `Init` of drmdevice.cpp: the objects of a device are listed, its displays numbered, and a pipe is made
-- for each connector, with a writeback connector where there is one.
pub mod Kept
pub mod Pipes
pub mod Served
use platform_external_drm_hw.Base.{
  ℕ, ◌+◌, ℤ, Bool, true, false, Option, none, some, List, [], ◌∷◌, map, ◌==◌, ◌||◌, ◌&&◌, not,
  if◌then◌else◌, ok, enodev, enoent, einval, find_if, Result, done, failed, ◌>>=◌, check,
}
use platform_external_drm_hw.Drm.Crtc.{DrmCrtc, DrmEncoder, same_id, can_bind}
use platform_external_drm_hw.Drm.Plane.{DrmPlane, ObjectProperties, init_plane}
use platform_external_drm_hw.Drm.Connector.{
  DrmConnector, Connection, connected, disconnected, unknown_connection, ConnectorRes, writeback,
  update_modes,
}
use platform_external_drm_hw.Drm.Objects.{
  EncoderRes, ConnectorInfo, init_crtc, init_connector, new_encoder, can_clone, add_clones,
  possible_encoders_of, current_encoder_of,
}
use platform_external_drm_hw.Drm.Device.Writeback.{attach_for, crtc_of}
use platform_external_drm_hw.Drm.Device.{
  DrmDevice, contains, encoders_at, get_connector_for_display, get_writeback_connector_for_display,
  crtc_at, encoder_at, set_encoder_crtc, create_display_pipe, is_unnumbered, number_displays,
  Numbering,
}

-- `drmModeRes` of libdrm.
pub record Resources : Type 0 where
  pub min_width : ℕ
  pub min_height : ℕ
  pub max_width : ℕ
  pub max_height : ℕ
  pub crtcs : List ℕ
  pub encoders : List ℕ
  pub connectors : List ℕ

-- What libdrm answers about one device: `none` stands for NULL.
pub record Card : Type 0 where
  pub opened : Bool
  pub universal_planes : ℤ
  pub atomic : ℤ
  pub resources : Option Resources
  -- The id that `drmModeGetCrtc` gives back.
  pub get_crtc : ℕ → Option ℕ
  pub get_encoder : ℕ → Option EncoderRes
  pub get_connector : ℕ → Option ConnectorInfo
  pub modes : ℕ → Option ConnectorRes
  pub crtc_properties : ℕ → ObjectProperties
  pub connector_properties : ℕ → ObjectProperties
  pub plane_properties : ℕ → ObjectProperties
  pub planes : Option (List ℕ)
  -- The id and the `possible_crtcs` that `drmModeGetPlane` gives back.
  pub get_plane : ℕ → Option (ℕ × ℕ)
  -- `DrmEventListener::Init`, which asks the system for a socket.
  pub listener : ℤ

abbrev found {ℓ} : {A : Type ℓ} → Option A → ℤ → Result A
found none e = failed e
found (some a) e = done a

abbrev same_truth : Bool → Bool → Bool
same_truth true b = b
same_truth false b = not b

module _ (card : Card) where
  list_crtcs : ℕ → List ℕ → Result (List DrmCrtc)
  unfolding init_crtc
  list_crtcs i [] = done []
  list_crtcs i (id ∷ ids) = do
    c ← found (card.get_crtc id) enodev
    crtc ← init_crtc (card.crtc_properties c) c i
    rest ← list_crtcs (i + 1) ids
    done (crtc ∷ rest)

  -- With the `possible_clones` of each.
  list_encoders : List DrmCrtc → List ℕ → Result (List (DrmEncoder × ℕ))
  unfolding new_encoder
  list_encoders crtcs [] = done []
  list_encoders crtcs (id ∷ ids) = do
    e ← found (card.get_encoder id) enodev
    rest ← list_encoders crtcs ids
    done ((new_encoder e crtcs, e.possible_clones) ∷ rest)

  list_connectors : List DrmEncoder → List ℕ → Result (List DrmConnector)
  unfolding init_connector possible_encoders_of current_encoder_of
  list_connectors encs [] = done []
  list_connectors encs (id ∷ ids) = do
    c ← found (card.get_connector id) enodev
    conn ←
        init_connector (card.connector_properties c.connector_id) c
          (current_encoder_of c.encoders c.encoder_id encs) (possible_encoders_of c.encoders encs)
    rest ← list_connectors encs ids
    done (conn ∷ rest)

  list_planes : List ℕ → Result (List DrmPlane)
  unfolding init_plane
  list_planes [] = done []
  list_planes (id ∷ ids) = do
    p ← found (card.get_plane id) enodev
    plane ← init_plane (card.plane_properties p.0) p.0 p.1
    rest ← list_planes ids
    done (plane ∷ rest)

-- The connectors of which `writeback()` is so.
of_kind : Bool → List DrmConnector → List DrmConnector
of_kind b [] = []
of_kind b (c ∷ cs) =
    let rest = of_kind b cs in if same_truth (writeback c.type) b then c ∷ rest else rest

-- The double loop over the encoders, each with its `possible_clones`.
clone_all : List DrmEncoder → List (DrmEncoder × ℕ) → List DrmEncoder
unfolding add_clones
clone_all encs [] = []
clone_all encs ((e, bits) ∷ es) = add_clones bits 0 encs e ∷ clone_all encs es

-- The loop over the connectors that makes the pipes.
unfoldable pub make_pipes :
    (ℕ → Option ConnectorRes) → List DrmConnector → DrmDevice → Result DrmDevice
unfolding create_display_pipe attach_for crtc_of
make_pipes modes [] dev = done dev
make_pipes modes (c ∷ cs) dev = do
  piped ← check (create_display_pipe c dev)
  make_pipes modes cs (attach_for modes (crtc_of piped c.id) piped)

-- A device with its resolutions; the number of its displays is the length of `displays`.
pub record Opened : Type 0 where
  pub device : DrmDevice
  pub min_resolution : ℕ × ℕ
  pub max_resolution : ℕ × ℕ

-- The device before its pipes are made.
unpiped : List DrmCrtc → List DrmEncoder → Numbering → List DrmConnector → List DrmPlane → DrmDevice
unpiped crtcs encs numbered writebacks planes = record {
  crtcs = crtcs;
  encoders = encs;
  connectors = numbered.connectors;
  writeback_connectors = writebacks;
  planes = planes;
  displays = numbered.displays;
  mode_id = 0;
}

-- `Init`, on the number of displays of the devices opened before. A device of which `Init` fails is
-- dropped by the caller.
unfoldable pub init : Card → ℕ → Result Opened
unfolding list_crtcs list_encoders list_connectors list_planes clone_all of_kind number_displays
    make_pipes unpiped
init card num_displays = do
  opened ← (if card.opened then done card.opened else failed enodev)
  universal ← check (card.universal_planes, card.opened)
  atomic ← check (card.atomic, card.opened)
  res ← found card.resources enodev
  crtcs ← list_crtcs card 0 res.crtcs
  listed ← list_encoders card crtcs res.encoders
  encs ← done (clone_all (map (λ e. e.0) listed) listed)
  conns ← list_connectors card encs res.connectors
  ids ← found card.planes enoent
  planes ← list_planes card ids
  listening ← check (card.listener, card.opened)
  device ← make_pipes card.modes (number_displays num_displays (of_kind false conns)).connectors (
      unpiped crtcs encs (number_displays num_displays (of_kind false conns)) (of_kind true conns)
        planes)
  done (record {
    device = device;
    min_resolution = (res.min_width, res.min_height);
    max_resolution = (res.max_width, res.max_height);
  })
