-- ===== src/Drm/Objects.antt =====
-- `Init` of drmcrtc.cpp and drmconnector.cpp, the clones of drmencoder.cpp, and what libdrm tells of the
-- objects of a device.
use platform_external_drm_hw.Base.{
  ℕ, Bool, Option, none, some, true, false, List, [], ◌∷◌, ◌==◌, ◌||◌, has_bit, if◌then◌else◌,
  Result, done, ◌>>=◌, ◌+◌, ◌++◌, map,
}
use platform_external_drm_hw.Drm.Property.{DrmProperty, no_property}
use platform_external_drm_hw.Drm.Plane.{ObjectProperties, required}
use platform_external_drm_hw.Drm.Mode.{no_mode}
use platform_external_drm_hw.Drm.Crtc.{DrmCrtc, DrmEncoder}
use platform_external_drm_hw.Drm.Connector.{DrmConnector, Connection, writeback}

-- `drmModeEncoder` of libdrm, less what the program does not read. An object id of 0 stands for none.
pub record EncoderRes : Type 0 where
  pub encoder_id : ℕ
  pub crtc_id : ℕ
  pub possible_crtcs : ℕ
  pub possible_clones : ℕ

-- `drmModeConnector` of libdrm, as the constructor of a connector reads it.
pub record ConnectorInfo : Type 0 where
  pub connector_id : ℕ
  pub connector_type : ℕ
  pub connection : Connection
  pub mm_width : ℕ
  pub mm_height : ℕ
  pub encoders : List ℕ
  pub encoder_id : ℕ

-- The constructor of a CRTC and its `Init`; the kernel's current mode, which nothing reads, is left out.
unfoldable pub init_crtc : ObjectProperties → ℕ → ℕ → Result DrmCrtc
unfolding required
init_crtc props id pipe = do
  active_property ← required props "ACTIVE"
  mode_property ← required props "MODE_ID"
  out_fence_ptr_property ← required props "OUT_FENCE_PTR"
  done (record {
    id = id;
    pipe = pipe;
    display = none;
    active_property = active_property;
    mode_property = mode_property;
    out_fence_ptr_property = out_fence_ptr_property;
  })

-- The three properties of a writeback connector.
pub writeback_properties :
    ObjectProperties → Bool → Result (DrmProperty × DrmProperty × DrmProperty)
unfolding required
writeback_properties props false = done (no_property, no_property, no_property)
writeback_properties props true = do
  formats ← required props "WRITEBACK_PIXEL_FORMATS"
  fb_id ← required props "WRITEBACK_FB_ID"
  out_fence ← required props "WRITEBACK_OUT_FENCE_PTR"
  done (formats, fb_id, out_fence)

-- The constructor of a connector and its `Init`.
unfoldable pub init_connector :
    ObjectProperties → ConnectorInfo → Option ℕ → List ℕ → Result DrmConnector
unfolding required writeback_properties
init_connector props c current possible = do
  dpms ← required props "DPMS"
  crtc_id ← required props "CRTC_ID"
  wb ← writeback_properties props (writeback c.connector_type)
  done (record {
    id = c.connector_id;
    encoder = current;
    display = none;
    type = c.connector_type;
    state = c.connection;
    mm_width = c.mm_width;
    mm_height = c.mm_height;
    active_mode = no_mode;
    modes = [];
    dpms_property = dpms;
    crtc_id_property = crtc_id;
    writeback_pixel_formats = wb.0;
    writeback_fb_id = wb.1;
    writeback_out_fence = wb.2;
    possible_encoders = possible;
    preferred_mode_id = 0;
  })

-- The loop over the CRTCs made so far: those that the encoder can feed, and the one that it does feed.
unfoldable pub possible_of : EncoderRes → List DrmCrtc → List ℕ
possible_of e [] = []
possible_of e (c ∷ cs) =
    let rest = possible_of e cs in if has_bit e.possible_crtcs c.pipe then c.id ∷ rest else rest

-- The last match counts, as the loop goes on.
unfoldable pub current_of : ℕ → List ℕ → Option ℕ → Option ℕ
current_of id [] current = current
current_of id (x ∷ xs) current = current_of id xs (if x == id then some x else current)

unfoldable pub new_encoder : EncoderRes → List DrmCrtc → DrmEncoder
unfolding possible_of current_of
new_encoder e crtcs = record {
  id = e.encoder_id;
  crtc = current_of e.crtc_id (map (λ c. c.id) crtcs) none;
  display = none;
  possible_crtcs = possible_of e crtcs;
  possible_clones = [];
}

member : ℕ → List ℕ → Bool
member a [] = false
member a (x ∷ xs) = x == a || member a xs

unfoldable pub can_clone : DrmEncoder → DrmEncoder → Bool
unfolding member
can_clone e possible_clone = member possible_clone.id e.possible_clones

unfoldable pub add_possible_clone : DrmEncoder → DrmEncoder → DrmEncoder
unfolding member
add_possible_clone e possible_clone =
    if member possible_clone.id e.possible_clones
    then e
    else record e { possible_clones = possible_clone.id ∷ e.possible_clones }

-- The loop over `j` for one encoder, with the bits of its `possible_clones`.
unfoldable pub add_clones : ℕ → ℕ → List DrmEncoder → DrmEncoder → DrmEncoder
unfolding add_possible_clone
add_clones bits j [] e = e
add_clones bits j (c ∷ cs) e =
    add_clones bits (j + 1) cs (if has_bit bits j then add_possible_clone e c else e)

-- The encoders of a connector among the device's: those that its list of ids names, in that order.
matching : ℕ → List DrmEncoder → List ℕ
matching id [] = []
matching id (e ∷ es) = let rest = matching id es in if e.id == id then e.id ∷ rest else rest

unfoldable pub possible_encoders_of : List ℕ → List DrmEncoder → List ℕ
unfolding matching
possible_encoders_of [] encs = []
possible_encoders_of (id ∷ ids) encs = matching id encs ++ possible_encoders_of ids encs

-- The current encoder is looked for in the same inner loop, so only for a connector that names some.
unfoldable pub current_encoder_of : List ℕ → ℕ → List DrmEncoder → Option ℕ
unfolding current_of
current_encoder_of [] id encs = none
current_encoder_of (i ∷ is) id encs = current_of id (map (λ e. e.id) encs) none
