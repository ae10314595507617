-- ===== src/Drm/Plane.antt =====
-- drmplane.cpp: a hardware plane and its properties, and `DrmDevice::GetProperty` that reads one.
use platform_external_drm_hw.Base.{
  ℕ, ℤ, String, Bool, Option, none, some, List, [], ◌∷◌, ◌==◌, ◌||◌, has_bit, if◌then◌else◌, ok,
  enoent, enodev, einval, str_eq, Result, done, failed, ◌>>=◌, check,
}
use platform_external_drm_hw.Drm.Property.{DrmProperty, PropertyRes, no_property, init, value}
use platform_external_drm_hw.Drm.Crtc.{DrmCrtc}

-- Plane types of the kernel interface: DRM_PLANE_TYPE_OVERLAY, _PRIMARY and _CURSOR.
abbrev pub type_overlay : ℕ
type_overlay = 0

abbrev pub type_primary : ℕ
type_primary = 1

abbrev pub type_cursor : ℕ
type_cursor = 2

pub record DrmPlane : Type 0 where
  pub id : ℕ
  pub possible_crtc_mask : ℕ
  pub type : ℕ
  pub crtc_property : DrmProperty
  pub fb_property : DrmProperty
  pub crtc_x_property : DrmProperty
  pub crtc_y_property : DrmProperty
  pub crtc_w_property : DrmProperty
  pub crtc_h_property : DrmProperty
  pub src_x_property : DrmProperty
  pub src_y_property : DrmProperty
  pub src_w_property : DrmProperty
  pub src_h_property : DrmProperty
  pub zpos_property : DrmProperty
  pub rotation_property : DrmProperty
  pub alpha_property : DrmProperty
  pub blend_property : DrmProperty
  pub in_fence_fd_property : DrmProperty

-- The properties of one object with their values, as `drmModeObjectGetProperties` and
-- `drmModeGetProperty` list them; `none` where the first returns NULL.
abbrev pub ObjectProperties : Type 0
ObjectProperties = Option (List (PropertyRes × ℕ))

find_property : List (PropertyRes × ℕ) → String → DrmProperty → ℤ × DrmProperty
find_property [] name property = (enoent, property)
find_property ((p, v) ∷ ps) name property =
    let rest = find_property ps name property in
    if str_eq p.name name then (ok, init property p v) else rest

-- `DrmDevice::GetProperty`: the code, and the property as the call leaves it.
unfoldable pub get_property : ObjectProperties → String → DrmProperty → ℤ × DrmProperty
unfolding find_property
get_property none name property = (enodev, property)
get_property (some props) name property = find_property props name property

-- A property that the plane can do without: the code is only logged.
optional : ObjectProperties → String → DrmProperty
unfolding get_property
optional props name = (get_property props name no_property).1

unfoldable pub required : ObjectProperties → String → Result DrmProperty
unfolding get_property
required props name = check (get_property props name no_property)

-- The switch on the value of "type".
checked_type : ℕ → Result ℕ
checked_type type =
    if type == type_overlay || type == type_primary || type == type_cursor
    then done type
    else failed einval

-- The constructor and `Init`; a plane whose `Init` fails is dropped by the caller.
unfoldable pub init_plane : ObjectProperties → ℕ → ℕ → Result DrmPlane
unfolding optional required checked_type
init_plane props id possible_crtcs = do
  p ← required props "type"
  raw ← check (value p)
  type ← checked_type raw
  crtc_property ← required props "CRTC_ID"
  fb_property ← required props "FB_ID"
  crtc_x_property ← required props "CRTC_X"
  crtc_y_property ← required props "CRTC_Y"
  crtc_w_property ← required props "CRTC_W"
  crtc_h_property ← required props "CRTC_H"
  src_x_property ← required props "SRC_X"
  src_y_property ← required props "SRC_Y"
  src_w_property ← required props "SRC_W"
  src_h_property ← required props "SRC_H"
  done (record {
    id = id;
    possible_crtc_mask = possible_crtcs;
    type = type;
    crtc_property = crtc_property;
    fb_property = fb_property;
    crtc_x_property = crtc_x_property;
    crtc_y_property = crtc_y_property;
    crtc_w_property = crtc_w_property;
    crtc_h_property = crtc_h_property;
    src_x_property = src_x_property;
    src_y_property = src_y_property;
    src_w_property = src_w_property;
    src_h_property = src_h_property;
    zpos_property = optional props "zpos";
    rotation_property = optional props "rotation";
    alpha_property = optional props "alpha";
    blend_property = optional props "pixel blend mode";
    in_fence_fd_property = optional props "IN_FENCE_FD";
  })

-- `!!((1 << crtc.pipe()) & possible_crtc_mask_)`
unfoldable pub get_crtc_supported : DrmPlane → DrmCrtc → Bool
get_crtc_supported plane crtc = has_bit plane.possible_crtc_mask crtc.pipe
