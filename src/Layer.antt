-- ===== src/Layer.antt =====
-- drmhwcomposer.h and hwcutils.cpp: one layer of a composition, and the import of its buffer.
-- A buffer handle is `none` for NULL. A float is kept as its bit pattern and only handed on.
pub mod Transform
use platform_external_drm_hw.Base.{
  ℕ, zero, suc, ℤ, pos, negsuc, nonzero, if◌then◌else◌, Bool, true, false, Option, none, some, List,
  [], ◌∷◌, ◌≡◌, refl, ◌==◌, has_bit, ok, Result, done, failed, ◌>>=◌, check, get_elem?,
}
use Transform.{set_transform, k_identity}

pub record Rect : Type 0 where
  pub left : ℤ
  pub top : ℤ
  pub right : ℤ
  pub bottom : ℤ

pub record FRect : Type 0 where
  pub left : ℕ
  pub top : ℕ
  pub right : ℕ
  pub bottom : ℕ

pub data DrmHwcBlending : Type 0 where
  none_blending pre_mult coverage : DrmHwcBlending

-- `hwc_drm_bo`, less the two fields that no code under the repository touches. The four planes are
-- lists of length `hwc_drm_bo_max_planes`.
pub record DrmBo : Type 0 where
  pub width : ℕ
  pub height : ℕ
  pub format : ℕ
  pub hal_format : ℕ
  pub usage : ℕ
  pub pixel_stride : ℕ
  pub pitches : List ℕ
  pub offsets : List ℕ
  pub gem_handles : List ℕ
  pub fb_id : ℕ

-- The virtual interface `Importer`, and `GraphicBufferMapper::importBuffer` of the platform, which
-- answers with the handle that it makes.
pub record Importer : Type 0 where
  pub import_buffer : Option ℕ → ℤ × DrmBo
  pub can_import_buffer : Option ℕ → Bool
  pub copy_handle : Option ℕ → DrmBo → ℕ → ℤ × ℕ

pub record DrmHwcLayer : Type 0 where
  pub sf_handle : Option ℕ
  pub gralloc_buffer_usage : ℕ
  pub buffer : Option DrmBo
  pub handle : Option ℕ
  pub transform : ℕ
  pub blending : DrmHwcBlending
  pub alpha : ℕ
  pub source_crop : FRect
  pub display_frame : Rect
  pub acquire_fence : ℤ

-- GRALLOC_USAGE_PROTECTED, 1 << 14.
abbrev protected_bit : ℕ
protected_bit = 14

unfoldable pub protected_usage : DrmHwcLayer → Bool
protected_usage l = has_bit l.gralloc_buffer_usage protected_bit

unfoldable pub get_usable_handle : DrmHwcLayer → Option ℕ
get_usable_handle l = elim l.handle [ some h ↦ some h | none ↦ l.sf_handle ]

-- The loop over the GEM handles stops at the first that is 0.
unfoldable pub layer_count : List ℕ → ℕ
layer_count [] = 0
layer_count (zero ∷ hs) = 0
layer_count (suc h ∷ hs) = suc (layer_count hs)

-- `DrmHwcLayer::ImportBuffer`: the code, and the layer as the call leaves it.
unfoldable pub import_buffer : Importer → DrmHwcLayer → ℤ × DrmHwcLayer
unfolding layer_count
import_buffer importer l =
    let (ret, bo) = importer.import_buffer l.sf_handle in
    let imported = record l { buffer = some bo } in
    let (ret', copy) = importer.copy_handle l.sf_handle bo (layer_count bo.gem_handles) in
    let copied = record imported { handle = some copy; gralloc_buffer_usage = bo.usage } in
    if nonzero ret then (ret, l) else (if nonzero ret' then (ret', imported) else (ok, copied))

abbrev pub no_rect : Rect
no_rect = record { left = pos 0; top = pos 0; right = pos 0; bottom = pos 0 }

abbrev pub no_frect : FRect
no_frect = record { left = 0; top = 0; right = 0; bottom = 0 }

-- A layer as it is constructed; the fields without an initialiser are taken as zero.
abbrev pub new_layer : DrmHwcLayer
new_layer = record {
  sf_handle = none;
  gralloc_buffer_usage = 0;
  buffer = none;
  handle = none;
  transform = k_identity;
  blending = none_blending;
  alpha = 0xffff;
  source_crop = no_frect;
  display_frame = no_rect;
  acquire_fence = negsuc 0;
}

-- `InitFromDrmHwcLayer`, called on a new layer.
unfoldable pub init_from_layer : Importer → DrmHwcLayer → ℤ × DrmHwcLayer
unfolding import_buffer
init_from_layer importer src = import_buffer importer (record new_layer {
  blending = src.blending;
  sf_handle = src.sf_handle;
  acquire_fence = negsuc 0;
  display_frame = src.display_frame;
  alpha = src.alpha;
  source_crop = src.source_crop;
  transform = src.transform;
})
