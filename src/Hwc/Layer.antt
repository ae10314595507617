-- ===== src/Hwc/Layer.antt =====
-- `DrmHwcTwo::HwcLayer` of drmhwctwo.h and drmhwctwo.cpp: a layer as Android describes it. Enumerations
-- that are cast from an `int32_t` argument are kept as the number.
use platform_external_drm_hw.Base.{
  ℕ, ℤ, pos, negsuc, Bool, Option, none, ◌==◌, ◌||◌, not, if◌then◌else◌,
}
use platform_external_drm_hw.Compositor.Request.{FloatOps}
use platform_external_drm_hw.Layer.{
  DrmHwcLayer, DrmHwcBlending, none_blending, pre_mult, coverage, Rect, FRect, new_layer, no_rect,
  no_frect,
}
use platform_external_drm_hw.Layer.Transform.{set_transform}
use platform_external_drm_hw.Hwc.CompositionType
use platform_external_drm_hw.Hwc.BlendMode

-- `HWC2::Error`, as far as it is returned.
pub data Error : Type 0 where
  no_error bad_config bad_display bad_layer bad_parameter has_changes no_resources unsupported :
      Error

pub record HwcLayer : Type 0 where
  pub sf_type : ℕ
  pub validated_type : ℕ
  pub blending : ℕ
  pub buffer : Option ℕ
  pub acquire_fence : ℤ
  pub release_fence : ℤ
  pub display_frame : Rect
  pub alpha : ℕ
  pub source_crop : FRect
  pub cursor_x : ℤ
  pub cursor_y : ℤ
  pub transform : ℕ
  pub z_order : ℕ
  pub dataspace : ℕ

-- The bit pattern of 1.0f.
abbrev float_one : ℕ
float_one = 0x3f800000

-- A constructed layer; the fields without an initialiser are taken as zero.
abbrev pub new_hwc_layer : HwcLayer
new_hwc_layer = record {
  sf_type = CompositionType.invalid;
  validated_type = CompositionType.invalid;
  blending = BlendMode.no_blending;
  buffer = none;
  acquire_fence = negsuc 0;
  release_fence = negsuc 0;
  display_frame = no_rect;
  alpha = float_one;
  source_crop = no_frect;
  cursor_x = pos 0;
  cursor_y = pos 0;
  transform = 0;
  z_order = 0;
  dataspace = 0;
}

-- The operating system's `dup`, and `sync_merge` of two fences.
pub record Os : Type 0 where
  pub dup : ℤ → ℤ
  pub sync_merge : ℤ → ℤ → ℤ

unfoldable pub accept_type_change : HwcLayer → HwcLayer
accept_type_change l = record l { sf_type = l.validated_type }

unfoldable pub type_changed : HwcLayer → Bool
type_changed l = not (l.sf_type == l.validated_type)

abbrev pub set_validated_type : ℕ → HwcLayer → HwcLayer
set_validated_type t l = record l { validated_type = t }

-- The fence and the layer without it.
unfoldable pub take_release_fence : HwcLayer → ℤ × HwcLayer
take_release_fence l = (l.release_fence, record l { release_fence = negsuc 0 })

unfoldable pub set_layer_buffer : Os → Option ℕ → ℤ → HwcLayer → Error × HwcLayer
set_layer_buffer os buffer acquire_fence l =
    if l.sf_type == CompositionType.client
      || l.sf_type == CompositionType.sideband
      || l.sf_type == CompositionType.solid_color
    then (no_error, l)
    else (no_error, record l { buffer = buffer; acquire_fence = os.dup acquire_fence })

-- The hooks that store their argument.
pub data LayerCall : Type 0 where
  set_cursor_position : ℤ → ℤ → LayerCall
  set_layer_blend_mode : ℕ → LayerCall
  set_layer_color : LayerCall
  set_layer_composition_type : ℕ → LayerCall
  set_layer_dataspace : ℕ → LayerCall
  set_layer_display_frame : Rect → LayerCall
  set_layer_plane_alpha : ℕ → LayerCall
  set_layer_sideband_stream : LayerCall
  set_layer_source_crop : FRect → LayerCall
  set_layer_surface_damage : LayerCall
  set_layer_transform : ℕ → LayerCall
  set_layer_visible_region : LayerCall
  set_layer_z_order : ℕ → LayerCall

unfoldable pub layer_call : LayerCall → HwcLayer → Error × HwcLayer
layer_call (set_cursor_position x y) l = (no_error, record l { cursor_x = x; cursor_y = y })
layer_call (set_layer_blend_mode mode) l = (no_error, record l { blending = mode })
layer_call set_layer_color l = (unsupported, l)
layer_call (set_layer_composition_type type) l = (no_error, record l { sf_type = type })
layer_call (set_layer_dataspace dataspace) l = (no_error, record l { dataspace = dataspace })
layer_call (set_layer_display_frame frame) l = (no_error, record l { display_frame = frame })
layer_call (set_layer_plane_alpha alpha) l = (no_error, record l { alpha = alpha })
layer_call set_layer_sideband_stream l = (unsupported, l)
layer_call (set_layer_source_crop crop) l = (no_error, record l { source_crop = crop })
layer_call set_layer_surface_damage l = (no_error, l)
layer_call (set_layer_transform transform) l = (no_error, record l { transform = transform })
layer_call set_layer_visible_region l = (no_error, l)
layer_call (set_layer_z_order order) l = (no_error, record l { z_order = order })

drm_blending : ℕ → DrmHwcBlending
drm_blending mode =
    if mode == BlendMode.premultiplied
    then pre_mult
    else (if mode == BlendMode.coverage_blending then coverage else none_blending)

-- `acquire_fence_.Release()`.
abbrev pub give_up_fence : HwcLayer → HwcLayer
give_up_fence l = record l { acquire_fence = negsuc 0 }

-- `PopulateDrmLayer`, on a new layer: that layer, and this one, which gives up its acquire fence.
unfoldable pub populate_drm_layer : FloatOps → HwcLayer → DrmHwcLayer × HwcLayer
unfolding drm_blending set_transform
populate_drm_layer floats l = (
  record new_layer {
    blending = drm_blending l.blending;
    sf_handle = l.buffer;
    acquire_fence = l.acquire_fence;
    display_frame = l.display_frame;
    alpha = floats.to_alpha l.alpha;
    source_crop = l.source_crop;
    transform = set_transform l.transform;
  },
  give_up_fence l,
)
