-- ===== src/Importers/Hisi.antt =====
-- `HisiImporter` of platformhisi.cpp, built without the AFBC formats of newer Mali drivers.
pub mod Layout
pub mod Modifiers
use platform_external_drm_hw.Base.{
  ℕ, ◌+◌, ◌*◌, ◌/◌, ◌%◌, ◌^◌, ◌-◌, ℤ, pos, negsuc, nonzero, negative, Bool, true, false, Option,
  none, some, List, [], ◌∷◌, ◌==◌, ◌||◌, not, has_bit, if◌then◌else◌, ok, einval, leb,
}
use platform_external_drm_hw.Layer.{DrmBo}
use platform_external_drm_hw.Compositor.Request.{to_int32}
use platform_external_drm_hw.Importers.{
  Prime, no_bo, yvu420, convert_hal_format_to_drm, add_framebuffer,
}

-- What is read of the `private_handle_t` of the Mali gralloc.
pub record PrivateHandle : Type 0 where
  pub usage : ℕ
  pub share_fd : ℤ
  pub req_format : ℕ
  pub width : ℕ
  pub height : ℕ
  pub stride : ℕ
  pub byte_stride : ℕ

-- GRALLOC_USAGE_HW_FB is 1 << 12; GRALLOC_USAGE_SW_READ_MASK is 0x0f and SW_WRITE_MASK 0xf0.
abbrev pub is_hw_fb : PrivateHandle → Bool
is_hw_fb h = has_bit h.usage 12

abbrev uses_software : PrivateHandle → Bool
uses_software h = not (h.usage % 256 == 0)

-- An `int` that is not negative, or an `uint32_t`, by its bits. What the source computes in an `int` is taken
-- to wrap around.
abbrev pub to_word : ℕ → ℕ
to_word n = n % 2 ^ 32

-- MALI_ALIGN(value, base), for a base that is a power of two: the sum is an `int`, whose low bits go.
abbrev pub mali_align : ℕ → ℕ → ℕ
mali_align value base = to_word (value + base - 1) / base * base

unfoldable pub is_drm_format_rgb : ℕ → Bool
is_drm_format_rgb drm = not (drm == yvu420)

abbrev pub align_of : PrivateHandle → ℕ
align_of h = if uses_software h then 16 else 128

-- The planes of a YV12 buffer behind the first: V, and then U.
abbrev pub y_size : PrivateHandle → ℕ
y_size h = to_word (mali_align h.height 2 * h.byte_stride)

abbrev pub vu_stride : PrivateHandle → ℕ
vu_stride h = mali_align (h.byte_stride / 2) (align_of h)

abbrev pub v_size : PrivateHandle → ℕ
v_size h = to_word (vu_stride h * (mali_align h.height 2 / 2))

unfoldable pub hisi_bo : PrivateHandle → ℕ → DrmBo
unfolding convert_hal_format_to_drm
hisi_bo h gem =
    let single : DrmBo = record no_bo {
      width = h.width;
      height = h.height;
      hal_format = h.req_format;
      format = convert_hal_format_to_drm h.req_format;
      usage = h.usage;
      pixel_stride = h.stride;
      pitches = h.byte_stride ∷ 0 ∷ 0 ∷ 0 ∷ [];
      gem_handles = gem ∷ 0 ∷ 0 ∷ 0 ∷ [];
    } in
    if convert_hal_format_to_drm h.req_format == yvu420
    then record single {
      gem_handles = gem ∷ gem ∷ gem ∷ 0 ∷ [];
      pitches = h.byte_stride ∷ vu_stride h ∷ vu_stride h ∷ 0 ∷ [];
      offsets = 0 ∷ y_size h ∷ to_word (y_size h + v_size h) ∷ 0 ∷ [];
    }
    else single

-- `HisiImporter::ImportBuffer`. The modifier is 0.
unfoldable pub hisi_import_buffer : Prime → Option PrivateHandle → DrmBo → ℤ × DrmBo
unfolding hisi_bo add_framebuffer to_int32
hisi_import_buffer prime none bo = (einval, no_bo)
hisi_import_buffer prime (some h) bo =
    let (ret, gem) = prime.fd_to_handle h.share_fd in
    let fmt = to_int32 (convert_hal_format_to_drm h.req_format) in
    let imported = add_framebuffer prime 0 (hisi_bo h gem) in
    if not (is_hw_fb h)
    then (einval, no_bo)
    else (if nonzero ret then (ret, no_bo) else (if negative fmt then (fmt, no_bo) else imported))

unfoldable pub hisi_can_import_buffer : Option PrivateHandle → Bool
hisi_can_import_buffer none = false
hisi_can_import_buffer (some h) = is_hw_fb h
