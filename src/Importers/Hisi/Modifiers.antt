-- ===== src/Importers/Hisi/Modifiers.antt =====
-- `ConvertGrallocFormatToDrmModifiers` of platformhisi.cpp, for the Mali drivers with AFBC and without.
use Prim.Native.Nat.{bit_and, bit_or}
use platform_external_drm_hw.Base.{ℕ, Bool, ◌==◌, if◌then◌else◌}

-- The flags of the driver's header, and the bits and the code of the kernel's drm_fourcc.h.
pub record Afbc : Type 0 where
  pub intfmt_basic : ℕ
  pub intfmt_splitblk : ℕ
  pub intfmt_wideblk : ℕ
  pub intfmt_tiled_headers : ℕ
  pub block_size_16x16 : ℕ
  pub split : ℕ
  pub sparse : ℕ
  pub block_size_32x8 : ℕ
  pub tiled : ℕ
  pub ytr : ℕ
  pub arm_afbc : ℕ → ℕ

-- `if (flags & flag) features |= bits;`
abbrev pub with_flag : ℕ → ℕ → ℕ → ℕ → ℕ
with_flag flags flag bits features =
    if bit_and flags flag == 0 then features else bit_or features bits

unfoldable pub afbc_features : Afbc → ℕ → ℕ
afbc_features a flags = with_flag flags a.intfmt_tiled_headers a.tiled (
    with_flag flags a.intfmt_wideblk a.block_size_32x8 (
      with_flag flags a.intfmt_splitblk (bit_or a.split a.sparse)
        (with_flag flags a.intfmt_basic a.block_size_16x16 0)))

-- With AFBC.
unfoldable pub convert_gralloc_format_to_drm_modifiers : Afbc → ℕ → Bool → ℕ
unfolding afbc_features
convert_gralloc_format_to_drm_modifiers a flags is_rgb =
    let features = afbc_features a flags in
    if features == 0 then 0 else a.arm_afbc (if is_rgb then bit_or features a.ytr else features)

-- Without.
unfoldable pub no_modifiers : ℕ → Bool → ℕ
no_modifiers flags is_rgb = 0
