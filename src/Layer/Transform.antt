-- ===== src/Layer/Transform.antt =====
-- `DrmHwcLayer::SetTransform` of hwcutils.cpp, the bits of `DrmHwcTransform` in drmhwcomposer.h, the
-- rotation value that `DrmDisplayCompositor::CommitFrame` derives from them, and `DumpTransform`.
pub mod Rotation
use platform_external_drm_hw.Base.{
  ℕ, ◌+◌, Bool, List, [], ◌∷◌, ◌++◌, ◌==◌, not, has_bit, if◌then◌else◌, String,
}

abbrev pub k_identity : ℕ
k_identity = 0

abbrev pub k_flip_h : ℕ
k_flip_h = 1

abbrev pub k_flip_v : ℕ
k_flip_v = 2

abbrev pub k_rotate90 : ℕ
k_rotate90 = 4

abbrev pub k_rotate180 : ℕ
k_rotate180 = 8

abbrev pub k_rotate270 : ℕ
k_rotate270 = 16

-- HWC_TRANSFORM_ROT_180 and _ROT_270 of the platform; FLIP_H, FLIP_V and ROT_90 are its bits 0, 1, 2.
abbrev hwc_rot_180 : ℕ
hwc_rot_180 = 3

abbrev hwc_rot_270 : ℕ
hwc_rot_270 = 7

abbrev flag : Bool → ℕ → ℕ
flag b v = if b then v else 0

-- The flags are distinct bits, so `|=` into a zero word is a sum.
unfoldable pub set_transform : ℕ → ℕ
set_transform sf =
    if sf == hwc_rot_270
    then k_rotate270
    else (if sf == hwc_rot_180
        then k_rotate180
        else flag (has_bit sf 0) k_flip_h
          + flag (has_bit sf 1) k_flip_v
          + flag (has_bit sf 2) k_rotate90)

-- DRM_MODE_ROTATE_0, _90, _180, _270, DRM_MODE_REFLECT_X and _REFLECT_Y of the kernel interface.
abbrev pub rotate_0 : ℕ
rotate_0 = 1

abbrev pub rotate_90 : ℕ
rotate_90 = 2

abbrev pub rotate_180 : ℕ
rotate_180 = 4

abbrev pub rotate_270 : ℕ
rotate_270 = 8

abbrev pub reflect_x : ℕ
reflect_x = 16

abbrev pub reflect_y : ℕ
reflect_y = 32

unfoldable pub rotation_of : ℕ → ℕ
rotation_of transform =
    flag (has_bit transform 0) reflect_x
    + flag (has_bit transform 1) reflect_y
    + (if has_bit transform 2
        then rotate_90
        else (if has_bit transform 3
            then rotate_180
            else (if has_bit transform 4 then rotate_270 else rotate_0)))

-- `DumpTransform`: the words that are printed, joined by "|" where `separator` is set, which "IDENTITY"
-- does not set. `valid_bits` names kFlipH twice and kFlipV never.
unfoldable pub dump_words : ℕ → List String
dump_words t =
    (if t == 0 then "IDENTITY" ∷ [] else [])
    ++ ((if has_bit t 0 then "FLIPH" ∷ [] else [])
        ++ ((if has_bit t 1 then "FLIPV" ∷ [] else [])
            ++ ((if has_bit t 2 then "ROTATE90" ∷ [] else [])
                ++ ((if has_bit t 3 then "ROTATE180" ∷ [] else [])
                    ++ ((if has_bit t 4 then "ROTATE270" ∷ [] else [])
                        ++ (if outside_valid t then "INVALID" ∷ [] else []))))))
  where
    outside_valid : ℕ → Bool
    outside_valid t = not (
        flag (has_bit t 0) 1 + flag (has_bit t 2) 4 + flag (has_bit t 3) 8 + flag (has_bit t 4) 16
        == t)
