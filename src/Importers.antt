-- ===== src/Importers.antt =====
-- The importers of platformdrmgeneric.cpp, platformhisi.cpp and platformminigbm.cpp: what they make of a
-- gralloc handle, and how a buffer is released. The fields of the handles, whose headers belong to
-- gralloc, are records of what the importers read.
pub mod Hisi
pub mod Release
pub mod Start
use platform_external_drm_hw.Base.{
  ℕ, zero, suc, ◌+◌, ◌*◌, ◌/◌, ◌%◌, ◌^◌, ◌-◌, ℤ, nonzero, Bool, true, false, Option, none, some,
  List, [], ◌∷◌, map, ◌==◌, ◌&&◌, not, if◌then◌else◌, ok, einval,
}
use platform_external_drm_hw.Layer.{DrmBo}

-- `fourcc_code` of the kernel's drm_fourcc.h.
abbrev fourcc : ℕ → ℕ → ℕ → ℕ → ℕ
fourcc a b c d = a + b * 2 ^ 8 + c * 2 ^ 16 + d * 2 ^ 24

-- BG24, AR24, XB24, AB24, BG16 and YV12.
abbrev pub bgr888 : ℕ
bgr888 = fourcc 66 71 50 52

abbrev pub argb8888 : ℕ
argb8888 = fourcc 65 82 50 52

abbrev pub xbgr8888 : ℕ
xbgr8888 = fourcc 88 66 50 52

abbrev pub abgr8888 : ℕ
abgr8888 = fourcc 65 66 50 52

abbrev pub bgr565 : ℕ
bgr565 = fourcc 66 71 49 54

abbrev pub yvu420 : ℕ
yvu420 = fourcc 89 86 49 50

-- HAL_PIXEL_FORMAT_YV12 of the platform; RGBA_8888, RGBX_8888, RGB_888, RGB_565 and BGRA_8888 are 1 to
-- 5.
abbrev hal_yv12 : ℕ
hal_yv12 = 0x32315659

-- -EINVAL in a `uint32_t`.
abbrev pub no_format : ℕ
no_format = 2 ^ 32 - 22

unfoldable pub convert_hal_format_to_drm : ℕ → ℕ
convert_hal_format_to_drm hal =
    if hal == 3
    then bgr888
    else (if hal == 5
        then argb8888
        else (if hal == 2
            then xbgr8888
            else (if hal == 1
                then abgr8888
                else (if hal == 4
                    then bgr565
                    else (if hal == hal_yv12 then yvu420 else no_format)))))

unfoldable pub drm_format_to_bits_per_pixel : ℕ → ℕ
drm_format_to_bits_per_pixel drm =
    if drm == bgr888 then 24 else (if drm == bgr565 then 16 else (if drm == yvu420 then 12 else 32))

-- `drmPrimeFDToHandle`: the code and the GEM handle; and `drmModeAddFB2`, with or without modifiers: the
-- code and the framebuffer's id.
pub record Prime : Type 0 where
  pub fd_to_handle : ℤ → ℤ × ℕ
  pub add_fb : DrmBo → ℕ → ℤ × ℕ

-- The buffer object zeroed by `memset`.
abbrev pub no_bo : DrmBo
no_bo = record {
  width = 0;
  height = 0;
  format = 0;
  hal_format = 0;
  usage = 0;
  pixel_stride = 0;
  pitches = 0 ∷ 0 ∷ 0 ∷ 0 ∷ [];
  offsets = 0 ∷ 0 ∷ 0 ∷ 0 ∷ [];
  gem_handles = 0 ∷ 0 ∷ 0 ∷ 0 ∷ [];
  fb_id = 0;
}

-- The end of each `ImportBuffer`: the framebuffer for a filled buffer object.
unfoldable pub add_framebuffer : Prime → ℕ → DrmBo → ℤ × DrmBo
add_framebuffer prime modifier bo =
    let (ret, fb_id) = prime.add_fb bo modifier in
    (ret, if nonzero ret then bo else record bo { fb_id = fb_id })

pub record GrallocHandle : Type 0 where
  pub prime_fd : ℤ
  pub width : ℕ
  pub height : ℕ
  pub format : ℕ
  pub usage : ℕ
  pub stride : ℕ

-- The buffer object of `DrmGenericImporter`. `stride` is in bytes.
unfoldable pub generic_bo : GrallocHandle → ℕ → DrmBo
unfolding convert_hal_format_to_drm drm_format_to_bits_per_pixel
generic_bo h gem = record no_bo {
  width = h.width;
  height = h.height;
  hal_format = h.format;
  format = convert_hal_format_to_drm h.format;
  usage = h.usage;
  pixel_stride =
      (h.stride * 8) % 2 ^ 32 / drm_format_to_bits_per_pixel (convert_hal_format_to_drm h.format);
  pitches = h.stride ∷ 0 ∷ 0 ∷ 0 ∷ [];
  gem_handles = gem ∷ 0 ∷ 0 ∷ 0 ∷ [];
}

-- `DrmGenericImporter::ImportBuffer`, on the buffer object that it is given.
unfoldable pub generic_import_buffer : Prime → Option GrallocHandle → DrmBo → ℤ × DrmBo
unfolding generic_bo add_framebuffer
generic_import_buffer prime none bo = (einval, bo)
generic_import_buffer prime (some h) bo =
    let (ret, gem) = prime.fd_to_handle h.prime_fd in
    let imported = add_framebuffer prime 0 (generic_bo h gem) in
    if nonzero ret then (ret, bo) else imported

unfoldable pub generic_can_import_buffer : Option GrallocHandle → Bool
generic_can_import_buffer none = false
generic_can_import_buffer (some h) = true

pub record CrosGrallocHandle : Type 0 where
  pub fd : ℤ
  pub width : ℕ
  pub height : ℕ
  pub droid_format : ℕ
  pub format : ℕ
  pub usage : ℕ
  pub pixel_stride : ℕ
  pub stride : ℕ
  pub offset : ℕ

-- `DrmMinigbmImporter::ImportBuffer`.
unfoldable pub minigbm_import_buffer : Prime → Option CrosGrallocHandle → DrmBo → ℤ × DrmBo
unfolding add_framebuffer
minigbm_import_buffer prime none bo = (einval, bo)
minigbm_import_buffer prime (some h) bo =
    let (ret, gem) = prime.fd_to_handle h.fd in
    let imported = add_framebuffer prime 0 (record no_bo {
      width = h.width;
      height = h.height;
      hal_format = h.droid_format;
      format = h.format;
      usage = h.usage;
      pixel_stride = h.pixel_stride;
      pitches = h.stride ∷ 0 ∷ 0 ∷ 0 ∷ [];
      offsets = h.offset ∷ 0 ∷ 0 ∷ 0 ∷ [];
      gem_handles = gem ∷ 0 ∷ 0 ∷ 0 ∷ [];
    }) in
    if nonzero ret then (ret, bo) else imported

-- `bo->gem_handles[j] = 0` where the handle is the same.
abbrev pub clear_handle : ℕ → ℕ → ℕ
clear_handle h x = if x == h then 0 else x

-- The loop of `ReleaseBuffer` over the next `n` handles, with the answers of DRM_IOCTL_GEM_CLOSE: the
-- handles that it is called with, and the handles left.
unfoldable pub release_handles : (ℕ → ℤ) → ℕ → List ℕ → List ℕ × List ℕ
release_handles close zero hs = ([], hs)
release_handles close (suc n) [] = ([], [])
release_handles close (suc n) (h ∷ hs) =
    let kept = release_handles close n hs in
    let closed = release_handles close n (map (clear_handle h) hs) in
    if h == 0
    then (kept.0, h ∷ kept.1)
    else (if nonzero (close h) then (h ∷ kept.0, h ∷ kept.1) else (h ∷ closed.0, 0 ∷ closed.1))

-- HWC_DRM_BO_MAX_PLANES.
abbrev pub max_planes : ℕ
max_planes = 4

-- `DrmGenericImporter::ReleaseBuffer`: the framebuffer that is removed, if any, the GEM handles that
-- are closed, and the buffer object left.
pub record Released : Type 0 where
  pub removed_fb : Option ℕ
  pub closed : List ℕ
  pub bo : DrmBo

unfoldable pub release_buffer : (ℕ → ℤ) → DrmBo → Released
unfolding release_handles
release_buffer close bo =
    let (closed, left) = release_handles close max_planes bo.gem_handles in
    record {
      removed_fb = if bo.fb_id == 0 then none else some bo.fb_id;
      closed = closed;
      bo = record bo { gem_handles = left };
    }
