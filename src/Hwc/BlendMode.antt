-- ===== src/Hwc/BlendMode.antt =====
-- `HWC2::BlendMode` of the platform, by number.
use platform_external_drm_hw.Base.{ℕ}

abbrev pub no_blending : ℕ
no_blending = 1

abbrev pub premultiplied : ℕ
premultiplied = 2

abbrev pub coverage_blending : ℕ
coverage_blending = 3
