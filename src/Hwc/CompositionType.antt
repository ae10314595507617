-- ===== src/Hwc/CompositionType.antt =====
-- `HWC2::Composition` of the platform, by number.
use platform_external_drm_hw.Base.{ℕ}

abbrev pub invalid : ℕ
invalid = 0

abbrev pub client : ℕ
client = 1

abbrev pub device : ℕ
device = 2

abbrev pub solid_color : ℕ
solid_color = 3

abbrev pub cursor : ℕ
cursor = 4

abbrev pub sideband : ℕ
sideband = 5
