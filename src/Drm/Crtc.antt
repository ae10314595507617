-- ===== src/Drm/Crtc.antt =====
-- drmcrtc.cpp and drmencoder.cpp: the CRTCs of a device and the encoders in front of them.
-- A `DrmCrtc *` is kept as the CRTC's id and a `DrmEncoder *` as the encoder's id, which the kernel
-- gives out once; a display is `none` for -1.

use platform_external_drm_hw.Base.{ℕ, Bool, true, Option, none, some, List, ◌==◌, false}
use platform_external_drm_hw.Drm.Property.{DrmProperty}

pub record DrmCrtc : Type 0 where
  pub id : ℕ
  pub pipe : ℕ
  pub display : Option ℕ
  pub active_property : DrmProperty
  pub mode_property : DrmProperty
  pub out_fence_ptr_property : DrmProperty

pub record DrmEncoder : Type 0 where
  pub id : ℕ
  pub crtc : Option ℕ
  pub display : Option ℕ
  pub possible_crtcs : List ℕ
  pub possible_clones : List ℕ

abbrev pub same_id : Option ℕ → Option ℕ → Bool
same_id none none = true
same_id none (some b) = false
same_id (some a) none = false
same_id (some a) (some b) = a == b

-- `display_ == -1 || display_ == display`, of a CRTC and of an encoder.
unfoldable pub can_bind : Option ℕ → Option ℕ → Bool
can_bind none display = true
can_bind (some d) display = same_id (some d) display
