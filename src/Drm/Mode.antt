-- ===== src/Drm/Mode.antt =====
-- drmmode.cpp and drmmode.h: a display mode, and its kernel form `drm_mode_modeinfo`.
-- The float result of `v_refresh` and the bound of `strncpy` on the name are left out.
use platform_external_drm_hw.Base.{ℕ, String, Bool, ◌≡◌, refl, true, ◌&&◌, ◌==◌, arith}

-- `drmModeModeInfo` of libdrm, and `drm_mode_modeinfo` of the kernel, which has its fields.
pub record ModeInfo : Type 0 where
  pub clock : ℕ
  pub hdisplay : ℕ
  pub hsync_start : ℕ
  pub hsync_end : ℕ
  pub htotal : ℕ
  pub hskew : ℕ
  pub vdisplay : ℕ
  pub vsync_start : ℕ
  pub vsync_end : ℕ
  pub vtotal : ℕ
  pub vscan : ℕ
  pub vrefresh : ℕ
  pub flags : ℕ
  pub type : ℕ
  pub name : String

pub record DrmMode : Type 0 where
  pub id : ℕ
  pub clock : ℕ
  pub h_display : ℕ
  pub h_sync_start : ℕ
  pub h_sync_end : ℕ
  pub h_total : ℕ
  pub h_skew : ℕ
  pub v_display : ℕ
  pub v_sync_start : ℕ
  pub v_sync_end : ℕ
  pub v_total : ℕ
  pub v_scan : ℕ
  pub v_refresh : ℕ
  pub flags : ℕ
  pub type : ℕ
  pub name : String

-- A default constructed mode.
abbrev pub no_mode : DrmMode
no_mode = record {
  id = 0;
  clock = 0;
  h_display = 0;
  h_sync_start = 0;
  h_sync_end = 0;
  h_total = 0;
  h_skew = 0;
  v_display = 0;
  v_sync_start = 0;
  v_sync_end = 0;
  v_total = 0;
  v_scan = 0;
  v_refresh = 0;
  flags = 0;
  type = 0;
  name = "";
}

unfoldable pub of_mode_info : ModeInfo → DrmMode
of_mode_info m = record {
  id = 0;
  clock = m.clock;
  h_display = m.hdisplay;
  h_sync_start = m.hsync_start;
  h_sync_end = m.hsync_end;
  h_total = m.htotal;
  h_skew = m.hskew;
  v_display = m.vdisplay;
  v_sync_start = m.vsync_start;
  v_sync_end = m.vsync_end;
  v_total = m.vtotal;
  v_scan = m.vscan;
  v_refresh = m.vrefresh;
  flags = m.flags;
  type = m.type;
  name = m.name;
}

-- `operator==`: all but `vrefresh` and the name.
unfoldable pub same_mode : DrmMode → ModeInfo → Bool
same_mode d m =
    d.clock == m.clock
    && d.h_display == m.hdisplay
    && d.h_sync_start == m.hsync_start
    && d.h_sync_end == m.hsync_end
    && d.h_total == m.htotal
    && d.h_skew == m.hskew
    && d.v_display == m.vdisplay
    && d.v_sync_start == m.vsync_start
    && d.v_sync_end == m.vsync_end
    && d.v_total == m.vtotal
    && d.v_scan == m.vscan
    && d.flags == m.flags
    && d.type == m.type

unfoldable pub to_mode_info : DrmMode → ModeInfo
to_mode_info d = record {
  clock = d.clock;
  hdisplay = d.h_display;
  hsync_start = d.h_sync_start;
  hsync_end = d.h_sync_end;
  htotal = d.h_total;
  hskew = d.h_skew;
  vdisplay = d.v_display;
  vsync_start = d.v_sync_start;
  vsync_end = d.v_sync_end;
  vtotal = d.v_total;
  vscan = d.v_scan;
  vrefresh = d.v_refresh;
  flags = d.flags;
  type = d.type;
  name = d.name;
}

unfoldable pub set_id : DrmMode → ℕ → DrmMode
set_id d id = record d { id = id }

-- A mode read from the kernel is written back as it was, and compares equal to itself.
pub of_mode_info-to_mode_info :
    (m : ModeInfo) → (to_mode_info (of_mode_info m) ≡ m) × (same_mode (of_mode_info m) m ≡ true)
unfolding to_mode_info of_mode_info same_mode
of_mode_info-to_mode_info m = (refl, ground arith)
