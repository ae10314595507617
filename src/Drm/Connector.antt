-- ===== src/Drm/Connector.antt =====
-- drmconnector.cpp: a connector, its type and its list of modes.
pub mod Modes
use platform_external_drm_hw.Base.{
  ℕ, suc, ◌+◌, ◌%◌, ◌^◌, ℤ, Bool, true, false, Option, none, some, List, [], ◌∷◌, ◌++◌, ◌==◌, ◌||◌,
  ◌&&◌, not, has_bit, if◌then◌else◌, ok, enodev, find_if, Result, done, failed, ◌>>=◌, check,
}
use platform_external_drm_hw.Drm.Property.{DrmProperty, no_property}
use platform_external_drm_hw.Drm.Plane.{ObjectProperties, get_property}
use platform_external_drm_hw.Drm.Mode.{DrmMode, ModeInfo, no_mode, of_mode_info, same_mode, set_id}

-- `drmModeConnection` of libdrm.
pub data Connection : Type 0 where
  connected disconnected unknown_connection : Connection

pub record DrmConnector : Type 0 where
  pub id : ℕ
  pub encoder : Option ℕ
  pub display : Option ℕ
  pub type : ℕ
  pub state : Connection
  pub mm_width : ℕ
  pub mm_height : ℕ
  pub active_mode : DrmMode
  pub modes : List DrmMode
  pub dpms_property : DrmProperty
  pub crtc_id_property : DrmProperty
  pub writeback_pixel_formats : DrmProperty
  pub writeback_fb_id : DrmProperty
  pub writeback_out_fence : DrmProperty
  pub possible_encoders : List ℕ
  pub preferred_mode_id : ℕ

-- Connector types of the kernel interface: DRM_MODE_CONNECTOR_VGA 1, DVII 2, DVID 3, LVDS 7,
-- DisplayPort 10, HDMIA 11, eDP 14, VIRTUAL 15, DSI 16 and WRITEBACK 18.
unfoldable pub internal : ℕ → Bool
internal type = type == 7 || type == 14 || type == 16 || type == 15

unfoldable pub external : ℕ → Bool
external type = type == 11 || type == 10 || type == 3 || type == 2 || type == 1

-- With a libdrm that knows writeback connectors.
unfoldable pub writeback : ℕ → Bool
writeback type = type == 18

unfoldable pub valid_type : ℕ → Bool
unfolding internal external writeback
valid_type type = internal type || external type || writeback type

-- `drmModeConnector` of libdrm, less what the program does not read.
pub record ConnectorRes : Type 0 where
  pub connection : Connection
  pub modes : List ModeInfo

-- The device's `mode_id_`, a `uint32_t` that is incremented before use.
unfoldable pub next_mode_id : ℕ → ℕ
next_mode_id mode_id = (mode_id + 1) % 2 ^ 32

-- DRM_MODE_TYPE_PREFERRED, 1 << 3.
abbrev preferred_bit : ℕ
preferred_bit = 3

-- The loop of `UpdateModes`: modes known before keep their entry and so their id, others are entered
-- under the next id. `preferred` is `preferred_mode_id_` if the loop has set it.
pub record ModeScan : Type 0 where
  pub new_modes : List DrmMode
  pub preferred : Option ℕ
  pub mode_id : ℕ

note_preferred : DrmMode → Option ℕ → Option ℕ
note_preferred m preferred = if has_bit m.type preferred_bit then some m.id else preferred

add_mode : Option DrmMode → ModeInfo → ModeScan → ModeScan
unfolding note_preferred next_mode_id of_mode_info set_id
add_mode (some m) info s = record s {
  new_modes = s.new_modes ++ m ∷ [];
  preferred = note_preferred m s.preferred;
}
add_mode none info s =
    let m = set_id (of_mode_info info) (next_mode_id s.mode_id) in
    record {
      new_modes = s.new_modes ++ m ∷ [];
      preferred = note_preferred m s.preferred;
      mode_id = next_mode_id s.mode_id;
    }

unfoldable pub scan_modes : List DrmMode → List ModeInfo → ModeScan → ModeScan
unfolding add_mode
scan_modes known [] s = s
scan_modes known (i ∷ is) s =
    scan_modes known is (add_mode (find_if (λ m. same_mode m i) known) i s)

-- `preferred_mode_id_` after the loop.
choose_preferred : Option ℕ → List DrmMode → ℕ → ℕ
choose_preferred (some id) modes old = id
choose_preferred none [] old = old
choose_preferred none (m ∷ ms) old = m.id

pub record Updated : Type 0 where
  pub ret : ℤ
  pub connector : DrmConnector
  pub mode_id : ℕ

-- `UpdateModes`, on what `drmModeGetConnector` answers, with the device's mode counter.
unfoldable pub update_modes : Option ConnectorRes → ℕ → DrmConnector → Updated
unfolding scan_modes choose_preferred
update_modes none mode_id conn = record { ret = enodev; connector = conn; mode_id = mode_id }
update_modes (some c) mode_id conn =
    let s =
      scan_modes conn.modes c.modes
        (record { new_modes = []; preferred = none; mode_id = mode_id }) in
    record {
      ret = ok;
      connector = record conn {
        state = c.connection;
        modes = s.new_modes;
        preferred_mode_id = choose_preferred s.preferred s.new_modes conn.preferred_mode_id;
      };
      mode_id = s.mode_id;
    }
