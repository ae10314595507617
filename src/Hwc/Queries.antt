-- ===== src/Hwc/Queries.antt =====
-- The calls of `DrmHwcTwo` and `HwcDisplay` in drmhwctwo.cpp that only answer, and `HookDevOpen`. An
-- answer through a pointer that the code leaves alone is `none`; a byte of a text is a number.
use platform_external_drm_hw.Base.{
  ℕ, ◌-◌, ℤ, Bool, true, false, Option, none, some, List, [], ◌∷◌, ◌++◌, if◌then◌else◌, length,
  take, min, ok, einval, not,
}
use platform_external_drm_hw.Drm.Connector.{DrmConnector}
use platform_external_drm_hw.Hwc.Layer.{Error, no_error, bad_display, unsupported}
use platform_external_drm_hw.Hwc.Display.{HwcDisplay}
use platform_external_drm_hw.Hwc.Present.{is_no_error}
use platform_external_drm_hw.Hwc.Config.{connector_of}

-- `display-`.
abbrev name_prefix : List ℕ
name_prefix = 100 ∷ 105 ∷ 115 ∷ 112 ∷ 108 ∷ 97 ∷ 121 ∷ 45 ∷ []

-- The text in an array with room for `room` bytes, or only its length: the size, and what is written.
-- `strncpy` of fewer bytes than the text has ends it with no 0.
name_answer : Option ℕ → List ℕ → ℕ × List ℕ
name_answer none text = (length text, [])
name_answer (some room) text = let size = min (length text - 1) room in (size, take size text)

display_name : (ℕ → List ℕ) → Option ℕ → Option DrmConnector → Error × ℕ × List ℕ
unfolding name_answer
display_name decimal room none = (bad_display, 0, [])
display_name decimal room (some conn) =
    let (size, written) = name_answer room (name_prefix ++ decimal conn.id) in
    (no_error, size, written)

-- `GetDisplayName`, where `decimal` is what a stream makes of a number.
unfoldable pub get_display_name :
    {W : Type 0} → (ℕ → List ℕ) → Option ℕ → HwcDisplay W → Error × ℕ × List ℕ
unfolding display_name connector_of
get_display_name decimal room d = display_name decimal room (connector_of d)

-- `GetColorModes`, with an array or without: the number of modes, or the only mode,
-- HAL_COLOR_MODE_NATIVE, which is 0.
unfoldable pub get_color_modes : Bool → Error × Option ℕ × Option ℕ
get_color_modes true = (no_error, none, some 0)
get_color_modes false = (no_error, some 1, none)

-- `GetDisplayRequests`: the number of layers with a request; `display_requests` is not set.
unfoldable pub get_display_requests : Error × ℕ × Option ℕ
get_display_requests = (no_error, 0, none)

unfoldable pub get_doze_support : Error × ℕ
get_doze_support = (no_error, 0)

-- `GetHdrCapabilities`: the number of types.
unfoldable pub get_hdr_capabilities : Error × ℕ
get_hdr_capabilities = (no_error, 0)

unfoldable pub create_virtual_display : Error
create_virtual_display = unsupported

unfoldable pub destroy_virtual_display : Error
destroy_virtual_display = unsupported

unfoldable pub get_max_virtual_display_count : ℕ
get_max_virtual_display_count = 0

-- `HookDevOpen`, on whether the name is that of the composer, and on what `Init` answers: the code,
-- and the device that is handed out.
unfoldable pub hook_dev_open {ℓ} : {S : Type ℓ} → Bool → Error × S → ℤ × Option S
hook_dev_open name_fits (err, s) =
    if not name_fits
    then (einval, none)
    else (if is_no_error err then (ok, some s) else (einval, none))
