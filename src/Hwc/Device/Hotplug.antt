-- ===== src/Hwc/Device/Hotplug.antt =====
-- The callbacks and the hotplug handler of drmhwctwo.cpp.
pub mod Each
pub mod Callbacks
pub mod Changes
use platform_external_drm_hw.Base.{
  ℕ, zero, suc, ◌-◌, ℤ, nonzero, Bool, true, false, Option, none, some, List, [], ◌∷◌, ◌++◌, map,
  ◌==◌, not, if◌then◌else◌, find_if, keep,
}
use platform_external_drm_hw.Drm.Connector.{
  DrmConnector, ConnectorRes, Connection, connected, disconnected, unknown_connection, update_modes,
  Updated,
}
use platform_external_drm_hw.Drm.Device.{DrmDevice}
use platform_external_drm_hw.Drm.Device.Writeback.{is_connected, replace, follow}
use platform_external_drm_hw.Compositor.{clear_display}
use platform_external_drm_hw.Hwc.Layer.{Error, no_error}
use platform_external_drm_hw.Hwc.Display.{HwcDisplay, Platform}
use platform_external_drm_hw.Hwc.Device.Creation.{chose_preferred_config}
use platform_external_drm_hw.Hwc.Device.{
  DrmHwcTwo, HwcCallback, Note, Slot, find_callback, emplace_callback, run_display,
  clear_hwc_display,
}

-- `HandleDisplayHotplug`: the call of the hotplug callback, if one is registered.
unfoldable pub handle_display_hotplug : Option HwcCallback → Option ℕ → Bool → List Note
handle_display_hotplug none display plugged = []
handle_display_hotplug (some cb) display plugged =
    record { callback = cb; display = display; plugged = plugged } ∷ []

-- `HandleInitialHotplugState`, on the connectors of a device.
unfoldable pub handle_initial_hotplug_state : Option HwcCallback → List DrmConnector → List Note
unfolding handle_display_hotplug
handle_initial_hotplug_state cb [] = []
handle_initial_hotplug_state cb (c ∷ cs) =
    let rest = handle_initial_hotplug_state cb cs in
    if is_connected c.state then handle_display_hotplug cb c.display true ++ rest else rest

abbrev pub same_connection : Connection → Connection → Bool
same_connection connected connected = true
same_connection disconnected disconnected = true
same_connection unknown_connection unknown_connection = true
same_connection _ _ = false

-- The connectors of all devices in their order.
all_connectors : List DrmDevice → List DrmConnector
all_connectors [] = []
all_connectors (d ∷ ds) = d.connectors ++ all_connectors ds

-- `RegisterVsyncCallback`.
set_vsync_callback : {W : Type 0} → HwcCallback → Slot W → Slot W
set_vsync_callback cb slot = record slot { vsync_callback = some cb }

-- What the switch of `RegisterCallback` does for a new callback.
registered : {W : Type 0} → ℕ → HwcCallback → DrmHwcTwo W → DrmHwcTwo W × List Note
unfolding handle_initial_hotplug_state all_connectors set_vsync_callback
registered descriptor cb s =
    if descriptor == 1
    then (
      s,
      record { callback = cb; display = some 0; plugged = true }
          ∷ handle_initial_hotplug_state (find_callback 1 s.callbacks)
              (all_connectors s.manager.drms),
    )
    else (if descriptor == 3
        then (record s { displays = map (set_vsync_callback cb) s.displays }, [])
        else (s, []))

-- `RegisterCallback`: a null function, `none`, takes the callback out.
unfoldable pub register_callback :
    {W : Type 0} → ℕ → Option HwcCallback → DrmHwcTwo W → Error × DrmHwcTwo W × List Note
unfolding registered emplace_callback
register_callback descriptor none s =
    (no_error, record s { callbacks = keep (λ c. not (c.0 == descriptor)) s.callbacks }, [])
register_callback descriptor (some cb) s =
    let entered = record s { callbacks = emplace_callback descriptor cb s.callbacks } in
    let (s', notes) = registered descriptor cb entered in (no_error, s', notes)

-- `cur_state` of the handler, after `UpdateModes`.
abbrev pub state_after : Updated → Connection
state_after u = if nonzero u.ret then unknown_connection else u.connector.state

-- The device of the handler, at a position.
abbrev pub device_at : List DrmDevice → ℕ → Option DrmDevice
device_at [] i = none
device_at (d ∷ ds) zero = some d
device_at (d ∷ ds) (suc i) = device_at ds i

abbrev pub put_device_at : ℕ → DrmDevice → List DrmDevice → List DrmDevice
put_device_at i dev [] = []
put_device_at zero dev (d ∷ ds) = dev ∷ ds
put_device_at (suc i) dev (d ∷ ds) = d ∷ put_device_at i dev ds

abbrev ran : {A W : Type 0} → Option (A × DrmHwcTwo W) → Option (DrmHwcTwo W)
ran none = none
ran (some r) = some r.1

module _ {W : Type 0} (pf : Platform W) where
  -- What the handler does to the display: `displays_.at` throws for a connector without a display.
  change_display : Option ConnectorRes → Option ℕ → Bool → DrmHwcTwo W → Option (DrmHwcTwo W)
  unfolding run_display chose_preferred_config clear_hwc_display
  change_display again none plugged s = none
  change_display again (some display) true s =
      ran (run_display display (chose_preferred_config pf again) s)
  change_display again (some display) false s = ran (run_display display (clear_hwc_display pf) s)

  -- The report, on what has become of the display.
  noted : Option ℕ → Bool → Option (DrmHwcTwo W) → Option (DrmHwcTwo W × List Note)
  unfolding handle_display_hotplug
  noted display plugged none = none
  noted display plugged (some t) =
      some (t, handle_display_hotplug (find_callback 1 t.callbacks) display plugged)

  -- The body of the loop for one connector, on the two answers that the kernel may be asked for.
  unfoldable pub handle_connector :
      ℕ
      → (ℕ → Option ConnectorRes)
      → (ℕ → Option ConnectorRes)
      → DrmConnector
      → DrmDevice
      → DrmHwcTwo W
      → Option (DrmHwcTwo W × List Note)
  unfolding change_display update_modes replace noted
  handle_connector i first again conn dev s =
      let u = update_modes (first conn.id) dev.mode_id conn in
      let s' = record s {
        manager = record s.manager {
          drms =
              put_device_at i
                (record dev {
                  connectors = replace u.connector dev.connectors;
                  mode_id = u.mode_id;
                })
                s.manager.drms;
        };
      } in
      let plugged = is_connected (state_after u) in
      if same_connection (state_after u) conn.state
      then some (s', [])
      else noted conn.display plugged (change_display (again conn.id) conn.display plugged s')

  -- `DrmHotplugHandler::HandleEvent`, over the ids of the connectors of the device at position `i`.
  unfoldable pub handle_event :
      ℕ
      → (ℕ → Option ConnectorRes)
      → (ℕ → Option ConnectorRes)
      → List ℕ
      → DrmHwcTwo W
      → Option (DrmHwcTwo W × List Note)
  unfolding handle_connector
  handle_event i first again [] s = some (s, [])
  handle_event i first again (id ∷ ids) s = follow (device_at s.manager.drms i) λ dev.
      follow (find_if (λ c. c.id == id) dev.connectors) λ conn.
        follow (handle_connector i first again conn dev s)
          λ r. follow (handle_event i first again ids r.0) λ q. some (q.0, r.1 ++ q.1)
