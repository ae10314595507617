-- ===== src/Hwc/Device/Hotplug/Each.antt =====
-- A property that the hotplug handler keeps for each display.
use platform_external_drm_hw.Base.{
  ℕ, Bool, true, false, Option, none, some, List, [], ◌∷◌, ◌==◌, find_if, arith, map,
}
use platform_external_drm_hw.Drm.Connector.{DrmConnector, ConnectorRes, update_modes}
use platform_external_drm_hw.Drm.Device.{DrmDevice}
use platform_external_drm_hw.Drm.Device.Writeback.{is_connected, replace, follow}
use platform_external_drm_hw.Hwc.Display.{HwcDisplay, Platform}
use platform_external_drm_hw.Hwc.Device.{
  DrmHwcTwo, run_display, clear_hwc_display, HwcCallback, Slot,
}
use platform_external_drm_hw.Hwc.Device.Each.{
  SlotsHave, Each, EachIn, EachAfter, Loads, run_display-Each,
}
use platform_external_drm_hw.Hwc.Device.Creation.{chose_preferred_config}
use platform_external_drm_hw.Hwc.Device.Hotplug.{
  ran, change_display, noted, state_after, device_at, put_device_at, handle_connector, handle_event,
  register_callback, registered, set_vsync_callback,
}

module _ {W : Type 0} where
  abbrev pub EachNoted : {A : Type 0} → (HwcDisplay W → Type 0) → Option (DrmHwcTwo W × A) → Type 0
  EachNoted P none = Unit
  EachNoted P (some r) = Each P r.0

  ran-Each :
      {A : Type 0} (P : HwcDisplay W → Type 0) (o : Option (A × DrmHwcTwo W))
      → EachAfter P o
      → EachIn P (ran o)
  ran-Each P none h = tt
  ran-Each P (some r) h = h

  noted-Each :
      (P : HwcDisplay W → Type 0) (pf : Platform W) (display : Option ℕ) (plugged : Bool)
      (o : Option (DrmHwcTwo W))
      → EachIn P o
      → EachNoted P (noted pf display plugged o)
  unfolding noted
  noted-Each P pf display plugged none h = tt
  noted-Each P pf display plugged (some t) h = h

  -- Behind a pointer that may be NULL, and behind a step that may throw.
  follow-Each :
      {A B : Type 0} (P : HwcDisplay W → Type 0) (o : Option A) (f : A → Option (DrmHwcTwo W × B))
      → ((a : A) → EachNoted P (f a))
      → EachNoted P (follow o f)
  follow-Each P none f h = tt
  follow-Each P (some a) f h = h a

  follow-noted :
      {A B : Type 0} (P : HwcDisplay W → Type 0) (o : Option (DrmHwcTwo W × A))
      (f : DrmHwcTwo W × A → Option (DrmHwcTwo W × B))
      → EachNoted P o
      → ((r : DrmHwcTwo W × A) → Each P r.0 → EachNoted P (f r))
      → EachNoted P (follow o f)
  follow-noted P none f each h = tt
  follow-noted P (some r) f each h = h r each

module _ {W : Type 0} (pf : Platform W) (P : HwcDisplay W → Type 0) (loads : Loads P)
    (chose : (again : Option ConnectorRes) (d : HwcDisplay W)
      → P d
      → P (chose_preferred_config pf again d).1)
    (clear : (d : HwcDisplay W) → P d → P (clear_hwc_display pf d).1) where
  change_display-Each :
      (again : Option ConnectorRes) (display : Option ℕ) (plugged : Bool) (s : DrmHwcTwo W)
      → Each P s
      → EachIn P (change_display pf again display plugged s)
  unfolding change_display
  change_display-Each again none plugged s h = tt
  change_display-Each again (some display) true s h =
      ran-Each P (run_display display (chose_preferred_config pf again) s) (
        run_display-Each P P (λ d p. p) loads (chose_preferred_config pf again) (chose again)
          display s h)
  change_display-Each again (some display) false s h =
      ran-Each P (run_display display (clear_hwc_display pf) s)
        (run_display-Each P P (λ d p. p) loads (clear_hwc_display pf) clear display s h)

  handle_connector-Each :
      (i : ℕ) (first again : ℕ → Option ConnectorRes) (conn : DrmConnector) (dev : DrmDevice)
      (s : DrmHwcTwo W)
      → Each P s
      → EachNoted P (handle_connector pf i first again conn dev s)
  unfolding handle_connector
  handle_connector-Each i first again conn dev s h =
      let u = update_modes (first conn.id) dev.mode_id conn in
      let s' = record s {
        manager = record s.manager {
          drms =
              put_device_at i
                (record dev {
                  connectors = replace u.connector dev.connectors;
                  mode_id = u.mode_id;
                })
                s.manager.drms;
        };
      } in
      let plugged = is_connected (state_after u) in
      let changed = change_display pf (again conn.id) conn.display plugged s' in
      ground (
        arith,
        h,
        noted-Each P pf conn.display plugged changed
            (change_display-Each (again conn.id) conn.display plugged s' h),
      )

  pub handle_event-Each :
      (i : ℕ) (first again : ℕ → Option ConnectorRes) (ids : List ℕ) (s : DrmHwcTwo W)
      → Each P s
      → EachNoted P (handle_event pf i first again ids s)
  unfolding handle_event
  handle_event-Each i first again [] s h = h
  handle_event-Each i first again (id ∷ ids) s h =
      follow-Each P (device_at s.manager.drms i) _ λ dev.
        follow-Each P (find_if (λ c. c.id == id) dev.connectors) _ λ conn.
          follow-noted P (handle_connector pf i first again conn dev s) _
            (handle_connector-Each i first again conn dev s h)
            λ r each.
              follow-noted P (handle_event pf i first again ids r.0) _
                (handle_event-Each i first again ids r.0 each) λ q each'. each'

module _ {W : Type 0} (P : HwcDisplay W → Type 0) where
  set_vsync_callback-have :
      (cb : HwcCallback) (ss : List (Slot W))
      → SlotsHave P ss
      → SlotsHave P (map (set_vsync_callback cb) ss)
  unfolding set_vsync_callback
  set_vsync_callback-have cb [] h = tt
  set_vsync_callback-have cb (s ∷ ss) h = (h.0, set_vsync_callback-have cb ss h.1)

  pub register_callback-Each :
      (k : ℕ) (given : Option HwcCallback) (s : DrmHwcTwo W)
      → Each P s
      → Each P (register_callback k given s).1
  unfolding register_callback registered
  register_callback-Each k none s h = h
  register_callback-Each k (some cb) s h =
      ground (arith, h, set_vsync_callback-have cb s.displays h)
