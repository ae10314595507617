-- ===== src/Hwc/Device/Hotplug/Changes.antt =====
-- What the hotplug handler reports.
use mathlib.Core.Option.{some-injective}
use platform_external_drm_hw.Base.{
  ℕ, zero, suc, Bool, true, false, Option, none, some, List, [], ◌∷◌, if◌then◌else◌, ◌≡◌, refl, sym,
  ap, ◌∙◌, arith, find_if, Bool-cases, inl, inr,
}
use platform_external_drm_hw.Drm.Connector.{
  DrmConnector, ConnectorRes, Connection, unknown_connection, update_modes,
}
use platform_external_drm_hw.Drm.Device.{DrmDevice, handles_display}
use platform_external_drm_hw.Drm.Device.Writeback.{is_connected, is_some, replace}
use platform_external_drm_hw.Resources.{get_drm_device}
use platform_external_drm_hw.Hwc.Display.{HwcDisplay, Platform}
use platform_external_drm_hw.Hwc.Device.Creation.{chose_preferred_config}
use platform_external_drm_hw.Hwc.Device.{
  DrmHwcTwo, HwcCallback, Note, Slot, find_callback, run_display, run_on, find_slot,
  clear_hwc_display,
}
use platform_external_drm_hw.Hwc.Device.Hotplug.{
  handle_connector, change_display, noted, same_connection, state_after, device_at, put_device_at,
  handle_display_hotplug, ran,
}

-- The state that the kernel's answer stands for.
abbrev pub answered : Option ConnectorRes → Connection
answered none = unknown_connection
answered (some r) = r.connection

state_after-answered :
    (answer : Option ConnectorRes) (mode_id : ℕ) (conn : DrmConnector)
    → state_after (update_modes answer mode_id conn) ≡ answered answer
unfolding update_modes
state_after-answered none mode_id conn = refl
state_after-answered (some r) mode_id conn = refl

-- The report about one connector.
abbrev pub report : HwcCallback → Connection → DrmConnector → List Note
report cb now conn =
    if same_connection now conn.state
    then []
    else record { callback = cb; display = conn.display; plugged = is_connected now } ∷ []

-- A device that is replaced by one with the same displays.
device_of-put :
    (ds : List DrmDevice) (i : ℕ) (dev new : DrmDevice) (d : ℕ)
    → device_at ds i ≡ some dev
    → new.displays ≡ dev.displays
    → is_some (find_if (λ x. handles_display x d) (put_device_at i new ds))
      ≡ is_some (find_if (λ x. handles_display x d) ds)
unfolding handles_display
device_of-put [] i dev new d at same = refl
device_of-put (x ∷ xs) zero dev new d at same =
    let its : new.displays ≡ x.displays =
      same ∙ ap (λ y. y.displays) (sym (some-injective x dev at)) in
    let alike : handles_display new d ≡ handles_display x d =
      ap (λ ks. handles_display (record x { displays = ks }) d) its in
    ground (arith, alike)
device_of-put (x ∷ xs) (suc i) dev new d at same =
    ground (arith, device_of-put xs i dev new d at same)

module _ {W : Type 0} (pf : Platform W) where
  run_on-callbacks :
      {A : Type 0}
      → (h : ℕ) (f : HwcDisplay W → A × HwcDisplay W) (s t : DrmHwcTwo W) (slot : Option (Slot W))
        (dev : Option DrmDevice)
      → ran (run_on h f s slot dev) ≡ some t
      → t.callbacks ≡ s.callbacks
  unfolding run_on
  run_on-callbacks h f s t none dev e = grind (arith, e)
  run_on-callbacks h f s t (some slot) none e = grind (arith, e)
  run_on-callbacks h f s t (some slot) (some dev) e =
      sym (ap (λ x. x.callbacks) (some-injective _ t e))

  change_display-callbacks :
      (again : Option ConnectorRes) (display : Option ℕ) (plugged : Bool) (s t : DrmHwcTwo W)
      → change_display pf again display plugged s ≡ some t
      → t.callbacks ≡ s.callbacks
  unfolding change_display run_display
  change_display-callbacks again none plugged s t e = grind (arith, e)
  change_display-callbacks again (some display) true s t e =
      run_on-callbacks display (chose_preferred_config pf again) s t (find_slot display s.displays)
        (get_drm_device s.manager display) e
  change_display-callbacks again (some display) false s t e =
      run_on-callbacks display (clear_hwc_display pf) s t (find_slot display s.displays)
        (get_drm_device s.manager display) e

  noted-report :
      (conn : DrmConnector) (now : Connection) (s t : DrmHwcTwo W) (o : Option (DrmHwcTwo W))
      (notes : List Note) (cb : HwcCallback)
      → find_callback 1 s.callbacks ≡ some cb
      → ((u : DrmHwcTwo W) → o ≡ some u → u.callbacks ≡ s.callbacks)
      → same_connection now conn.state ≡ false
      → noted pf conn.display (is_connected now) o ≡ some (t, notes)
      → (notes ≡ report cb now conn) × (t.callbacks ≡ s.callbacks)
  unfolding noted handle_display_hotplug
  noted-report conn now s t none notes cb there kept changed e = grind (arith, e)
  noted-report conn now s t (some u) notes cb there kept changed e =
      let pair =
        some-injective
          (u, handle_display_hotplug (find_callback 1 u.callbacks) conn.display (is_connected now))
          (t, notes) e in
      let its = ap (find_callback 1) (kept u refl) ∙ there in
      (
        sym (ap (λ r. r.1) pair)
            ∙ ap (λ o. handle_display_hotplug o conn.display (is_connected now)) its
            ∙ rw changed refl,
        sym (ap (λ r. r.0.callbacks) pair) ∙ kept u refl,
      )

  decided-report :
      (conn : DrmConnector) (now : Connection) (s t : DrmHwcTwo W) (o : Option (DrmHwcTwo W))
      (notes : List Note) (cb : HwcCallback)
      → find_callback 1 s.callbacks ≡ some cb
      → ((u : DrmHwcTwo W) → o ≡ some u → u.callbacks ≡ s.callbacks)
      → (if same_connection now conn.state
          then some (s, [])
          else noted pf conn.display (is_connected now) o)
        ≡ some (t, notes)
      → (notes ≡ report cb now conn) × (t.callbacks ≡ s.callbacks)
  decided-report conn now s t o notes cb there kept e =
      let goes : Bool → Option (DrmHwcTwo W × List Note) =
        λ b. if b then some (s, []) else noted pf conn.display (is_connected now) o in
      elim (Bool-cases (same_connection now conn.state)) [
        | inl same ↦
            let pair = some-injective (s, []) (t, notes) (ap goes (sym same) ∙ e) in
            (sym (ap (λ r. r.1) pair) ∙ rw same refl, sym (ap (λ r. r.0.callbacks) pair))
        | inr changed ↦
            noted-report conn now s t o notes cb there kept changed (ap goes (sym changed) ∙ e)
      ]

  given-report :
      (i : ℕ) (first again : ℕ → Option ConnectorRes) (conn : DrmConnector) (dev : DrmDevice)
      (s t : DrmHwcTwo W) (notes : List Note) (cb : HwcCallback)
      → find_callback 1 s.callbacks ≡ some cb
      → handle_connector pf i first again conn dev s ≡ some (t, notes)
      → (notes ≡ report cb (answered (first conn.id)) conn) × (t.callbacks ≡ s.callbacks)
  unfolding handle_connector handle_display_hotplug
  given-report i first again conn dev s t notes cb there e =
      let now = state_after-answered (first conn.id) dev.mode_id conn in
      let updated = update_modes (first conn.id) dev.mode_id conn in
      let (reported, kept) =
        decided-report conn (state_after updated) _ t
          (change_display pf (again conn.id) conn.display (is_connected (state_after updated)) _)
          notes cb there
          (λ u.
            change_display-callbacks (again conn.id) conn.display
              (is_connected (state_after updated)) _ u)
          e in
      (reported ∙ ap (λ x. report cb x conn) now, kept)

  run_on-returns :
      {A : Type 0}
      → (h : ℕ) (f : HwcDisplay W → A × HwcDisplay W) (s : DrmHwcTwo W) (slot : Option (Slot W))
        (dev : Option DrmDevice)
      → is_some slot ≡ true
      → is_some dev ≡ true
      → (t : DrmHwcTwo W) × (ran (run_on h f s slot dev) ≡ some t)
  unfolding run_on
  run_on-returns h f s none dev there its = grind (arith, there)
  run_on-returns h f s (some slot) none there its = grind (arith, its)
  run_on-returns h f s (some slot) (some dev) there its = (_, refl)

  change_display-returns :
      (again : Option ConnectorRes) (d : ℕ) (plugged : Bool) (s : DrmHwcTwo W)
      → is_some (find_slot d s.displays) ≡ true
      → is_some (get_drm_device s.manager d) ≡ true
      → (t : DrmHwcTwo W) × (change_display pf again (some d) plugged s ≡ some t)
  unfolding change_display run_display
  change_display-returns again d true s there its =
      run_on-returns d (chose_preferred_config pf again) s (find_slot d s.displays)
        (get_drm_device s.manager d) there its
  change_display-returns again d false s there its =
      run_on-returns d (clear_hwc_display pf) s (find_slot d s.displays)
        (get_drm_device s.manager d) there its

  decided-returns :
      (now old : Connection) (display : Option ℕ) (s t : DrmHwcTwo W) (o : Option (DrmHwcTwo W))
      → o ≡ some t
      → (r : DrmHwcTwo W × List Note) × ((if same_connection now old
            then some (s, [])
            else noted pf display (is_connected now) o)
          ≡ some r)
  unfolding noted
  decided-returns now old display s t o its = elim (Bool-cases (same_connection now old)) [
    | inl same ↦ ((s, []), rw same refl)
    | inr changed ↦ (
      (t, handle_display_hotplug (find_callback 1 t.callbacks) display (is_connected now)),
      rw (changed, its) refl,
    )
  ]

  -- If the connector has a display that is there, with its device, the handler gets through with the connector. It has then called the hotplug callback that is registered exactly if the state that the kernel answers, or Unknown for no answer, is another than before; once, with the connector's display, and as plugged exactly if the new state is Connected. The callbacks stay.
  pub handle_connector-report :
      (i : ℕ) (first again : ℕ → Option ConnectorRes) (conn : DrmConnector) (dev : DrmDevice)
      (s : DrmHwcTwo W) (cb : HwcCallback) (d : ℕ)
      → find_callback 1 s.callbacks ≡ some cb
      → device_at s.manager.drms i ≡ some dev
      → conn.display ≡ some d
      → is_some (find_slot d s.displays) ≡ true
      → is_some (get_drm_device s.manager d) ≡ true
      → (t : DrmHwcTwo W) × (notes : List Note) × (handle_connector pf i first again conn dev s
          ≡ some (t, notes))
        × (notes ≡ report cb (answered (first conn.id)) conn)
        × (t.callbacks ≡ s.callbacks)
  unfolding handle_connector get_drm_device replace
  handle_connector-report i first again conn dev s cb d there at its shown owned =
      let updated = update_modes (first conn.id) dev.mode_id conn in
      let dev' = record dev {
        connectors = replace updated.connector dev.connectors;
        mode_id = updated.mode_id;
      } in
      let s' = record s {
        manager = record s.manager { drms = put_device_at i dev' s.manager.drms };
      } in
      let now = state_after updated in
      let (u, changes) =
        change_display-returns (again conn.id) d (is_connected now) s' shown
          (device_of-put s.manager.drms i dev dev' d at refl ∙ owned) in
      let (r, runs) =
        decided-returns now conn.state conn.display s' u
          (change_display pf (again conn.id) conn.display (is_connected now) s')
          (ap (λ o. change_display pf (again conn.id) o (is_connected now) s') its ∙ changes) in
      let (reported, kept) = given-report i first again conn dev s r.0 r.1 cb there runs in
      (r.0, r.1, runs, reported, kept)
