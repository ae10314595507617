-- ===== src/Hwc/Device/Creation/Each.antt =====
-- A property that each display has once `DrmHwcTwo::Init` is through.
use platform_external_drm_hw.Base.{
  ℕ, zero, suc, ◌+◌, ℤ, Option, none, some, List, [], ◌∷◌, keep, All-append, Option-cases, inl, inr,
  arith,
}
use platform_external_drm_hw.Drm.Plane.{DrmPlane, get_crtc_supported}
use platform_external_drm_hw.Drm.Connector.{ConnectorRes}
use platform_external_drm_hw.Drm.Device.{DrmDevice, get_crtc_for_display}
use platform_external_drm_hw.Layer.{Importer}
use platform_external_drm_hw.Resources.{ResourceManager, get_drm_device, get_importer}
use platform_external_drm_hw.Hwc.Display.{HwcDisplay, Platform}
use platform_external_drm_hw.Hwc.Device.{
  DrmHwcTwo, Slot, Setup, new_display, emplace_slot, find_slot, run_display,
}
use platform_external_drm_hw.Hwc.Device.Each.{SlotsHave, Each, EachAfter, Loads, run_display-Each}
use platform_external_drm_hw.Hwc.Device.Creation.{
  state_or, init_display, create_found, create_display, create_displays, init_hwc,
}

module _ {W : Type 0} (pf : Platform W) (setup : Setup) (P : HwcDisplay W → Type 0)
    (loads : Loads P) (new : (h : ℕ) (dev : DrmDevice) (w : W) → P (new_display h dev w))
    (inits : (manager : ResourceManager Importer) (answer : Option ConnectorRes)
        (planes : List DrmPlane) (d : HwcDisplay W)
      → P d
      → P (init_display pf setup manager answer planes d).1) where
  emplace_slot-have :
      (slot : Slot W) (ss : List (Slot W))
      → P slot.display
      → SlotsHave P ss
      → SlotsHave P (emplace_slot slot ss)
  unfolding emplace_slot
  emplace_slot-have slot ss has have =
      let put = All-append (λ (s : Slot W). P s.display) ss (slot ∷ []) have (has, tt) in
      elim (Option-cases (find_slot slot.handle ss)) [
        | inl free ↦ rw (free, emplace_slot) put
        | inr (old, taken) ↦ rw (taken, emplace_slot) have
      ]

  state_or-Each :
      {A : Type 0} (s : DrmHwcTwo W) (o : Option (A × DrmHwcTwo W))
      → Each P s
      → EachAfter P o
      → Each P (state_or s o)
  state_or-Each s none each after = each
  state_or-Each s (some r) each after = after

  create_found-Each :
      (answer : Option ConnectorRes) (h : ℕ) (dev : Option DrmDevice) (importer : Option Importer)
      (s : DrmHwcTwo W)
      → Each P s
      → Each P (create_found pf setup answer h dev importer s).1
  unfolding create_found
  create_found-Each answer h none importer s each = each
  create_found-Each answer h (some dev) none s each = each
  create_found-Each answer h (some dev) (some importer) s each =
      let slot : Slot W = record {
        handle = h;
        display = new_display h dev s.world;
        vsync_callback = none;
      } in
      let s' = record s { displays = emplace_slot slot s.displays } in
      let each' = emplace_slot-have slot s.displays (new h dev s.world) each in
      elim (Option-cases (get_crtc_for_display dev (some h))) [
        | inl without ↦ rw (without, create_found) each'
        | inr (crtc, found) ↦
            let planes = keep (λ p. get_crtc_supported p crtc) dev.planes in
            let init = init_display pf setup s.manager answer planes in
            rw (found, create_found)
              (state_or-Each s' (run_display h init s') each' (
                run_display-Each P P (λ d p. p) loads init (inits s.manager answer planes) h s'
                  each'))
      ]

  create_display-Each :
      (answer : Option ConnectorRes) (h : ℕ) (s : DrmHwcTwo W)
      → Each P s
      → Each P (create_display pf setup answer h s).1
  unfolding create_display
  create_display-Each answer h s each =
      create_found-Each answer h (get_drm_device s.manager h) (get_importer s.manager h) s each

  create_displays-Each :
      (answers : ℕ → Option ConnectorRes) (i n : ℕ) (s : DrmHwcTwo W)
      → Each P s
      → Each P (create_displays pf setup answers i n s).1
  unfolding create_displays
  create_displays-Each answers i zero s each = each
  create_displays-Each answers i (suc n) s each =
      let s' = (create_display pf setup (answers i) i s).1 in
      let each' = create_display-Each (answers i) i s each in
      ground (arith, each', create_displays-Each answers (i + 1) n s' each')

  pub init_hwc-Each :
      (answers : ℕ → Option ConnectorRes) (rv : ℤ) (s : DrmHwcTwo W)
      → Each P s
      → Each P (init_hwc pf setup answers rv s).1
  unfolding init_hwc
  init_hwc-Each answers rv s each =
      ground (arith, each, create_displays-Each answers 0 s.manager.num_displays s each)
