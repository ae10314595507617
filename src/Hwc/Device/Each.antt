-- ===== src/Hwc/Device/Each.antt =====
-- A property that each display of the device has, and calls on one display.
use platform_external_drm_hw.Base.{ℕ, Option, none, some, List, [], ◌∷◌, All, arith}
use platform_external_drm_hw.Drm.Device.{DrmDevice}
use platform_external_drm_hw.Resources.{get_drm_device}
use platform_external_drm_hw.Hwc.Display.{HwcDisplay}
use platform_external_drm_hw.Hwc.Device.{
  DrmHwcTwo, Slot, load, find_slot, put_slot, run_on, run_display,
}

module _ {W : Type 0} where
  abbrev pub SlotsHave : (HwcDisplay W → Type 0) → List (Slot W) → Type 0
  SlotsHave P = All λ s. P s.display

  abbrev pub Each : (HwcDisplay W → Type 0) → DrmHwcTwo W → Type 0
  Each P s = SlotsHave P s.displays

  abbrev pub EachIn : (HwcDisplay W → Type 0) → Option (DrmHwcTwo W) → Type 0
  EachIn P none = Unit
  EachIn P (some s) = Each P s

  -- Where a call has not thrown.
  abbrev pub EachAfter : {A : Type 0} → (HwcDisplay W → Type 0) → Option (A × DrmHwcTwo W) → Type 0
  EachAfter P none = Unit
  EachAfter P (some r) = Each P r.1

  -- The property does not look at the device and the world, which are put in and taken out.
  abbrev pub Loads : (HwcDisplay W → Type 0) → Type 0
  Loads P = (dev : DrmDevice) (w : W) (d : HwcDisplay W) → P d → P (load dev w d)

  abbrev FoundHas : (HwcDisplay W → Type 0) → Option (Slot W) → Type 0
  FoundHas P none = Unit
  FoundHas P (some s) = P s.display

module _ {W : Type 0} (P Q : HwcDisplay W → Type 0) (weaken : (d : HwcDisplay W) → P d → Q d)
    (loads : Loads P) where
  find_slot-has : (h : ℕ) (ss : List (Slot W)) → SlotsHave P ss → FoundHas P (find_slot h ss)
  unfolding find_slot
  find_slot-has h [] have = tt
  find_slot-has h (s ∷ ss) have = ground (arith, have, find_slot-has h ss have.1)

  put_slot-have :
      (slot : Slot W) (ss : List (Slot W))
      → Q slot.display
      → SlotsHave P ss
      → SlotsHave Q (put_slot slot ss)
  unfolding put_slot
  put_slot-have slot [] has have = tt
  put_slot-have slot (s ∷ ss) has have =
      ground (arith, has, weaken s.display have.0, put_slot-have slot ss has have.1)

  module _ {A : Type 0} (f : HwcDisplay W → A × HwcDisplay W)
      (keeps : (d : HwcDisplay W) → P d → Q (f d).1) where
    run_on-Each :
        (h : ℕ) (s : DrmHwcTwo W) (slot : Option (Slot W)) (dev : Option DrmDevice)
        → Each P s
        → FoundHas P slot
        → EachAfter Q (run_on h f s slot dev)
    unfolding run_on
    run_on-Each h s none dev each has = tt
    run_on-Each h s (some slot) none each has = tt
    run_on-Each h s (some slot) (some dev) each has =
        let d = (f (load dev s.world slot.display)).1 in
        put_slot-have (record slot { display = d }) s.displays
          (keeps (load dev s.world slot.display) (loads dev s.world slot.display has)) each

    pub run_display-Each : (h : ℕ) (s : DrmHwcTwo W) → Each P s → EachAfter Q (run_display h f s)
    unfolding run_display
    run_display-Each h s each =
        run_on-Each h s (find_slot h s.displays) (get_drm_device s.manager h) each
          (find_slot-has h s.displays each)
