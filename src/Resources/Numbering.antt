-- ===== src/Resources/Numbering.antt =====
-- Each display belongs to one device.
use mathlib.Core.Option.{some-injective}
use platform_external_drm_hw.Base.{
  ℕ, zero, suc, ◌+◌, Option, none, some, List, [], ◌∷◌, ◌++◌, ◌≡◌, refl, arith, Result, done,
  failed, length, count_if, length-append, ℤ, Bool-cases, nonzero, inl, subst, inr, true, sym,
  false, ◌∙◌, leb, find_if, ltb,
}
use platform_external_drm_hw.Drm.Device.{DrmDevice, handles_display}
use platform_external_drm_hw.Drm.Device.Displays.{is_key, in_window}
use platform_external_drm_hw.Drm.Device.Writeback.{is_some}
use platform_external_drm_hw.Drm.Device.Init.{Card, Opened, init}
use platform_external_drm_hw.Drm.Device.Init.Served.{init-window}
use platform_external_drm_hw.Resources.{
  ResourceManager, add_drm_device, add_result, add_all, finish, new_manager, init_manager,
  add_devices, Devices, single, wildcard, add_opened, get_drm_device, importer_at, get_importer,
}
use platform_external_drm_hw.Drm.Device.Counting.{handles_display-count}

-- What the constructor and `AddDrmDevice` keep: the displays below the count are each handled by one
-- device, the others by none, and each device has its importer.
abbrev pub count_in : ℕ → List DrmDevice → ℕ
count_in d [] = 0
count_in d (dev ∷ devs) = count_if (is_key d) dev.displays + count_in d devs

count_in-append :
    (d : ℕ) (xs ys : List DrmDevice) → count_in d (xs ++ ys) ≡ count_in d xs + count_in d ys
count_in-append d [] ys = omega arith
count_in-append d (x ∷ xs) ys = omega (arith, count_in-append d xs ys)

module _ {I : Type 0} where
  pub record IsNumbered (m : ResourceManager I) : Type 0 where
    pub once : (d : ℕ) → count_in d m.drms ≡ in_window 0 m.num_displays d
    pub paired : length m.importers ≡ length m.drms

  add_opened-IsNumbered :
      (create_importer : DrmDevice → Option I) (o : Option I) (dev : DrmDevice)
      (m : ResourceManager I)
      → ((d : ℕ)
          → count_if (is_key d) dev.displays
            ≡ in_window m.num_displays (m.num_displays + length dev.displays) d)
      → IsNumbered m
      → IsNumbered (add_opened create_importer o dev m).1
  unfolding add_opened
  add_opened-IsNumbered create_importer none dev m window g = g
  add_opened-IsNumbered create_importer (some i) dev m window g = record {
    once = λ d. ground (arith, window d, g.once d, count_in-append d m.drms (dev ∷ []));
    paired =
        omega
          (arith, g.paired, length-append m.importers (i ∷ []), length-append m.drms (dev ∷ []));
  }

  add_result-IsNumbered :
      (create_importer : DrmDevice → Option I) (card : Card) (r : Result Opened)
      (m : ResourceManager I)
      → init card m.num_displays ≡ r
      → IsNumbered m
      → IsNumbered (add_result create_importer r m).1
  unfolding add_result
  add_result-IsNumbered create_importer card (failed ret) m opening g = g
  add_result-IsNumbered create_importer card (done o) m opening g =
      add_opened-IsNumbered create_importer (create_importer o.device) o.device m
        (init-window card m.num_displays o opening) g

  add_drm_device-IsNumbered :
      (create_importer : DrmDevice → Option I) (card : Card) (m : ResourceManager I)
      → IsNumbered m
      → IsNumbered (add_drm_device create_importer card m).1
  unfolding add_drm_device
  add_drm_device-IsNumbered create_importer card m g =
      add_result-IsNumbered create_importer card (init card m.num_displays) m refl g

  ended :
      (create_importer : DrmDevice → Option I) (cards : ℕ → Card) (fuel idx : ℕ)
      (m : ResourceManager I)
      → nonzero (add_drm_device create_importer (cards idx) m).0 ≡ true
      → add_all create_importer cards (suc fuel) idx m
        ≡ some (add_drm_device create_importer (cards idx) m)
  unfolding add_all
  ended create_importer cards fuel idx m fails = rw fails refl

  goes_on :
      (create_importer : DrmDevice → Option I) (cards : ℕ → Card) (fuel idx : ℕ)
      (m : ResourceManager I)
      → nonzero (add_drm_device create_importer (cards idx) m).0 ≡ false
      → add_all create_importer cards (suc fuel) idx m
        ≡ add_all create_importer cards fuel
            (idx + 1)
            (add_drm_device create_importer (cards idx) m).1
  unfolding add_all
  goes_on create_importer cards fuel idx m works = rw works refl

  add_all-IsNumbered :
      (create_importer : DrmDevice → Option I) (cards : ℕ → Card) (fuel idx : ℕ)
      (m : ResourceManager I) (r : ℤ × ResourceManager I)
      → add_all create_importer cards fuel idx m ≡ some r
      → IsNumbered m
      → IsNumbered r.1
  unfolding add_all
  add_all-IsNumbered create_importer cards zero idx m r e g = grind (arith, e)
  add_all-IsNumbered create_importer cards (suc fuel) idx m r e g =
      let next = add_drm_device create_importer (cards idx) m in
      let h = add_drm_device-IsNumbered create_importer (cards idx) m g in
      elim (Bool-cases (nonzero next.0)) [
        | inl fails ↦
            subst (λ x. IsNumbered x.1)
              (some-injective next r (sym (ended create_importer cards fuel idx m fails) ∙ e)) h
        | inr works ↦
            add_all-IsNumbered create_importer cards fuel (idx + 1) next.1 r
              (sym (goes_on create_importer cards fuel idx m works) ∙ e) h
      ]

  finish-IsNumbered :
      (create_importer : DrmDevice → Option I) (module_ret : ℤ) (r : ℤ × ResourceManager I)
      → IsNumbered r.1
      → IsNumbered (finish create_importer module_ret r).1
  unfolding finish
  finish-IsNumbered create_importer module_ret (ret, m) g = ground (arith, g)

-- The manager that `Init` starts from has no device.
start-IsNumbered : {I : Type 0} → IsNumbered (new_manager {I = I})
start-IsNumbered = record { once = λ d. ground arith; paired = refl }

module _ {I : Type 0} (create_importer : DrmDevice → Option I) where
  add_devices-IsNumbered :
      (devices : Devices) (fuel : ℕ) (m : ResourceManager I) (r : ℤ × ResourceManager I)
      → add_devices create_importer devices fuel m ≡ some r
      → IsNumbered m
      → IsNumbered r.1
  unfolding add_devices
  add_devices-IsNumbered (single card) fuel m r e g =
      subst (λ x. IsNumbered x.1) (some-injective (add_drm_device create_importer card m) r e)
        (add_drm_device-IsNumbered create_importer card m g)
  add_devices-IsNumbered (wildcard cards) fuel m r e g =
      add_all-IsNumbered create_importer cards fuel 0 m r e g

  finished :
      (devices : Devices) (module_ret : ℤ) (fuel : ℕ) (r : ℤ × ResourceManager I)
      (o : Option (ℤ × ResourceManager I))
      → add_devices create_importer devices fuel new_manager ≡ o
      → elim o [ none ↦ none | some r ↦ some (finish create_importer module_ret r) ] ≡ some r
      → IsNumbered r.1
  finished devices module_ret fuel r none at e = grind (arith, e)
  finished devices module_ret fuel r (some q) at e =
      subst (λ x. IsNumbered x.1) (some-injective (finish create_importer module_ret q) r e)
        (finish-IsNumbered create_importer module_ret q
          (add_devices-IsNumbered devices fuel new_manager q at start-IsNumbered))

  -- After `Init` has returned, whatever its code and whatever devices there were, each display below the count is handled by one device and once, no device handles another, and each device has an importer.
  pub init_manager-IsNumbered :
      (devices : Devices) (module_ret : ℤ) (fuel : ℕ) (r : ℤ × ResourceManager I)
      → init_manager create_importer devices module_ret fuel new_manager ≡ some r
      → IsNumbered r.1
  unfolding init_manager
  init_manager-IsNumbered devices module_ret fuel r e =
      finished devices module_ret fuel r (add_devices create_importer devices fuel new_manager) refl
        e

-- The number of devices that handle a display decides whether one is found.
find-count :
    (devs : List DrmDevice) (d : ℕ)
    → is_some (find_if (λ x. handles_display x d) devs) ≡ leb 1 (count_in d devs)
find-count [] d = refl
find-count (x ∷ xs) d = ground (arith, handles_display-count x d, find-count xs d)

importer-count :
    {I : Type 0}
    → (devs : List DrmDevice) (is : List I) (d : ℕ) → length is ≡ length devs
    → is_some (importer_at devs is d) ≡ leb 1 (count_in d devs)
unfolding importer_at
importer-count [] is d e = refl
importer-count (x ∷ xs) [] d e = grind (arith, e)
importer-count (x ∷ xs) (i ∷ is) d e =
    ground (arith, e, handles_display-count x d, importer-count xs is d)

-- In a numbered manager, a device and an importer are found for the displays below the count, and for no others.
pub get_drm_device_lem :
    {I : Type 0}
    → (m : ResourceManager I) → IsNumbered m
    → (d : ℕ)
    → (is_some (get_drm_device m d) ≡ ltb d m.num_displays)
      × (is_some (get_importer m d) ≡ ltb d m.num_displays)
unfolding get_drm_device get_importer
get_drm_device_lem m g d = (
  ground (arith, find-count m.drms d, g.once d),
  ground (arith, importer-count m.drms m.importers d g.paired, g.once d),
)
