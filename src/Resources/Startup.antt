-- ===== src/Resources/Startup.antt =====
-- The search for devices ends at the first that does not open.
use platform_external_drm_hw.Base.{
  ℕ, zero, suc, ◌+◌, ◌<◌, ◌≤◌, ℤ, nonzero, true, false, Option, none, some, ◌≡◌, refl, ap, ◌∙◌, ◌≢◌,
  arith, enodev, failed, Bool-cases, inl, inr, ◌||◌, not, ◌==◌,
}
use platform_external_drm_hw.Drm.Device.{DrmDevice}
use platform_external_drm_hw.Drm.Device.Init.{Card, init}
use platform_external_drm_hw.Resources.{
  ResourceManager, wildcard, add_drm_device, add_all, add_devices, init_manager, finish,
}

init-not_opened : (card : Card) (n : ℕ) → card.opened ≡ false → init card n ≡ failed enodev
unfolding init
init-not_opened card n shut = rw shut refl

module _ {I : Type 0} (create_importer : DrmDevice → Option I) where
  add_drm_device-not_opened :
      (card : Card) (m : ResourceManager I)
      → card.opened ≡ false
      → nonzero (add_drm_device create_importer card m).0 ≡ true
  unfolding add_drm_device
  add_drm_device-not_opened card m shut = rw (init-not_opened card m.num_displays shut) refl

  -- The loop ends at the latest with a device that does not open, and with a code that is not 0.
  add_all-ends :
      (cards : ℕ → Card) (k fuel idx : ℕ) (m : ResourceManager I)
      → idx ≤ k
      → k < fuel + idx
      → (cards k).opened ≡ false
      → (r : ℤ × ResourceManager I) × (add_all create_importer cards fuel idx m ≡ some r)
        × (nonzero r.0 ≡ true)
  unfolding add_all
  add_all-ends cards k zero idx m from within shut = grind (arith, from, within)
  add_all-ends cards k (suc fuel) idx m from within shut =
      let attempt = add_drm_device create_importer (cards idx) m in
      elim (Bool-cases (nonzero attempt.0)) [
        | inl fails ↦ (attempt, rw fails refl, fails)
        | inr works ↦
            let apart : idx ≢ k = λ same. grind (
              arith,
              works,
              add_drm_device-not_opened (cards idx) m (ap (λ i. (cards i).opened) same ∙ shut),
            ) in
            let later : idx + 1 ≤ k = omega (arith, from, apart) in
            rw works
              (add_all-ends cards k fuel (idx + 1) attempt.1 later (omega (arith, within)) shut)
      ]

  finish-displays :
      (module_ret : ℤ) (r : ℤ × ResourceManager I)
      → nonzero r.0 ≡ true
      → let f = finish create_importer module_ret r in
        (nonzero f.0 || not (f.1.num_displays == 0)) ≡ true
  unfolding finish
  finish-displays module_ret (ret, m) fails = ground (arith, fails)

  -- With fuel for the devices up to one that does not open, `Init` on a path with a wildcard returns, and when it returns 0 there is a display.
  pub init_manager-ends :
      (cards : ℕ → Card) (k fuel : ℕ) (module_ret : ℤ) (m : ResourceManager I)
      → k < fuel
      → (cards k).opened ≡ false
      → (r : ℤ × ResourceManager I) × (init_manager create_importer
            (wildcard cards)
            module_ret
            fuel
            m
          ≡ some r)
        × ((nonzero r.0 || not (r.1.num_displays == 0)) ≡ true)
  unfolding init_manager add_devices
  init_manager-ends cards k fuel module_ret m within shut =
      let (r, same, fails) =
        add_all-ends cards k fuel 0 m (omega arith) (omega (arith, within)) shut in
      (
        finish create_importer module_ret r,
        ap (λ o. elim o [ none ↦ none | some r ↦ some (finish create_importer module_ret r) ]) same,
        finish-displays module_ret r fails,
      )
