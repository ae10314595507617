-- ===== src/Hwc/Device/Hotplug/Callbacks.antt =====
-- The table of callbacks.
use platform_external_drm_hw.Base.{
  ℕ, Option, none, some, List, [], ◌∷◌, ◌++◌, keep, ◌==◌, ==_iff, not, if◌then◌else◌, ◌≡◌, refl,
  sym, ap, ◌∙◌, arith, Bool-cases, inl, inr,
}
use platform_external_drm_hw.Hwc.Device.{DrmHwcTwo, HwcCallback, find_callback, emplace_callback}
use platform_external_drm_hw.Hwc.Device.Hotplug.{register_callback, registered}

-- The table after a registration: what is there stays.
abbrev pub entered : Option HwcCallback → Option HwcCallback → Option HwcCallback
entered none old = none
entered (some new) none = some new
entered (some new) (some old) = some old

find-append :
    (k j : ℕ) (c : HwcCallback) (cs : List (ℕ × HwcCallback))
    → find_callback k cs ≡ none
    → find_callback j (cs ++ (k, c) ∷ []) ≡ (if k == j then some c else find_callback j cs)
find-append k j c [] absent = ground arith
find-append k j c (x ∷ xs) absent = ground (arith, absent, find-append k j c xs)

find-keep :
    (k j : ℕ) (cs : List (ℕ × HwcCallback))
    → find_callback j (keep (λ c. not (c.0 == k)) cs)
      ≡ (if k == j then none else find_callback j cs)
find-keep k j [] = ground arith
find-keep k j (c ∷ cs) = ground (arith, find-keep k j cs)

find-emplace :
    (k j : ℕ) (c : HwcCallback) (cs : List (ℕ × HwcCallback)) (o : Option HwcCallback)
    → find_callback k cs ≡ o
    → find_callback j (elim o [ none ↦ cs ++ (k, c) ∷ [] | some old ↦ cs ])
      ≡ (if k == j then entered (some c) o else find_callback j cs)
find-emplace k j c cs none at = find-append k j c cs at
find-emplace k j c cs (some old) at = elim (Bool-cases (k == j)) [
  | inl same ↦ rw same (ap (λ x. find_callback x cs) (sym ((==_iff k j).0 same)) ∙ at)
  | inr apart ↦ rw apart refl
]

find-emplaced :
    (k j : ℕ) (c : HwcCallback) (cs : List (ℕ × HwcCallback))
    → find_callback j (emplace_callback k c cs)
      ≡ (if k == j then entered (some c) (find_callback k cs) else find_callback j cs)
unfolding emplace_callback
find-emplaced k j c cs = find-emplace k j c cs (find_callback k cs) refl

module _ {W : Type 0} where
  registered-callbacks :
      (k : ℕ) (cb : HwcCallback) (s : DrmHwcTwo W) → (registered k cb s).0.callbacks ≡ s.callbacks
  unfolding registered
  registered-callbacks k cb s = ground arith

  -- After RegisterCallback the table of callbacks has lost the callback if the function was null, and otherwise has the new one only if there was none before: an old one stays. The other callbacks are as before.
  pub register_callback-callbacks :
      (k : ℕ) (given : Option HwcCallback) (s : DrmHwcTwo W) (j : ℕ)
      → find_callback j (register_callback k given s).1.callbacks ≡ (
          if k == j
          then entered given (find_callback k s.callbacks)
          else find_callback j s.callbacks)
  unfolding register_callback
  register_callback-callbacks k none s j = find-keep k j s.callbacks
  register_callback-callbacks k (some cb) s j =
      ap (find_callback j)
        (registered-callbacks k cb (record s { callbacks = emplace_callback k cb s.callbacks }))
      ∙ find-emplaced k j cb s.callbacks
