-- ===== src/Drm/Device/Counting.antt =====
-- How many displays `DrmDevice::Init` numbers, and which of them the device handles.
use platform_external_drm_hw.Base.{
  ℕ, ◌+◌, List, [], ◌∷◌, ◌≡◌, refl, arith, length, count_if, Bool-cases, inl, inr, if◌then◌else◌,
  leb, ◌&&◌, not, ◌==◌, length-append,
}
use platform_external_drm_hw.Drm.Connector.{DrmConnector, internal}
use platform_external_drm_hw.Drm.Device.{
  DrmDevice, handles_display, contains, Numbering, number_displays, number_primary, number_others,
  number_it, pass_it, wants_number,
}
use platform_external_drm_hw.Drm.Device.Displays.{is_key}

number_it-length :
    (c : DrmConnector) (m : Numbering)
    → (number_it c m).num_displays + length m.displays
      ≡ m.num_displays + length (number_it c m).displays
unfolding number_it
number_it-length c m = ground (arith, length-append m.displays (m.num_displays ∷ []))

number_others-length :
    (cs : List DrmConnector) (m : Numbering)
    → (number_others cs m).num_displays + length m.displays
      ≡ m.num_displays + length (number_others cs m).displays
unfolding number_others pass_it
number_others-length [] m = refl
number_others-length (c ∷ cs) m =
    let next = if wants_number c m then number_it c m else pass_it c m in
    let step : next.num_displays + length m.displays ≡ m.num_displays + length next.displays =
      ground (arith, number_it-length c m) in
    omega (arith, number_others-length cs next, step)

number_primary-length :
    (cs : List DrmConnector) (m : Numbering)
    → (number_primary cs m).num_displays + length m.displays
      ≡ m.num_displays + length (number_primary cs m).displays
unfolding number_primary
number_primary-length [] m = refl
number_primary-length (c ∷ cs) m = elim (Bool-cases (internal c.type && not m.found_primary)) [
  | inl w ↦ rw w (number_it-length c m)
  | inr w ↦ rw w (number_primary-length cs (pass_it c m))
]

contains-count_if : (d : ℕ) (ks : List ℕ) → contains d ks ≡ leb 1 (count_if (is_key d) ks)
unfolding contains
contains-count_if d [] = refl
contains-count_if d (k ∷ ks) = ground (arith, contains-count_if d ks)

pub number_displays-length :
    (n : ℕ) (conns : List DrmConnector)
    → let r = number_displays n conns in r.num_displays ≡ n + length r.displays
unfolding number_displays
number_displays-length n conns =
    let start : Numbering = record {
      num_displays = n;
      found_primary = not (n == 0);
      displays = [];
      connectors = [];
    } in
    let first = number_primary conns start in
    omega (
      arith,
      number_primary-length conns start,
      number_others-length first.connectors (record first { connectors = [] }),
    )

pub handles_display-count :
    (dev : DrmDevice) (d : ℕ) → handles_display dev d ≡ leb 1 (count_if (is_key d) dev.displays)
unfolding handles_display
handles_display-count dev d = contains-count_if d dev.displays
