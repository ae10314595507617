-- ===== src/Drm/Connector/Modes.antt =====
-- What `DrmConnector::UpdateModes` makes of the modes that the kernel lists.
use platform_external_drm_hw.Base.{
  append-nil, append_assoc, ℕ, ◌≤◌, Bool, true, Option, none, some, List, [], ◌∷◌, ◌++◌, ◌≡◌, refl,
  ◌⊎◌, inl, inr, ◌==◌, arith, find_if, count_if, count_if-append, Option-cases, subst, sym,
}
use platform_external_drm_hw.Drm.Mode.{DrmMode, ModeInfo, same_mode, of_mode_info, set_id}
use platform_external_drm_hw.Drm.Connector.{
  DrmConnector, ConnectorRes, ModeScan, add_mode, scan_modes, update_modes, next_mode_id,
  note_preferred, choose_preferred,
}

-- The modes are those of the kernel, one for one.
abbrev pub AreModes : List DrmMode → List ModeInfo → Type 0
AreModes [] [] = Unit
AreModes [] (i ∷ is) = ⊥
AreModes (m ∷ ms) [] = ⊥
AreModes (m ∷ ms) (i ∷ is) = (same_mode m i ≡ true) × AreModes ms is

AreModes-append :
    (ms ns : List DrmMode) (is js : List ModeInfo)
    → AreModes ms is
    → AreModes ns js
    → AreModes (ms ++ ns) (is ++ js)
AreModes-append [] ns [] js h g = g
AreModes-append (m ∷ ms) ns (i ∷ is) js h g = (h.0, AreModes-append ms ns is js h.1 g)
AreModes-append [] ns (i ∷ is) js h g = elim h [ ]
AreModes-append (m ∷ ms) ns [] js h g = elim h [ ]

find_if-passes :
    {A : Type 0} (p : A → Bool) (xs : List A) (x : A) → find_if p xs ≡ some x → p x ≡ true
find_if-passes p [] x found = grind (arith, found)
find_if-passes p (y ∷ ys) x found = grind (arith, find_if-passes p ys x, found)

new_mode-same : (i : ModeInfo) (id : ℕ) → same_mode (set_id (of_mode_info i) id) i ≡ true
unfolding same_mode set_id of_mode_info
new_mode-same i id = ground arith

abbrev pub has_id : ℕ → DrmMode → Bool
has_id id m = m.id == id

-- The preferred mode, if one is noted, is among the modes.
abbrev IsNoted : ModeScan → Type 0
IsNoted s = elim s.preferred [ none ↦ Unit | some id ↦ 1 ≤ count_if (has_id id) s.new_modes ]

add_mode-AreModes :
    (known : List DrmMode) (i : ModeInfo) (done : List ModeInfo) (s : ModeScan)
    → AreModes s.new_modes done
    → AreModes (add_mode (find_if (λ m. same_mode m i) known) i s).new_modes (done ++ i ∷ [])
unfolding add_mode
add_mode-AreModes known i done s h = elim (Option-cases (find_if (λ m. same_mode m i) known)) [
  | inl unknown ↦
      rw unknown (
        AreModes-append s.new_modes _ done (i ∷ []) h
          (new_mode-same i (next_mode_id s.mode_id), tt))
  | inr (m, found) ↦ rw found (
      AreModes-append s.new_modes _ done (i ∷ []) h
        (find_if-passes (λ m. same_mode m i) known m found, tt))
]

note_IsNoted :
    (m : DrmMode) (ms : List DrmMode) (preferred : Option ℕ) (mode_id mode_id' : ℕ)
    → IsNoted (record { new_modes = ms; preferred = preferred; mode_id = mode_id })
    → IsNoted (record {
      new_modes = ms ++ m ∷ [];
      preferred = note_preferred m preferred;
      mode_id = mode_id';
    })
unfolding note_preferred
note_IsNoted m ms none mode_id mode_id' h =
    ground (arith, count_if-append (has_id m.id) ms (m ∷ []))
note_IsNoted m ms (some id) mode_id mode_id' h =
    ground
      (arith, h, count_if-append (has_id m.id) ms (m ∷ []), count_if-append (has_id id) ms (m ∷ []))

add_mode-IsNoted :
    (found : Option DrmMode) (i : ModeInfo) (s : ModeScan)
    → IsNoted s
    → IsNoted (add_mode found i s)
unfolding add_mode
add_mode-IsNoted (some m) i s h = note_IsNoted m s.new_modes s.preferred s.mode_id s.mode_id h
add_mode-IsNoted none i s h =
    note_IsNoted (set_id (of_mode_info i) (next_mode_id s.mode_id)) s.new_modes s.preferred
      s.mode_id (next_mode_id s.mode_id) h

scan_modes-AreModes :
    (known : List DrmMode) (is done : List ModeInfo) (s : ModeScan)
    → AreModes s.new_modes done
    → AreModes (scan_modes known is s).new_modes (done ++ is)
unfolding scan_modes
scan_modes-AreModes known [] done s h = subst (AreModes s.new_modes) (sym (append-nil done)) h
scan_modes-AreModes known (i ∷ is) done s h = subst (AreModes _) (append_assoc done (i ∷ []) is) (
    scan_modes-AreModes known is (done ++ i ∷ [])
      (add_mode (find_if (λ m. same_mode m i) known) i s) (add_mode-AreModes known i done s h))

scan_modes-IsNoted :
    (known : List DrmMode) (is : List ModeInfo) (s : ModeScan)
    → IsNoted s
    → IsNoted (scan_modes known is s)
unfolding scan_modes
scan_modes-IsNoted known [] s h = h
scan_modes-IsNoted known (i ∷ is) s h =
    scan_modes-IsNoted known is (add_mode (find_if (λ m. same_mode m i) known) i s)
      (add_mode-IsNoted (find_if (λ m. same_mode m i) known) i s h)

choose_preferred-has_id :
    (ms : List DrmMode) (preferred : Option ℕ) (mode_id old : ℕ)
    → IsNoted (record { new_modes = ms; preferred = preferred; mode_id = mode_id })
    → (ms ≡ []) ⊎ (1 ≤ count_if (has_id (choose_preferred preferred ms old)) ms)
unfolding choose_preferred
choose_preferred-has_id [] preferred mode_id old h = inl refl
choose_preferred-has_id (m ∷ ms) none mode_id old h = inr (ground arith)
choose_preferred-has_id (m ∷ ms) (some id) mode_id old h = inr h

-- After an update the modes of a connector are those that the kernel lists, in its order and equal to
-- them but for their ids, names and refresh rates, and the preferred mode id is that of one of them if
-- there is any.
pub update_modes-AreModes :
    (c : ConnectorRes) (mode_id : ℕ) (conn : DrmConnector)
    → let updated = (update_modes (some c) mode_id conn).connector in
      AreModes updated.modes c.modes
      × ((updated.modes ≡ []) ⊎ (1 ≤ count_if (has_id updated.preferred_mode_id) updated.modes))
unfolding update_modes
update_modes-AreModes c mode_id conn =
    let start : ModeScan = record { new_modes = []; preferred = none; mode_id = mode_id } in
    let scan = scan_modes conn.modes c.modes start in
    (
      scan_modes-AreModes conn.modes c.modes [] start tt,
      choose_preferred-has_id scan.new_modes scan.preferred scan.mode_id conn.preferred_mode_id
          (scan_modes-IsNoted conn.modes c.modes start tt),
    )
