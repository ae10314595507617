-- ===== src/Drm/Device/Displays.antt =====
-- The display numbers that `DrmDevice::Init` gives to the connectors.
use platform_external_drm_hw.Base.{
  ℕ, ◌+◌, ◌≤◌, Bool, none, some, List, [], ◌∷◌, ◌≡◌, ◌&&◌, leb, ltb, if◌then◌else◌, count_if,
  count_if-append, arith, inl, true, ◌⊎◌, All, Bool-cases, inr, not, All-append, count_if-eq_zero,
  refl, ◌++◌, All-imp, false, ◌==◌,
}
use platform_external_drm_hw.Drm.Crtc.{same_id}
use platform_external_drm_hw.Drm.Connector.{DrmConnector, internal}
use platform_external_drm_hw.Drm.Device.{
  Numbering, number_it, pass_it, number_others, number_primary, wants_number, number_displays,
}

abbrev pub shows : ℕ → DrmConnector → Bool
shows d c = same_id c.display (some d)

abbrev pub Unnumbered : DrmConnector → Type 0
Unnumbered c = c.display ≡ none

abbrev pub is_key : ℕ → ℕ → Bool
is_key d k = k == d

-- 1 for the display numbers from `n` up to and without `m`, and 0 for others.
abbrev pub in_window : ℕ → ℕ → ℕ → ℕ
in_window n m d = if leb n d && ltb d m then 1 else 0

in_window-add_one :
    (n d m : ℕ) → n ≤ m → in_window n (m + 1) d ≡ in_window n m d + (if m == d then 1 else 0)
in_window-add_one n d m h = ground arith

module _ (n d : ℕ) where
  -- The connectors passed and to come, together, show the numbers given so far, each once.
  record Gives (m : Numbering) (cs : List DrmConnector) : Type 0 where
    from : n ≤ m.num_displays
    once : count_if (shows d) m.connectors + count_if (shows d) cs ≡ in_window n m.num_displays d
    keys : count_if (is_key d) m.displays ≡ in_window n m.num_displays d

  number_it-Gives :
      (c : DrmConnector) (cs : List DrmConnector) (m : Numbering)
      → Unnumbered c
      → Gives m (c ∷ cs)
      → Gives (number_it c m) cs
  unfolding number_it
  number_it-Gives c cs m u g = record {
    from = omega (arith, g.from);
    once = ground (
      arith,
      g.from,
      g.once,
      in_window-add_one n d m.num_displays,
      count_if-append (shows d) m.connectors (record c { display = some m.num_displays } ∷ []),
    );
    keys = ground (
      arith,
      g.from,
      g.keys,
      in_window-add_one n d m.num_displays,
      count_if-append (is_key d) m.displays (m.num_displays ∷ []),
    );
  }

  pass_it-Gives :
      (c : DrmConnector) (cs : List DrmConnector) (m : Numbering)
      → Gives m (c ∷ cs)
      → Gives (pass_it c m) cs
  unfolding pass_it
  pass_it-Gives c cs m g = ground (arith, count_if-append (shows d) m.connectors (c ∷ []))

joined-Gives :
    (n d : ℕ) (m : Numbering) (cs : List DrmConnector)
    → Gives n d m cs
    → Gives n d (record m { connectors = m.connectors ++ cs }) []
joined-Gives n d m cs g = ground (arith, count_if-append (shows d) m.connectors cs)

-- Once there is a primary display, or as long as no connector has a number.
abbrev Ready : Numbering → List DrmConnector → Type 0
Ready m cs = (m.found_primary ≡ true) ⊎ All Unnumbered cs

wanted-Unnumbered :
    (c : DrmConnector) (cs : List DrmConnector) (m : Numbering)
    → Ready m (c ∷ cs)
    → wants_number c m ≡ true
    → Unnumbered c
wanted-Unnumbered c cs m r w = ground arith

Ready-pass :
    (c : DrmConnector) (cs : List DrmConnector) (m : Numbering)
    → Ready m (c ∷ cs)
    → Ready (pass_it c m) cs
unfolding pass_it
Ready-pass c cs m (inl found) = inl found
Ready-pass c cs m (inr none_yet) = inr none_yet.1

ready_after :
    (c : DrmConnector) (m : Numbering)
    → Unnumbered c
    → (m.found_primary ≡ true) ⊎ All Unnumbered m.connectors
    → ((pass_it c m).found_primary ≡ true) ⊎ All Unnumbered (pass_it c m).connectors
unfolding pass_it
ready_after c m u (inl found) = inl found
ready_after c m u (inr none_yet) =
    inr (All-append Unnumbered m.connectors (c ∷ []) none_yet (u, tt))

module _ (n d : ℕ) where
  number_others-Gives :
      (cs : List DrmConnector) (m : Numbering)
      → Ready m cs
      → Gives n d m cs
      → Gives n d (number_others cs m) []
  unfolding number_others
  number_others-Gives [] m r g = g
  number_others-Gives (c ∷ cs) m r g = elim (Bool-cases (wants_number c m)) [
    | inl w ↦ rw w (
        number_others-Gives cs (number_it c m) (inl (unfold number_it in refl))
          (number_it-Gives n d c cs m (wanted-Unnumbered c cs m r w) g))
    | inr w ↦
        rw w
          (number_others-Gives cs (pass_it c m) (Ready-pass c cs m r) (pass_it-Gives n d c cs m g))
  ]

  number_primary-Gives :
      (cs : List DrmConnector) (m : Numbering)
      → All Unnumbered cs
      → (m.found_primary ≡ true) ⊎ All Unnumbered m.connectors
      → Gives n d m cs
      → let r = number_primary cs m in
        Gives n d r [] × ((r.found_primary ≡ true) ⊎ All Unnumbered r.connectors)
  unfolding number_primary
  number_primary-Gives [] m u r g = (g, r)
  number_primary-Gives (c ∷ cs) m u r g =
      elim (Bool-cases (internal c.type && not m.found_primary)) [
        | inl w ↦
            rw w (joined-Gives n d (number_it c m) cs (number_it-Gives n d c cs m u.0 g), inl refl)
        | inr w ↦ rw w (
            number_primary-Gives cs (pass_it c m) u.1 (ready_after c m u.0 r)
              (pass_it-Gives n d c cs m g))
      ]

-- What the second loop starts from.
restarted : Numbering → Numbering
restarted m = record m { connectors = [] }

restarted-Gives : (n d : ℕ) (m : Numbering) → Gives n d m [] → Gives n d (restarted m) m.connectors
unfolding restarted
restarted-Gives n d m g = ground arith

start-Gives :
    (n d : ℕ) (conns : List DrmConnector) (b : Bool)
    → All Unnumbered conns
    → Gives n d
        (record { num_displays = n; found_primary = b; displays = []; connectors = [] })
        conns
start-Gives n d conns b u = ground (
  arith,
  count_if-eq_zero (shows d) conns
      (All-imp Unnumbered (λ c. shows d c ≡ false) conns (λ c e. rw e) u),
)

-- `Init` numbers the displays of a device from the count `n` of those found before: each number from
-- `n` up to, and without, the new count is the display of one connector and a key of `displays_` once;
-- no other number is either. The connectors come without a display.
pub number_displays_lem :
    (n : ℕ) (conns : List DrmConnector)
    → All Unnumbered conns
    → (d : ℕ)
    → let r = number_displays n conns in
      (n ≤ r.num_displays)
      × (count_if (shows d) r.connectors ≡ in_window n r.num_displays d)
      × (count_if (is_key d) r.displays ≡ in_window n r.num_displays d)
unfolding number_displays restarted
number_displays_lem n conns u d =
    let m =
      number_primary conns (record {
        num_displays = n;
        found_primary = not (n == 0);
        displays = [];
        connectors = [];
      }) in
    let (g, ready) = number_primary-Gives n d conns _ u (inr tt) (start-Gives n d conns _ u) in
    let h = number_others-Gives n d m.connectors (restarted m) ready (restarted-Gives n d m g) in
    (h.from, omega (arith, h.once), h.keys)
