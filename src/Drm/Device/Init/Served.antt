-- ===== src/Drm/Device/Init/Served.antt =====
-- The displays that an opened device handles.
use platform_external_drm_hw.Base.{
  ℕ, ◌≤◌, Bool, true, false, Option, some, List, [], ◌∷◌, ◌≡◌, sym, ◌∙◌, ap, subst, ◌==◌, arith,
  find_if, after_done, done, failed, check, done-injective, All, count_if, length, map, enodev,
  enoent, if◌then◌else◌, refl, ◌+◌,
}
use platform_external_drm_hw.Drm.Crtc.{DrmCrtc, DrmEncoder, same_id}
use platform_external_drm_hw.Drm.Plane.{ObjectProperties, required}
use platform_external_drm_hw.Drm.Objects.{
  ConnectorInfo, init_connector, possible_encoders_of, current_encoder_of, writeback_properties,
}
use platform_external_drm_hw.Drm.Connector.{DrmConnector, writeback}
use platform_external_drm_hw.Drm.Device.{
  DrmDevice, crtc_at, get_crtc_for_display, handles_display, contains, number_displays,
}
use platform_external_drm_hw.Drm.Device.Counting.{number_displays-length}
use platform_external_drm_hw.Drm.Device.Displays.{
  in_window, is_key, number_displays_lem, Unnumbered,
}
use platform_external_drm_hw.Drm.Device.Writeback.{is_some}
use platform_external_drm_hw.Drm.Device.Init.{
  make_pipes, init, Opened, Card, of_kind, list_connectors, list_crtcs, list_encoders, list_planes,
  unpiped, clone_all, found,
}
use platform_external_drm_hw.Drm.Device.Init.Pipes.{Shown, make_pipes-Shown, make_pipes-displays}

found_some :
    (p q : DrmCrtc → Bool) (cs : List DrmCrtc) (c : DrmCrtc)
    → find_if q cs ≡ some c
    → p c ≡ true
    → is_some (find_if p cs) ≡ true
found_some p q [] c e h = grind (arith, e)
found_some p q (x ∷ xs) c e h = ground (arith, e, h, found_some p q xs c)

same_id_refl : (d : ℕ) → same_id (some d) (some d) ≡ true
same_id_refl d = ground arith

Shown-some :
    (d : ℕ) (dev : DrmDevice) → Shown d dev → is_some (get_crtc_for_display dev (some d)) ≡ true
unfolding get_crtc_for_display crtc_at
Shown-some d dev s =
    found_some (λ c. same_id c.display (some d)) (λ c. c.id == s.crtc.id) dev.crtcs s.crtc s.there
      (ap (λ o. same_id o (some d)) s.shows ∙ same_id_refl d)

init_connector-Unnumbered :
    (props : ObjectProperties) (c : ConnectorInfo) (e : Option ℕ) (es : List ℕ)
    (conn : DrmConnector)
    → init_connector props c e es ≡ done conn
    → Unnumbered conn
unfolding init_connector
init_connector-Unnumbered props c e es conn h =
    after_done (required props "DPMS") _ conn h λ dpms _ h1.
      after_done (required props "CRTC_ID") _ conn h1 λ crtc_id _ h2.
        after_done (writeback_properties props (writeback c.connector_type)) _ conn h2
          λ wb _ h3. ap (λ x. x.display) (sym (done-injective _ conn h3))

list_connectors-Unnumbered :
    (card : Card) (encs : List DrmEncoder) (ids : List ℕ) (conns : List DrmConnector)
    → list_connectors card encs ids ≡ done conns
    → All Unnumbered conns
unfolding list_connectors
list_connectors-Unnumbered card encs [] conns e =
    subst (All Unnumbered) (done-injective [] conns e) tt
list_connectors-Unnumbered card encs (id ∷ ids) conns e =
    after_done (found (card.get_connector id) enodev) _ conns e λ c _ e1.
      after_done
        (init_connector (card.connector_properties c.connector_id) c
          (current_encoder_of c.encoders c.encoder_id encs) (possible_encoders_of c.encoders encs))
        _ conns e1
        λ conn its e2. after_done (list_connectors card encs ids) _ conns e2 λ rest theirs e3.
          subst (All Unnumbered) (done-injective (conn ∷ rest) conns e3) (
            init_connector-Unnumbered (card.connector_properties c.connector_id) c
                (current_encoder_of c.encoders c.encoder_id encs)
                (possible_encoders_of c.encoders encs) conn its,
            list_connectors-Unnumbered card encs ids rest theirs,
          )

of_kind-Unnumbered :
    (b : Bool) (conns : List DrmConnector) → All Unnumbered conns → All Unnumbered (of_kind b conns)
unfolding of_kind
of_kind-Unnumbered b [] u = tt
of_kind-Unnumbered b (c ∷ cs) u = ground (arith, u, of_kind-Unnumbered b cs)

contains-count : (d : ℕ) (ks : List ℕ) → contains d ks ≡ true → 1 ≤ count_if (is_key d) ks
unfolding contains
contains-count d [] h = grind (arith, h)
contains-count d (k ∷ ks) h = ground (arith, h, contains-count d ks)

-- How an opened device came about: connectors without a display were numbered from `n`, and the pipes of
-- the numbered connectors were made.
pub record Opening (card : Card) (n : ℕ) (dev : DrmDevice) : Type 0 where
  pub conns : List DrmConnector
  pub unnumbered : All Unnumbered conns
  pub start : DrmDevice
  pub its : start.displays ≡ (number_displays n conns).displays
  pub piped : make_pipes card.modes (number_displays n conns).connectors start ≡ done dev

pub init-Opening :
    (card : Card) (n : ℕ) (o : Opened) → init card n ≡ done o → Opening card n o.device
unfolding init unpiped
init-Opening card n o e =
    after_done (if card.opened then done card.opened else failed enodev) _ o e λ opened _ e1.
      after_done (check (card.universal_planes, card.opened)) _ o e1 λ universal _ e2.
        after_done (check (card.atomic, card.opened)) _ o e2 λ atomic _ e3.
          after_done (found card.resources enodev) _ o e3 λ res _ e4.
            after_done (list_crtcs card 0 res.crtcs) _ o e4 λ crtcs _ e5.
              after_done (list_encoders card crtcs res.encoders) _ o e5 λ listed _ e6.
                let encs = clone_all (map (λ e. e.0) listed) listed in
                after_done (list_connectors card encs res.connectors) _ o e6 λ conns theirs e7.
                  after_done (found card.planes enoent) _ o e7 λ ids _ e8.
                    after_done (list_planes card ids) _ o e8 λ planes _ e9.
                      after_done (check (card.listener, card.opened)) _ o e9 λ listening _ e10.
                        let numbered = number_displays n (of_kind false conns) in
                        let start = unpiped crtcs encs numbered (of_kind true conns) planes in
                        after_done (make_pipes card.modes numbered.connectors start) _ o e10
                          λ dev piped e11. record {
                            conns = of_kind false conns;
                            unnumbered =
                                of_kind-Unnumbered false conns (
                                  list_connectors-Unnumbered card encs res.connectors conns theirs);
                            start = start;
                            its = refl;
                            piped = piped ∙ ap (λ x. done x.device) (done-injective _ o e11);
                          }

pub Opening-displays :
    (card : Card) (n : ℕ) (dev : DrmDevice) (o : Opening card n dev)
    → dev.displays ≡ (number_displays n o.conns).displays
Opening-displays card n dev o =
    make_pipes-displays card.modes (number_displays n o.conns).connectors o.start dev o.piped
    ∙ o.its

-- When `Init` of a device succeeds, each display number that the device handles is the display of one of its CRTCs, whatever pipes are made for other connectors.
pub init-displays :
    (card : Card) (n : ℕ) (o : Opened)
    → init card n ≡ done o
    → (d : ℕ) → handles_display o.device d ≡ true
    → is_some (get_crtc_for_display o.device (some d)) ≡ true
unfolding handles_display
init-displays card n o e d h =
    let opening = init-Opening card n o e in
    let numbered = number_displays n opening.conns in
    let (_, showing, keys) = number_displays_lem n opening.conns opening.unnumbered d in
    let handled = ap (contains d) (sym (Opening-displays card n o.device opening)) ∙ h in
    Shown-some d o.device (
      make_pipes-Shown d card.modes numbered.connectors opening.start o.device opening.piped
        (omega (arith, contains-count d numbered.displays handled, showing, keys)))

-- The display numbers of an opened device are those from `n`, each once.
pub init-window :
    (card : Card) (n : ℕ) (o : Opened)
    → init card n ≡ done o
    → (d : ℕ) → count_if (is_key d) o.device.displays ≡ in_window n (n + length o.device.displays) d
init-window card n o e d =
    let opening = init-Opening card n o e in
    let same = Opening-displays card n o.device opening in
    let total = number_displays-length n opening.conns in
    ap (count_if (is_key d)) same
    ∙ (number_displays_lem n opening.conns opening.unnumbered d).2
    ∙ ap (λ m. in_window n m d) (total ∙ ap (λ ks. n + length ks) (sym same))
