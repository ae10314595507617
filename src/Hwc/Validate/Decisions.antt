-- ===== src/Hwc/Validate/Decisions.antt =====
-- What `ValidateDisplay` decides and answers.
use platform_external_drm_hw.Base.{
  zero, suc, if◌then◌else◌, ℕ, Bool, true, List, [], ◌≡◌, refl, arith, enodev, length, ◌∷◌, ◌+◌,
  count_if, map, ◌≤◌, All, ◌∙◌, sym, length-map, Bool-cases, inl, inr, ◌≢◌, ap, ◌⊎◌,
}
use platform_external_drm_hw.Layer.{DrmHwcLayer, Importer}
use platform_external_drm_hw.Drm.Crtc.{DrmCrtc}
use platform_external_drm_hw.Planner.{PlanStage, provision_planes, get_usable_planes}
use platform_external_drm_hw.Composition.{
  init_composition, set_layers, plan, validate_composition_type,
}
use platform_external_drm_hw.Hwc.CompositionType
use platform_external_drm_hw.Hwc.Display.{
  HwcDisplay, Platform, compose, create_composition, compose_z_map, ZEntry, LayerMap,
  populate_layers, z_map_of, on_layer,
}
use platform_external_drm_hw.Hwc.Validate.{
  is_error, planes_to_give, choose_types, device_layers, mark, given, validate_display,
}
use platform_external_drm_hw.Drm.Plane.{DrmPlane}
use platform_external_drm_hw.Hwc.Validate.Outcome.{
  populate_layers-Kept, Kept, create_composition-Kept, shape,
}
use platform_external_drm_hw.Hwc.Validate.Types.{
  IsUndecided, described, for_client, for_device, has_handle, length-given, described-decided,
  count-all, count-client, count-decided, count-none, count-is_in, count-has_handle,
  same_shape-IsUndecided, count-has_handle-cleared, cleared-IsUndecided, same_shape-described,
  cleared-described,
}
use platform_external_drm_hw.Hwc.Layer.{set_validated_type, has_changes, no_error}

length-empty : (ps : List DrmPlane) → length ps ≡ 0 → ps ≡ []
length-empty [] e = refl
length-empty (p ∷ ps) e = grind (arith, e)

module _ (crtc : DrmCrtc) (planner : List PlanStage) (frame_no : ℕ) where
  plan-no_planes :
      (layers : List DrmHwcLayer)
      → (plan
          (set_layers (init_composition crtc planner frame_no) layers true).1
          (record { primary = []; overlay = [] })).ret
        ≡ enodev
  unfolding plan set_layers init_composition provision_planes get_usable_planes
      validate_composition_type
  plan-no_planes layers = refl

module _ {W : Type 0} (pf : Platform W) where
  compose-no_planes :
      (test : Bool) (layers : List DrmHwcLayer) (d : HwcDisplay W)
      → d.primary_planes ≡ []
      → d.overlay_planes ≡ []
      → is_error (compose pf test layers d).0 ≡ true
  unfolding compose
  compose-no_planes test layers d no_primary no_overlay =
      ground (arith, plan-no_planes d.crtc d.planner d.frame_no layers, no_primary, no_overlay)

  compose_z_map-no_planes :
      (es : List ZEntry) (d : HwcDisplay W)
      → d.primary_planes ≡ []
      → d.overlay_planes ≡ []
      → is_error (compose_z_map pf true es d).0 ≡ true
  unfolding compose_z_map
  compose_z_map-no_planes [] d no_primary no_overlay = refl
  compose_z_map-no_planes (e ∷ es) d no_primary no_overlay =
      let p = populate_layers pf.floats pf.importer (e ∷ es) [] d in
      let kept = populate_layers-Kept pf.floats pf.importer (e ∷ es) [] d in
      ground (
        arith,
        compose-no_planes true p.layers p.display (kept.primaries ∙ no_primary)
            (kept.overlays ∙ no_overlay),
      )

  pub create_composition-no_planes :
      (d : HwcDisplay W)
      → length d.primary_planes + length d.overlay_planes ≡ 0
      → is_error (create_composition pf true d).0 ≡ true
  unfolding create_composition
  create_composition-no_planes d none_left =
      compose_z_map-no_planes (z_map_of pf.importer true d.layers d.client_layer) d
        (length-empty d.primary_planes (ground (arith, none_left)))
        (length-empty d.overlay_planes (ground (arith, none_left)))

planes_to_give-le : (avail n : ℕ) → avail ≢ 0 → planes_to_give avail n ≤ avail
unfolding planes_to_give
planes_to_give-le zero n some_left = grind (arith, some_left)
planes_to_give-le (suc avail) n some_left = ground arith

module _ (importer : Importer) (failed : Bool) (planes : ℕ) (layers : LayerMap) where
  -- The handles that become device layers.
  abbrev handles : List ℕ
  handles =
      if failed
      then []
      else given importer (planes_to_give planes (length layers)) (device_layers layers [])

  choose_types-client :
      (choose_types importer failed planes layers).0
      ≡ count_if for_client (choose_types importer failed planes layers).1
  unfolding choose_types
  choose_types-client = sym (count-client (map (mark handles) layers))

  choose_types-all :
      count_if for_client (choose_types importer failed planes layers).1
        + count_if for_device (choose_types importer failed planes layers).1
      ≡ length layers
  unfolding choose_types
  choose_types-all = count-all (map (mark handles) layers) ∙ length-map layers (mark handles)

  choose_types-described :
      map described (choose_types importer failed planes layers).1 ≡ map described layers
  unfolding choose_types
  choose_types-described = described-decided handles layers

  length-handles : (planes ≡ 0 → failed ≡ true) → length handles ≤ planes
  length-handles fails = elim (Bool-cases failed) [
    | inl it_failed ↦ rw it_failed (omega arith)
    | inr passed ↦ rw passed (
        omega (
          arith,
          length-given importer (planes_to_give planes (length layers)) (device_layers layers []),
          planes_to_give-le planes (length layers) (ground (arith, passed, fails)),
        ))
  ]

  choose_types-device :
      All IsUndecided layers
      → ((h : ℕ) → count_if (has_handle h) layers ≤ 1)
      → (planes ≡ 0 → failed ≡ true)
      → count_if for_device (choose_types importer failed planes layers).1 ≤ planes
  unfolding choose_types
  choose_types-device undecided distinct fails = omega (
    arith,
    count-decided handles layers undecided,
    count-is_in handles layers distinct,
    length-handles fails,
  )

  choose_types-failed :
      All IsUndecided layers
      → failed ≡ true
      → count_if for_device (choose_types importer failed planes layers).1 ≡ 0
  unfolding choose_types
  choose_types-failed undecided fails =
      ground (arith, fails, count-decided handles layers undecided, count-none layers)

module _ {W : Type 0} (pf : Platform W) (d : HwcDisplay W) where
  -- The display with all types cleared, and what the test composition makes of it.
  abbrev cleared : HwcDisplay W
  cleared = record d {
    layers = map (on_layer (set_validated_type CompositionType.invalid)) d.layers;
  }

  abbrev tested : HwcDisplay W
  tested = (create_composition pf true cleared).1

  abbrev test_failed : Bool
  test_failed = is_error (create_composition pf true cleared).0

  abbrev all_planes : ℕ
  all_planes = length d.primary_planes + length d.overlay_planes

  tested-Kept : Kept cleared tested
  tested-Kept = create_composition-Kept pf true cleared

  tested-IsUndecided : All IsUndecided tested.layers
  tested-IsUndecided =
      same_shape-IsUndecided cleared.layers tested.layers tested-Kept.shapes
        (cleared-IsUndecided d.layers)

  tested-distinct :
      ((h : ℕ) → count_if (has_handle h) d.layers ≤ 1)
      → (h : ℕ) → count_if (has_handle h) tested.layers ≤ 1
  tested-distinct distinct h = omega (
    arith,
    distinct h,
    count-has_handle h tested.layers,
    ap (count_if (has_handle h)) tested-Kept.shapes,
    count-has_handle h cleared.layers,
    count-has_handle-cleared h d.layers,
  )

  tested-length : length tested.layers ≡ length d.layers
  tested-length = omega (
    arith,
    length-map tested.layers shape,
    ap length tested-Kept.shapes,
    length-map cleared.layers shape,
    length-map d.layers (on_layer (set_validated_type CompositionType.invalid)),
  )

  -- `ValidateDisplay` leaves every layer with the type Client or Device: it counts those with Client in
  -- `num_types`, and answers None exactly when there is none.
  pub validate_display-types :
      let v = validate_display pf d in
      (v.num_types ≡ count_if for_client v.display.layers)
      × (count_if for_client v.display.layers + count_if for_device v.display.layers
          ≡ length d.layers)
      × ((v.error ≡ no_error × v.num_types ≡ 0) ⊎ (v.error ≡ has_changes × v.num_types ≢ 0))
  unfolding validate_display
  validate_display-types =
      let counted = choose_types-client pf.importer test_failed all_planes tested.layers in
      let all = choose_types-all pf.importer test_failed all_planes tested.layers in
      (counted, omega (arith, all, tested-length), ground arith)

  -- If the handles are distinct, as those of a map are, no more layers are left to the device than there
  -- are planes for the frame.
  pub validate_display-planes :
      ((h : ℕ) → count_if (has_handle h) d.layers ≤ 1)
      → count_if for_device (validate_display pf d).display.layers ≤ all_planes
  unfolding validate_display
  validate_display-planes distinct =
      choose_types-device pf.importer test_failed all_planes tested.layers tested-IsUndecided
        (tested-distinct distinct) (create_composition-no_planes pf cleared)

  -- If the test of all layers on planes of their own fails, all of them go to the client.
  pub validate_display-failed :
      test_failed ≡ true
      → count_if for_client (validate_display pf d).display.layers ≡ length d.layers
  unfolding validate_display
  validate_display-failed failed = omega (
    arith,
    choose_types-failed pf.importer test_failed all_planes tested.layers tested-IsUndecided failed,
    choose_types-all pf.importer test_failed all_planes tested.layers,
    tested-length,
  )

  -- Apart from the validated types and the acquire fences, `ValidateDisplay` changes nothing of any
  -- layer, and neither their order nor their handles.
  pub validate_display-described :
      map described (validate_display pf d).display.layers ≡ map described d.layers
  unfolding validate_display
  validate_display-described =
      choose_types-described pf.importer test_failed all_planes tested.layers
      ∙ same_shape-described cleared.layers tested.layers tested-Kept.shapes
      ∙ cleared-described d.layers
