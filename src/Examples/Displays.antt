-- ===== src/Examples/Displays.antt =====
-- A display with three layers and two planes.
use platform_external_drm_hw.Hwc.Hooks.{LayerOp}
use platform_external_drm_hw.Hwc.Hooks.LayerOp.{create, destroy, set}
use platform_external_drm_hw.Hwc.Layer.LayerCall.{set_layer_z_order}
use platform_external_drm_hw.Hwc.Queries.{get_display_name}
use platform_external_drm_hw.Base.{
  has_bit, ℕ, ◌≤◌, ◌≡◌, ◌≢◌, refl, some, none, [], map, count_if, true, ◌⊎◌, ◌+◌, length, negsuc,
  arith, List, ◌∷◌,
}
use platform_external_drm_hw.Compositor.State.{create_mode_blob}
use platform_external_drm_hw.Drm.Device.{get_connector_for_display, get_crtc_for_display}
use platform_external_drm_hw.Drm.Plane.{get_crtc_supported}
use platform_external_drm_hw.Planner.{validate_plane, provision_planes, emplace}
use platform_external_drm_hw.Hwc.CompositionType
use platform_external_drm_hw.Composition.{
  disable_planes, set_layers, plan, DrmDisplayComposition, init_composition,
}
use platform_external_drm_hw.Compositor.{test_composition}
use platform_external_drm_hw.Compositor.Commit.Testing.{Unchanged, test_composition-Unchanged}
use platform_external_drm_hw.Hwc.Layer.{
  type_changed, no_error, has_changes, new_hwc_layer, set_validated_type,
}
use platform_external_drm_hw.Hwc.Display.{
  accept_display_changes, create_composition, z_map_of, HwcDisplay, on_layer, LayerMap,
}
use platform_external_drm_hw.Hwc.Display.Stacking.{IsRising, at, expected_at, z_map_of-expected_at}
use platform_external_drm_hw.Hwc.Validate.{validate_display, is_error}
use platform_external_drm_hw.Hwc.Validate.Types.{for_client, for_device, has_handle, described}
use platform_external_drm_hw.Hwc.Validate.Decisions.{
  validate_display-types, validate_display-planes, validate_display-described,
  validate_display-failed, create_composition-no_planes,
}
use platform_external_drm_hw.Hwc.Present.{get_changed_composition_types, present_display}
use platform_external_drm_hw.Hwc.Present.Changes.{demoted, told, validate_display-changes}
use platform_external_drm_hw.Hwc.Present.Retire.{NoFences, present_display-NoFences}
use platform_external_drm_hw.Hwc.Config.{set_active_config, get_active_config}
use platform_external_drm_hw.Hwc.Config.Active.{set_active_config-get_active_config}
use platform_external_drm_hw.Examples.Fixtures.{
  platform, kms, floats, fences, system, display, three_layers, a_crtc, importer, device_layer,
}
use platform_external_drm_hw.Compositor.Commit.{commit_frame}
use platform_external_drm_hw.Compositor.Request.{to_int32}

-- The topmost layer gets the one plane that may be given, the others go to the client.
validate_test : (validate_display platform display).num_types ≡ 2
unfolding validate_display create_composition plan provision_planes validate_plane
    get_crtc_supported has_bit get_connector_for_display get_crtc_for_display set_layers
    init_composition emplace test_composition commit_frame disable_planes to_int32
validate_test = refl

types_example :
    ((validate_display platform display).num_types
      ≡ count_if for_client (validate_display platform display).display.layers)
    × (count_if for_client (validate_display platform display).display.layers
          + count_if for_device (validate_display platform display).display.layers
        ≡ length three_layers)
    × (((validate_display platform display).error ≡ no_error
          × (validate_display platform display).num_types ≡ 0)
        ⊎ ((validate_display platform display).error ≡ has_changes
            × (validate_display platform display).num_types ≢ 0))
types_example = validate_display-types platform display

three_layers-distinct : (h : ℕ) → count_if (has_handle h) three_layers ≤ 1
three_layers-distinct h = ground arith

planes_example : count_if for_device (validate_display platform display).display.layers ≤ 2
planes_example = validate_display-planes platform display three_layers-distinct

described_example :
    map described (validate_display platform display).display.layers ≡ map described three_layers
described_example = validate_display-described platform display

-- A layer for a plane between two for the client.
abbrev mixed_layers : LayerMap
mixed_layers =
    (0, device_layer 2)
    ∷ (1, record (device_layer 3) { sf_type = CompositionType.client })
    ∷ (2, record (device_layer 1) { sf_type = CompositionType.client })
    ∷ []

stacking_test : map (λ e. e.z) (z_map_of importer true mixed_layers new_hwc_layer) ≡ 1 ∷ 2 ∷ []
unfolding z_map_of
stacking_test = refl

stacking_example :
    IsRising (z_map_of importer true mixed_layers new_hwc_layer)
    × (at 1 (z_map_of importer true mixed_layers new_hwc_layer)
        ≡ expected_at importer true mixed_layers new_hwc_layer 1)
stacking_example = z_map_of-expected_at importer true mixed_layers new_hwc_layer 1

abbrev comp : DrmDisplayComposition
comp = init_composition a_crtc [] 0

test_example : Unchanged comp system (test_composition kms floats fences comp system)
test_example = test_composition-Unchanged kms floats fences comp system

display-NoFences : NoFences display
display-NoFences = record { retire = refl; next = refl }

retire_example :
    NoFences (present_display platform display).display
    × (((present_display platform display).retire_fence ≡ none)
        ⊎ ((present_display platform display).retire_fence ≡ some (negsuc 0)))
retire_example = present_display-NoFences platform display display-NoFences

seven_is_not_zero : ◌≢◌ {A = ℕ} 7 0
seven_is_not_zero = omega arith

accepted : (set_active_config platform 7 display).0 ≡ no_error
unfolding set_active_config get_connector_for_display create_mode_blob
accepted = refl

config_example : get_active_config (set_active_config platform 7 display).1 ≡ (no_error, 7)
config_example = set_active_config-get_active_config platform display 7 seven_is_not_zero accepted

-- Without a plane the test cannot succeed.
abbrev bare : HwcDisplay ℕ
bare = record display { primary_planes = []; overlay_planes = [] }

bare-fails :
    is_error
      (create_composition platform true (record bare {
        layers = map (on_layer (set_validated_type CompositionType.invalid)) three_layers;
      })).0
    ≡ true
bare-fails =
    create_composition-no_planes platform
      (record bare {
        layers = map (on_layer (set_validated_type CompositionType.invalid)) three_layers;
      })
      refl

failed_example : count_if for_client (validate_display platform bare).display.layers ≡ 3
failed_example = validate_display-failed platform bare bare-fails

abbrev some_calls : List LayerOp
some_calls = create ∷ set 1 (set_layer_z_order 9) ∷ destroy 0 ∷ []

-- The name of the display of connector 31, asked for with its length: `display-3`.
name_is_cut :
    get_display_name (λ n. 51 ∷ 49 ∷ []) (some 10) display
    ≡ (no_error, 9, 100 ∷ 105 ∷ 115 ∷ 112 ∷ 108 ∷ 97 ∷ 121 ∷ 45 ∷ 51 ∷ [])
unfolding get_display_name get_connector_for_display
name_is_cut = refl

-- Two of the three layers go to the client, and there is room for one.
changes_test :
    get_changed_composition_types true true 1 (validate_display platform display).display
    ≡ record { num_elements = 1; layers = 1 ∷ []; types = CompositionType.client ∷ [] }
unfolding validate_display get_changed_composition_types create_composition plan provision_planes
    validate_plane get_crtc_supported has_bit get_connector_for_display get_crtc_for_display
    set_layers init_composition emplace test_composition commit_frame disable_planes to_int32
    type_changed
changes_test = refl

changes_example :
    let v = (validate_display platform display).display in
    (get_changed_composition_types true true 1 v ≡ told true true 1 (demoted v.layers))
    × (get_changed_composition_types true true 1 (accept_display_changes v) ≡ told true true 1 [])
changes_example = validate_display-changes platform display true true 1
