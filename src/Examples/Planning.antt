-- ===== src/Examples/Planning.antt =====
-- The planner and a composition, with two planes.
use platform_external_drm_hw.Base.{has_bit, ℕ, map, ◌≤◌, ◌≡◌, refl, ◌+◌, [], ◌∷◌, ok, count_if}
use mathlib.Core.List.{Sublist}
use platform_external_drm_hw.Drm.Property.{is_immutable}
use platform_external_drm_hw.Drm.Plane.{get_crtc_supported, DrmPlane, type_overlay}
use platform_external_drm_hw.Planner.{
  Provision, validate_plane, greedy, greedy_stage, emplace, provision_planes, get_usable_planes,
}
use platform_external_drm_hw.Planner.Emplace.{Emplaced, emplace_lem}
use platform_external_drm_hw.Planner.Placement.{GreedyOutcome, greedy_stage_lem}
use platform_external_drm_hw.Planner.Order.{stacking, stacking-greedy}
use platform_external_drm_hw.Planner.Counts.{used_planes, count-provision_planes-le}
use platform_external_drm_hw.Composition.{
  DrmDisplayComposition, Pools, init_composition, plan, frame,
}
use platform_external_drm_hw.Composition.Coverage.{AreSplit, finished, finished-covers, has_id}
use platform_external_drm_hw.Examples.Fixtures.{
  a_crtc, a_plane, property, primary_plane, overlay_plane, plain_layer, stack, provision,
}

emplace_example :
    Emplaced a_crtc 0 plain_layer provision (emplace a_crtc (0, plain_layer) provision)
emplace_example = emplace_lem a_crtc 0 plain_layer provision

greedy_example : GreedyOutcome a_crtc stack provision (greedy_stage a_crtc stack provision)
greedy_example = greedy_stage_lem a_crtc stack provision

-- Planes whose zpos cannot be set. The first cannot show the rotated layer and is lost to it.
abbrev fixed_plane : ℕ → DrmPlane
fixed_plane id = record (a_plane id type_overlay) {
  zpos_property = record (property 11) { flags = 4 };
}

abbrev turning_plane : DrmPlane
turning_plane = record (fixed_plane 45) { rotation_property = property 12 }

abbrev fixed_planes : Provision
fixed_planes = record provision {
  planes = fixed_plane 43 ∷ fixed_plane 44 ∷ turning_plane ∷ fixed_plane 46 ∷ [];
}

order_test : map (λ p. p.id) (stacking (greedy_stage a_crtc stack fixed_planes)) ≡ 43 ∷ 45 ∷ 46 ∷ []
unfolding greedy_stage emplace validate_plane is_immutable has_bit
order_test = refl

order_example : Sublist (stacking (greedy_stage a_crtc stack fixed_planes)) (stacking fixed_planes)
order_example = stacking-greedy a_crtc stack fixed_planes

-- No plane here can rotate.
greedy_test : (greedy_stage a_crtc stack provision).planes ≡ []
unfolding greedy_stage emplace validate_plane
greedy_test = refl

counts_example :
    count_if (has_id 41) (
      used_planes
        (provision_planes (greedy ∷ []) stack a_crtc (primary_plane ∷ []) (overlay_plane ∷ [])).1)
    ≤ count_if (has_id 41) (get_usable_planes a_crtc (primary_plane ∷ []) (overlay_plane ∷ []))
counts_example =
    count-provision_planes-le (has_id 41) (greedy ∷ []) stack a_crtc (primary_plane ∷ [])
      (overlay_plane ∷ [])

abbrev pools : Pools
pools = record { primary = primary_plane ∷ []; overlay = overlay_plane ∷ [] }

abbrev one_layer : DrmDisplayComposition
one_layer = record (init_composition a_crtc (greedy ∷ []) 0) {
  type = frame;
  layers = plain_layer ∷ [];
}

pools-AreSplit : AreSplit pools
pools-AreSplit = record { primaries = (refl, tt); overlays = (refl, tt) }

one_layer-planned : (plan one_layer pools).ret ≡ ok
unfolding plan init_composition provision_planes get_usable_planes get_crtc_supported has_bit
    validate_plane emplace
one_layer-planned = refl

one_layer-type : one_layer.type ≡ frame
one_layer-type = refl

covers_example :
    count_if (has_id 42) (used_planes (finished (plan one_layer pools)).composition_planes)
    ≡ count_if (has_id 42) pools.primary + count_if (has_id 42) pools.overlay
covers_example = finished-covers one_layer pools pools-AreSplit one_layer-type one_layer-planned 42
