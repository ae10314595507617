-- ===== src/Composition.antt =====
-- drmdisplaycomposition.cpp and drmdisplaycomposition.h: one composition, from its layers to the planes
-- that carry them. The pointers `drm_` and `importer_`, which are only handed on, are left out, and the
-- CRTC is there: every caller refuses a display without one before it plans.
pub mod Coverage
pub mod Dump
use platform_external_drm_hw.Base.{
  ℕ, zero, suc, ◌+◌, ℤ, negsuc, nonzero, Bool, true, false, Option, none, some, List, [], ◌∷◌, ◌++◌,
  ◌==◌, leb, if◌then◌else◌, ok, einval,
}
use platform_external_drm_hw.Drm.Mode.{DrmMode, no_mode}
use platform_external_drm_hw.Drm.Crtc.{DrmCrtc}
use platform_external_drm_hw.Drm.Plane.{DrmPlane, type_primary}
use platform_external_drm_hw.Layer.{DrmHwcLayer}
use platform_external_drm_hw.Planner.{
  DrmCompositionPlane, k_disable, Layers, PlanStage, provision_planes,
}

pub data DrmCompositionType : Type 0 where
  empty frame dpms modeset : DrmCompositionType

-- DRM_MODE_DPMS_ON and DRM_MODE_DPMS_OFF of the kernel interface.
abbrev pub dpms_on : ℕ
dpms_on = 0

abbrev pub dpms_off : ℕ
dpms_off = 3

pub record DrmDisplayComposition : Type 0 where
  pub crtc : DrmCrtc
  pub planner : List PlanStage
  pub frame_no : ℕ
  pub type : DrmCompositionType
  pub dpms_mode : ℕ
  pub display_mode : DrmMode
  pub out_fence : ℤ
  pub geometry_changed : Bool
  pub layers : List DrmHwcLayer
  pub composition_planes : List DrmCompositionPlane

-- The constructor followed by `Init`, as every caller runs them.
unfoldable pub init_composition : DrmCrtc → List PlanStage → ℕ → DrmDisplayComposition
init_composition crtc planner frame_no = record {
  crtc = crtc;
  planner = planner;
  frame_no = frame_no;
  type = empty;
  dpms_mode = dpms_on;
  display_mode = no_mode;
  out_fence = negsuc 0;
  geometry_changed = false;
  layers = [];
  composition_planes = [];
}

abbrev same_type : DrmCompositionType → DrmCompositionType → Bool
same_type empty empty = true
same_type frame frame = true
same_type dpms dpms = true
same_type modeset modeset = true
same_type _ _ = false

abbrev is_empty_type : DrmCompositionType → Bool
is_empty_type empty = true
is_empty_type _ = false

unfoldable pub validate_composition_type : DrmDisplayComposition → DrmCompositionType → Bool
validate_composition_type c des = if is_empty_type c.type then true else same_type c.type des

unfoldable pub set_layers :
    DrmDisplayComposition → List DrmHwcLayer → Bool → ℤ × DrmDisplayComposition
unfolding validate_composition_type
set_layers c layers geometry_changed =
    if validate_composition_type c frame
    then (
      ok,
      record c { geometry_changed = geometry_changed; layers = c.layers ++ layers; type = frame },
    )
    else (einval, c)

unfoldable pub set_dpms_mode : DrmDisplayComposition → ℕ → ℤ × DrmDisplayComposition
unfolding validate_composition_type
set_dpms_mode c dpms_mode =
    if validate_composition_type c dpms
    then (ok, record c { dpms_mode = dpms_mode; type = dpms })
    else (einval, c)

unfoldable pub set_display_mode : DrmDisplayComposition → DrmMode → ℤ × DrmDisplayComposition
unfolding validate_composition_type
set_display_mode c display_mode =
    if validate_composition_type c modeset
    then (ok, record c { display_mode = display_mode; dpms_mode = dpms_on; type = modeset })
    else (einval, c)

unfoldable pub add_plane_disable : DrmDisplayComposition → DrmPlane → DrmDisplayComposition
add_plane_disable c plane = record c {
  composition_planes =
      c.composition_planes
      ++ (record { type = k_disable; plane = some plane; crtc = some c.crtc; source_layers = [] }
          ∷ []);
}

unfoldable pub add_plane_composition :
    DrmDisplayComposition → DrmCompositionPlane → DrmDisplayComposition
add_plane_composition c plane = record c {
  composition_planes = c.composition_planes ++ (plane ∷ []);
}

-- `to_composite`, the map from the index of a layer to the layer.
unfoldable pub indexed : ℕ → List DrmHwcLayer → Layers
indexed i [] = []
indexed i (l ∷ ls) = (i, l) ∷ indexed (i + 1) ls

-- `std::sort` on indices.
insert_index : ℕ → List ℕ → List ℕ
insert_index x [] = x ∷ []
insert_index x (y ∷ ys) = let rest = insert_index x ys in if leb x y then x ∷ y ∷ ys else y ∷ rest

sort_indices : List ℕ → List ℕ
unfolding insert_index
sort_indices [] = []
sort_indices (x ∷ xs) = insert_index x (sort_indices xs)

-- `container->erase(j)` at the first entry that is the plane.
unfoldable pub erase_plane : ℕ → List DrmPlane → List DrmPlane
erase_plane id [] = []
erase_plane id (p ∷ ps) = let rest = erase_plane id ps in if p.id == id then ps else p ∷ rest

-- The pools `primary_planes` and `overlay_planes` of a frame.
pub record Pools : Type 0 where
  pub primary : List DrmPlane
  pub overlay : List DrmPlane

take_plane : DrmPlane → Pools → Pools
unfolding erase_plane
take_plane p pools =
    if p.type == type_primary
    then record pools { primary = erase_plane p.id pools.primary }
    else record pools { overlay = erase_plane p.id pools.overlay }

take_from : Option DrmPlane → Pools → Pools
unfolding take_plane
take_from none pools = pools
take_from (some p) pools = take_plane p pools

sort_sources : Option DrmPlane → DrmCompositionPlane → DrmCompositionPlane
unfolding sort_indices
sort_sources none c = c
sort_sources (some p) c = record c { source_layers = sort_indices c.source_layers }

-- The loop that removes the planes of the plan from the pools and sorts their source layers; an entry
-- without a plane is skipped.
unfoldable pub take_planes : List DrmCompositionPlane → Pools → List DrmCompositionPlane × Pools
unfolding take_from sort_sources
take_planes [] pools = ([], pools)
take_planes (c ∷ cs) pools =
    let (cs', pools') = take_planes cs (take_from c.plane pools) in
    (sort_sources c.plane c ∷ cs', pools')

pub record Planned : Type 0 where
  pub ret : ℤ
  pub composition : DrmDisplayComposition
  pub pools : Pools

-- `Plan`. A failed plan has already replaced `composition_planes_` by the empty vector.
unfoldable pub plan : DrmDisplayComposition → Pools → Planned
unfolding indexed take_planes
plan c pools =
    let (ret, planes) =
      provision_planes c.planner (indexed 0 c.layers) c.crtc pools.primary pools.overlay in
    let (planes', pools') = take_planes planes pools in
    if same_type c.type frame
    then (if nonzero ret
        then record {
          ret = ret;
          composition = record c { composition_planes = planes };
          pools = pools;
        }
        else record {
          ret = ok;
          composition = record c { composition_planes = planes' };
          pools = pools';
        })
    else record { ret = ok; composition = c; pools = pools }

-- The loops of `CreateComposition` and `FlattenOnDisplay` that disable the planes left in a pool.
unfoldable pub disable_planes : DrmDisplayComposition → List DrmPlane → DrmDisplayComposition
unfolding add_plane_disable
disable_planes c [] = c
disable_planes c (p ∷ ps) = disable_planes (add_plane_disable c p) ps
