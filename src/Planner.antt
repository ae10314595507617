-- ===== src/Planner.antt =====
-- platform.cpp and platform.h: the planner that lays layers on hardware planes, and the HiSilicon stage
-- of platformhisi.cpp. A `DrmPlane *` is the plane's record, which never changes after `Init`; two
-- pointers are one where the ids are. A `std::map` of layers is the list of its entries by rising key.
pub mod Emplace
pub mod Counts
pub mod Placement
pub mod Order
use platform_external_drm_hw.Base.{
  ℕ, ℤ, nonzero, Bool, true, false, Option, none, some, List, [], ◌∷◌, ◌++◌, ◌==◌, ◌&&◌, not,
  if◌then◌else◌, ok, enoent, einval, pos, enodev, ◌+◌, keep, negsuc, has_bit,
}
use platform_external_drm_hw.Drm.Property.{DrmProperty, get_enum_value_with_name, is_immutable}
use platform_external_drm_hw.Drm.Crtc.{DrmCrtc}
use platform_external_drm_hw.Drm.Plane.{DrmPlane, get_crtc_supported}
use platform_external_drm_hw.Layer.{
  DrmHwcLayer, DrmHwcBlending, none_blending, pre_mult, coverage, protected_usage,
}
use platform_external_drm_hw.Layer.Transform.{k_identity}

pub data PlaneUse : Type 0 where
  k_disable k_layer : PlaneUse

pub record DrmCompositionPlane : Type 0 where
  pub type : PlaneUse
  pub plane : Option DrmPlane
  pub crtc : Option DrmCrtc
  pub source_layers : List ℕ

-- The entries of a `std::map<size_t, DrmHwcLayer *>`.
abbrev pub Layers : Type 0
Layers = List (ℕ × DrmHwcLayer)

-- The name of the enum value of "pixel blend mode" that a layer wants.
unfoldable pub blend_of_layer : DrmProperty → DrmHwcBlending → ℕ × ℤ
blend_of_layer p pre_mult = get_enum_value_with_name p "Pre-multiplied"
blend_of_layer p coverage = get_enum_value_with_name p "Coverage"
blend_of_layer p none_blending = get_enum_value_with_name p "None"

abbrev is_coverage : DrmHwcBlending → Bool
is_coverage coverage = true
is_coverage _ = false

unfoldable pub validate_plane : DrmPlane → DrmHwcLayer → ℤ
unfolding blend_of_layer
validate_plane plane layer =
    if plane.rotation_property.id == 0 && not (layer.transform == k_identity)
    then einval
    else (if plane.alpha_property.id == 0 && not (layer.alpha == 0xffff)
        then einval
        else (if plane.blend_property.id == 0
            then (if is_coverage layer.blending then einval else ok)
            else (blend_of_layer plane.blend_property layer.blending).1))

-- `while (plane)` of `Emplace`: the code, the plane it stopped at, the planes to put back, and the
-- planes that were not popped. `PopPlane` takes the front of the list.
pub record Search : Type 0 where
  pub ret : ℤ
  pub plane : Option DrmPlane
  pub unused_planes : List DrmPlane
  pub planes : List DrmPlane

unfoldable pub search_plane : DrmHwcLayer → ℤ → List DrmPlane → List DrmPlane → Search
search_plane layer ret unused [] = record {
  ret = ret;
  plane = none;
  unused_planes = unused;
  planes = [];
}
search_plane layer ret unused (p ∷ ps) =
    let next =
      search_plane layer (validate_plane p layer)
        (if is_immutable p.zpos_property then unused else unused ++ (p ∷ [])) ps in
    if nonzero (validate_plane p layer)
    then next
    else record { ret = ok; plane = some p; unused_planes = unused; planes = ps }

-- What a stage works on: its code, the composition so far, the layers and the planes left.
pub record Provision : Type 0 where
  pub ret : ℤ
  pub composition : List DrmCompositionPlane
  pub layers : Layers
  pub planes : List DrmPlane

abbrev pub layer_plane : Option DrmPlane → DrmCrtc → ℕ → DrmCompositionPlane
layer_plane plane crtc i = record {
  type = k_layer;
  plane = plane;
  crtc = some crtc;
  source_layers = i ∷ [];
}

-- `Emplace`, always called with `Type::kLayer`; the layers are left alone.
unfoldable pub emplace : DrmCrtc → ℕ × DrmHwcLayer → Provision → Provision
unfolding search_plane
emplace crtc (i, l) s =
    let found = search_plane l enoent [] s.planes in
    if nonzero found.ret then record s { ret = found.ret; planes = found.planes } else record s {
      ret = found.ret;
      composition = s.composition ++ (layer_plane found.plane crtc i ∷ []);
      planes = found.unused_planes ++ found.planes;
    }

abbrev pub is_enoent : ℤ → Bool
is_enoent (pos n) = false
is_enoent (negsuc n) = n == 1

abbrev restore : Layers → Provision → Provision
restore kept s = record s { layers = kept ++ s.layers }

-- `PlanStageProtected::ProvisionPlanes`: protected layers are placed and erased, the others stay.
unfoldable pub protected_stage : DrmCrtc → Layers → Provision → Provision
protected_stage crtc [] s = record s { ret = ok; layers = [] }
protected_stage crtc ((i, l) ∷ ls) s =
    let skip = restore ((i, l) ∷ []) (protected_stage crtc ls s) in
    let s' = emplace crtc (i, l) s in
    let go = protected_stage crtc ls s' in
    if not (protected_usage l)
    then skip
    else (if nonzero s'.ret then record s' { layers = (i, l) ∷ ls } else go)

-- `PlanStageGreedy::ProvisionPlanes`: without a plane left (-ENOENT) it stops and succeeds.
unfoldable pub greedy_stage : DrmCrtc → Layers → Provision → Provision
greedy_stage crtc [] s = record s { ret = ok; layers = [] }
greedy_stage crtc ((i, l) ∷ ls) s =
    let s' = emplace crtc (i, l) s in
    let go = greedy_stage crtc ls s' in
    if is_enoent s'.ret
    then record s' { ret = ok; layers = (i, l) ∷ ls }
    else (if nonzero s'.ret then record s' { layers = (i, l) ∷ ls } else go)

-- GRALLOC_USAGE_HW_FB, 1 << 12.
abbrev hw_fb_bit : ℕ
hw_fb_bit = 12

-- The loop of `PlanStageHiSi::ProvisionPlanes` with its counter `layers_added`: a layer without HW_FB
-- is erased unplaced, since `continue` runs the loop's `layers.erase(i)`.
unfoldable pub hisi_loop : DrmCrtc → Layers → ℕ → Provision → Provision × ℕ
hisi_loop crtc [] added s = (record s { ret = ok; layers = [] }, added)
hisi_loop crtc ((i, l) ∷ ls) added s =
    let skip = hisi_loop crtc ls added s in
    let s' = emplace crtc (i, l) s in
    let go = hisi_loop crtc ls (added + 1) s' in
    if not (has_bit l.gralloc_buffer_usage hw_fb_bit)
    then skip
    else (if is_enoent s'.ret
        then (record s' { ret = ok; layers = (i, l) ∷ ls }, added + 1)
        else (if nonzero s'.ret then (record s' { layers = (i, l) ∷ ls }, added + 1) else go))

-- The early `return ret` comes before the test of `layers_added`, which is not 0 there.
unfoldable pub hisi_stage : DrmCrtc → Layers → Provision → Provision
unfolding hisi_loop
hisi_stage crtc ls s =
    let (s', added) = hisi_loop crtc ls 0 s in if added == 0 then record s' { ret = einval } else s'

-- The classes derived from `PlanStage`.
pub data PlanStage : Type 0 where
  protected greedy hisi : PlanStage

unfoldable pub run_stage : PlanStage → DrmCrtc → Provision → Provision
unfolding protected_stage greedy_stage hisi_stage
run_stage protected crtc s = protected_stage crtc s.layers s
run_stage greedy crtc s = greedy_stage crtc s.layers s
run_stage hisi crtc s = hisi_stage crtc s.layers s

unfoldable pub get_usable_planes : DrmCrtc → List DrmPlane → List DrmPlane → List DrmPlane
get_usable_planes crtc primary overlay =
    keep (λ p. get_crtc_supported p crtc) primary ++ keep (λ p. get_crtc_supported p crtc) overlay

unfoldable pub run_stages : List PlanStage → DrmCrtc → Provision → Provision
unfolding run_stage
run_stages [] crtc s = s
run_stages (t ∷ ts) crtc s =
    let s' = run_stage t crtc s in
    let rest = run_stages ts crtc s' in
    if nonzero s'.ret then record s' { composition = [] } else rest

abbrev is_empty {ℓ} : {A : Type ℓ} → List A → Bool
is_empty [] = true
is_empty (x ∷ xs) = false

-- `Planner::ProvisionPlanes`. The pools are only read; on an error the composition is empty.
unfoldable pub provision_planes :
    List PlanStage → Layers → DrmCrtc → List DrmPlane → List DrmPlane → ℤ × List DrmCompositionPlane
unfolding get_usable_planes run_stages
provision_planes stages layers crtc primary overlay =
    let planes = get_usable_planes crtc primary overlay in
    let s =
      run_stages stages crtc
        (record { ret = ok; composition = []; layers = layers; planes = planes }) in
    if is_empty planes then (enodev, []) else (s.ret, s.composition)
