-- ===== src/Hwc/Display.antt =====
-- `DrmHwcTwo::HwcDisplay` of drmhwctwo.h and drmhwctwo.cpp: validation and presentation of a display.
pub mod Stacking
use platform_external_drm_hw.Base.{
  ℕ, min, ℤ, negsuc, nonzero, negative, Bool, true, false, List, [], ◌∷◌, ◌++◌, map, ◌==◌, ◌&&◌,
  not, ltb, if◌then◌else◌,
}
use platform_external_drm_hw.Kernel.{Kms}
use platform_external_drm_hw.Drm.Crtc.{DrmCrtc}
use platform_external_drm_hw.Drm.Plane.{DrmPlane}
use platform_external_drm_hw.Layer.{DrmHwcLayer, Importer, import_buffer}
use platform_external_drm_hw.Planner.{PlanStage}
use platform_external_drm_hw.Composition.{
  DrmDisplayComposition, init_composition, set_layers, plan, disable_planes,
}
use platform_external_drm_hw.Compositor.Request.{FloatOps}
use platform_external_drm_hw.Compositor.State.{System, OutFences}
use platform_external_drm_hw.Compositor.{apply_composition, test_composition}
use platform_external_drm_hw.Vsync.{VSyncWorker}
use platform_external_drm_hw.Hwc.Layer.{
  HwcLayer, Error, no_error, bad_layer, no_resources, bad_config, bad_parameter, Os,
  accept_type_change, populate_drm_layer, give_up_fence,
}
use platform_external_drm_hw.Hwc.CompositionType

-- `std::map<hwc2_layer_t, HwcLayer>`: the entries by rising handle.
abbrev pub LayerMap : Type 0
LayerMap = List (ℕ × HwcLayer)

pub record HwcDisplay (W : Type 0) : Type 0 where
  pub system : System W
  pub planner : List PlanStage
  pub primary_planes : List DrmPlane
  pub overlay_planes : List DrmPlane
  pub vsync_worker : VSyncWorker
  pub crtc : DrmCrtc
  pub layer_idx : ℕ
  pub layers : LayerMap
  pub client_layer : HwcLayer
  pub retire_fence : ℤ
  pub next_retire_fence : ℤ
  pub color_mode : ℕ
  pub frame_no : ℕ

abbrev pub on_layer : (HwcLayer → HwcLayer) → ℕ × HwcLayer → ℕ × HwcLayer
on_layer f (h, l) = (h, f l)

-- A `HwcLayer *` of `z_map`: into `layers_`, or to `client_layer_`.
pub data LayerRef : Type 0 where
  own : ℕ → LayerRef
  client_layer_ref : LayerRef

-- An entry of `z_map`, with the layer that the pointer leads to.
pub record ZEntry : Type 0 where
  pub z : ℕ
  pub ref : LayerRef
  pub layer : HwcLayer

-- `z_map.emplace`: the entries are by rising z, and one that is there is kept.
unfoldable pub z_insert : ZEntry → List ZEntry → List ZEntry
z_insert e [] = e ∷ []
z_insert e (x ∷ xs) =
    let rest = z_insert e xs in
    if ltb e.z x.z then e ∷ x ∷ xs else (if e.z == x.z then x ∷ xs else x ∷ rest)

-- UINT32_MAX.
abbrev pub uint32_max : ℕ
uint32_max = 4294967295

pub record ZScan : Type 0 where
  pub z_map : List ZEntry
  pub use_client_layer : Bool
  pub client_z_order : ℕ

-- `comp_type` of the loop: what Android asks for if it can be imported, or what validation chose.
unfoldable pub comp_type : Importer → Bool → HwcLayer → ℕ
comp_type importer test l =
    if test
    then (if l.sf_type == CompositionType.device && not (importer.can_import_buffer l.buffer)
        then CompositionType.client
        else l.sf_type)
    else l.validated_type

scan_layer : Importer → Bool → ℕ × HwcLayer → ZScan → ZScan
unfolding z_insert comp_type
scan_layer importer test (h, l) s =
    if comp_type importer test l == CompositionType.device
    then record s { z_map = z_insert (record { z = l.z_order; ref = own h; layer = l }) s.z_map }
    else (if comp_type importer test l == CompositionType.client
        then record s { use_client_layer = true; client_z_order = min s.client_z_order l.z_order }
        else s)

unfoldable pub scan_layers : Importer → Bool → LayerMap → ZScan → ZScan
unfolding scan_layer
scan_layers importer test [] s = s
scan_layers importer test (e ∷ es) s = scan_layers importer test es (scan_layer importer test e s)

-- The finished `z_map` of `CreateComposition`.
unfoldable pub z_map_of : Importer → Bool → LayerMap → HwcLayer → List ZEntry
unfolding scan_layers z_insert
z_map_of importer test layers client =
    let s =
      scan_layers importer test layers
        (record { z_map = []; use_client_layer = false; client_z_order = uint32_max }) in
    if s.use_client_layer
    then z_insert (record { z = s.client_z_order; ref = client_layer_ref; layer = client }) s.z_map
    else s.z_map

module _ {W : Type 0} where
  -- A change through a pointer of `z_map`.
  unfoldable pub update_layer : LayerRef → (HwcLayer → HwcLayer) → HwcDisplay W → HwcDisplay W
  update_layer (own h) f d = record d {
    layers = map (λ e. if e.0 == h then on_layer f e else e) d.layers;
  }
  update_layer client_layer_ref f d = record d { client_layer = f d.client_layer }

  unfoldable pub accept_display_changes : HwcDisplay W → HwcDisplay W
  accept_display_changes d = record d { layers = map (on_layer accept_type_change) d.layers }

-- The loop that turns `z_map` into `map.layers`, from the bottom up; `imported` is false when an import
-- has failed.
pub record Populated (W : Type 0) : Type 0 where
  pub imported : Bool
  pub layers : List DrmHwcLayer
  pub display : HwcDisplay W

module _ {W : Type 0} (floats : FloatOps) (importer : Importer) where
  unfoldable pub populate_layers : List ZEntry → List DrmHwcLayer → HwcDisplay W → Populated W
  unfolding populate_drm_layer import_buffer update_layer
  populate_layers [] out d = record { imported = true; layers = out; display = d }
  populate_layers (e ∷ es) out d =
      let d' = update_layer e.ref give_up_fence d in
      let (ret, drm_layer) = import_buffer importer (populate_drm_layer floats e.layer).0 in
      let rest = populate_layers es (out ++ drm_layer ∷ []) d' in
      if nonzero ret then record { imported = false; layers = out; display = d' } else rest

-- What one call of the display needs beside its state: the kernel, the importer and the system.
pub record Platform (W : Type 0) : Type 0 where
  pub kms : Kms W
  pub importer : Importer
  pub floats : FloatOps
  pub os : Os
  pub fences : OutFences

module _ {W : Type 0} (pf : Platform W) where
  unfoldable pub add_fence_to_retire_fence : ℤ → HwcDisplay W → HwcDisplay W
  add_fence_to_retire_fence fd d =
      if negative fd
      then d
      else (if negative d.next_retire_fence
          then record d { next_retire_fence = pf.os.dup fd }
          else record d { next_retire_fence = pf.os.sync_merge d.next_retire_fence fd })

  -- The end of `CreateComposition`: the test commit, or the commit. The out fence is taken from the
  -- composition before the commit sets it.
  unfoldable pub submit : Bool → DrmDisplayComposition → HwcDisplay W → Error × HwcDisplay W
  unfolding add_fence_to_retire_fence
  submit true comp d =
      let r = test_composition pf.kms pf.floats pf.fences comp d.system in
      (if nonzero r.ret then bad_parameter else no_error, record d { system = r.system })
  submit false comp d =
      let d' = add_fence_to_retire_fence comp.out_fence d in
      let taken = record comp { out_fence = negsuc 0 } in
      let (ret, sys) = apply_composition pf.kms pf.floats pf.fences taken d'.system in
      (if nonzero ret then bad_parameter else no_error, record d' { system = sys })

  -- From the layers to the planned composition, and its submission.
  unfoldable pub compose : Bool → List DrmHwcLayer → HwcDisplay W → Error × HwcDisplay W
  unfolding submit
  compose test layers d =
      let (code, comp) = set_layers (init_composition d.crtc d.planner d.frame_no) layers true in
      let r = plan comp (record { primary = d.primary_planes; overlay = d.overlay_planes }) in
      let finished =
        disable_planes (disable_planes r.composition r.pools.primary) r.pools.overlay in
      let submitted = submit test finished d in
      if nonzero code
      then (bad_layer, d)
      else (if nonzero r.ret then (bad_config, d) else submitted)

  unfoldable pub compose_z_map : Bool → List ZEntry → HwcDisplay W → Error × HwcDisplay W
  unfolding populate_layers compose
  compose_z_map test [] d = (bad_layer, d)
  compose_z_map test (e ∷ es) d =
      let p = populate_layers pf.floats pf.importer (e ∷ es) [] d in
      let composed = compose test p.layers p.display in
      if p.imported then composed else (no_resources, p.display)

  unfoldable pub create_composition : Bool → HwcDisplay W → Error × HwcDisplay W
  unfolding z_map_of compose_z_map
  create_composition test d =
      compose_z_map test (z_map_of pf.importer test d.layers d.client_layer) d
