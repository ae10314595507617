-- ===== src/Hwc/Present/Retire.antt =====
-- The retire fences that `PresentDisplay` gives out.
use platform_external_drm_hw.Base.{
  ℕ, negsuc, Bool, true, false, none, some, List, [], ◌∷◌, ◌++◌, ◌≡◌, refl, ◌∙◌, arith, ◌⊎◌,
}
use platform_external_drm_hw.Drm.Plane.{DrmPlane}
use platform_external_drm_hw.Drm.Crtc.{DrmCrtc}
use platform_external_drm_hw.Planner.{PlanStage}
use platform_external_drm_hw.Layer.{DrmHwcLayer, Importer, import_buffer}
use platform_external_drm_hw.Composition.{
  DrmDisplayComposition, Pools, init_composition, set_layers, plan, disable_planes,
  add_plane_disable, validate_composition_type,
}
use platform_external_drm_hw.Compositor.Request.{FloatOps}
use platform_external_drm_hw.Hwc.Layer.{give_up_fence, populate_drm_layer}
use platform_external_drm_hw.Hwc.Display.{
  HwcDisplay, LayerRef, own, client_layer_ref, ZEntry, Platform, update_layer, populate_layers,
  submit, compose, compose_z_map, create_composition, add_fence_to_retire_fence,
}
use platform_external_drm_hw.Hwc.Present.{present_display}

plan-out_fence :
    (c : DrmDisplayComposition) (pools : Pools) → (plan c pools).composition.out_fence ≡ c.out_fence
unfolding plan
plan-out_fence c pools = ground arith

disable_planes-out_fence :
    (c : DrmDisplayComposition) (ps : List DrmPlane) → (disable_planes c ps).out_fence ≡ c.out_fence
unfolding disable_planes add_plane_disable
disable_planes-out_fence c [] = refl
disable_planes-out_fence c (p ∷ ps) = disable_planes-out_fence (add_plane_disable c p) ps

-- The composition that a frame starts from has no out fence.
fresh-out_fence :
    (crtc : DrmCrtc) (planner : List PlanStage) (frame_no : ℕ) (layers : List DrmHwcLayer)
    → (set_layers (init_composition crtc planner frame_no) layers true).1.out_fence ≡ negsuc 0
unfolding set_layers init_composition validate_composition_type
fresh-out_fence crtc planner frame_no layers = refl

-- Neither retire fence is set.
pub record NoFences {W : Type 0} (d : HwcDisplay W) : Type 0 where
  pub retire : d.retire_fence ≡ negsuc 0
  pub next : d.next_retire_fence ≡ negsuc 0

module _ {W : Type 0} where
  update_layer-NoFences :
      (ref : LayerRef) (d : HwcDisplay W) → NoFences d → NoFences (update_layer ref give_up_fence d)
  unfolding update_layer
  update_layer-NoFences (own h) d n = record { retire = n.retire; next = n.next }
  update_layer-NoFences client_layer_ref d n = record { retire = n.retire; next = n.next }

module _ {W : Type 0} (floats : FloatOps) (importer : Importer) where
  populate_layers-NoFences :
      (es : List ZEntry) (out : List DrmHwcLayer) (d : HwcDisplay W)
      → NoFences d
      → NoFences (populate_layers floats importer es out d).display
  unfolding populate_layers
  populate_layers-NoFences [] out d n = n
  populate_layers-NoFences (e ∷ es) out d n =
      let after = update_layer e.ref give_up_fence d in
      let released = update_layer-NoFences e.ref d n in
      let drm_layer = (import_buffer importer (populate_drm_layer floats e.layer).0).1 in
      ground (arith, released, populate_layers-NoFences es (out ++ drm_layer ∷ []) after released)

module _ {W : Type 0} (pf : Platform W) where
  submit-NoFences :
      (test : Bool) (comp : DrmDisplayComposition) (d : HwcDisplay W)
      → comp.out_fence ≡ negsuc 0
      → NoFences d
      → NoFences (submit pf test comp d).1
  unfolding submit add_fence_to_retire_fence
  submit-NoFences true comp d unset n = record { retire = n.retire; next = n.next }
  submit-NoFences false comp d unset n = ground (arith, unset, n)

  compose-NoFences :
      (test : Bool) (layers : List DrmHwcLayer) (d : HwcDisplay W)
      → NoFences d
      → NoFences (compose pf test layers d).1
  unfolding compose
  compose-NoFences test layers d n =
      let comp = (set_layers (init_composition d.crtc d.planner d.frame_no) layers true).1 in
      let r = plan comp (record { primary = d.primary_planes; overlay = d.overlay_planes }) in
      let half = disable_planes r.composition r.pools.primary in
      let unset =
        disable_planes-out_fence half r.pools.overlay
        ∙ disable_planes-out_fence r.composition r.pools.primary
        ∙ plan-out_fence comp (record { primary = d.primary_planes; overlay = d.overlay_planes })
        ∙ fresh-out_fence d.crtc d.planner d.frame_no layers in
      ground (arith, n, submit-NoFences test (disable_planes half r.pools.overlay) d unset n)

  compose_z_map-NoFences :
      (test : Bool) (es : List ZEntry) (d : HwcDisplay W)
      → NoFences d
      → NoFences (compose_z_map pf test es d).1
  unfolding compose_z_map
  compose_z_map-NoFences test [] d n = n
  compose_z_map-NoFences test (e ∷ es) d n =
      let p = populate_layers pf.floats pf.importer (e ∷ es) [] d in
      let populated = populate_layers-NoFences pf.floats pf.importer (e ∷ es) [] d n in
      ground (arith, populated, compose-NoFences test p.layers p.display populated)

  create_composition-NoFences :
      (test : Bool) (d : HwcDisplay W) → NoFences d → NoFences (create_composition pf test d).1
  unfolding create_composition
  create_composition-NoFences test d n = compose_z_map-NoFences test _ d n

  -- A display without retire fences stays without them when a frame is presented, and `PresentDisplay`
  -- reports no fence, or fails and reports nothing.
  pub present_display-NoFences :
      (d : HwcDisplay W)
      → NoFences d
      → let r = present_display pf d in
        NoFences r.display × ((r.retire_fence ≡ none) ⊎ (r.retire_fence ≡ some (negsuc 0)))
  unfolding present_display
  present_display-NoFences d n = ground (arith, create_composition-NoFences false d n)
