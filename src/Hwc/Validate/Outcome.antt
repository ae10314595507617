-- ===== src/Hwc/Validate/Outcome.antt =====
-- What a display looks like after `ValidateDisplay`.
use platform_external_drm_hw.Base.{
  ℕ, Bool, true, false, List, [], ◌∷◌, ◌++◌, map, ◌≡◌, refl, ◌∙◌, ◌==◌, if◌then◌else◌, arith,
}
use platform_external_drm_hw.Layer.{Importer, import_buffer, DrmHwcLayer}
use platform_external_drm_hw.Composition.{
  DrmDisplayComposition, init_composition, set_layers, plan, disable_planes,
}
use platform_external_drm_hw.Compositor.Request.{FloatOps}
use platform_external_drm_hw.Hwc.Layer.{HwcLayer, give_up_fence, populate_drm_layer}
use platform_external_drm_hw.Hwc.Display.{
  HwcDisplay, LayerMap, LayerRef, own, client_layer_ref, ZEntry, Platform, on_layer,
  create_composition, populate_layers, update_layer, compose, compose_z_map, submit,
}

-- What `CreateComposition` leaves alone in a layer: all but the acquire fence.
abbrev pub shape : ℕ × HwcLayer → ℕ × HwcLayer
shape = on_layer give_up_fence

shape_release :
    (h : ℕ) (layers : LayerMap)
    → map shape (map (λ e. if e.0 == h then on_layer give_up_fence e else e) layers)
      ≡ map shape layers
shape_release h [] = refl
shape_release h ((i, l) ∷ es) = ground (arith, shape_release h es)

-- What no step of `CreateComposition` changes.
pub record Kept {W : Type 0} (d d' : HwcDisplay W) : Type 0 where
  pub shapes : map shape d'.layers ≡ map shape d.layers
  pub primaries : d'.primary_planes ≡ d.primary_planes
  pub overlays : d'.overlay_planes ≡ d.overlay_planes
  pub index : d'.layer_idx ≡ d.layer_idx

module _ {W : Type 0} where
  Kept-refl : (d : HwcDisplay W) → Kept d d
  Kept-refl d = record { shapes = refl; primaries = refl; overlays = refl; index = refl }

  Kept-trans : {a b c : HwcDisplay W} → Kept a b → Kept b c → Kept a c
  Kept-trans p q = record {
    shapes = q.shapes ∙ p.shapes;
    primaries = q.primaries ∙ p.primaries;
    overlays = q.overlays ∙ p.overlays;
    index = q.index ∙ p.index;
  }

  update_layer-Kept :
      (ref : LayerRef) (d : HwcDisplay W) → Kept d (update_layer ref give_up_fence d)
  unfolding update_layer
  update_layer-Kept (own h) d = record {
    shapes = shape_release h d.layers;
    primaries = refl;
    overlays = refl;
    index = refl;
  }
  update_layer-Kept client_layer_ref d = record {
    shapes = refl;
    primaries = refl;
    overlays = refl;
    index = refl;
  }

module _ {W : Type 0} (floats : FloatOps) (importer : Importer) where
  pub populate_layers-Kept :
      (es : List ZEntry) (out : List _) (d : HwcDisplay W)
      → Kept d (populate_layers floats importer es out d).display
  unfolding populate_layers
  populate_layers-Kept [] out d = Kept-refl d
  populate_layers-Kept (e ∷ es) out d =
      let after = update_layer e.ref give_up_fence d in
      let drm_layer = (import_buffer importer (populate_drm_layer floats e.layer).0).1 in
      ground (
        arith,
        update_layer-Kept e.ref d,
        Kept-trans (update_layer-Kept e.ref d)
            (populate_layers-Kept es (out ++ drm_layer ∷ []) after),
      )

module _ {W : Type 0} (pf : Platform W) where
  submit-Kept :
      (test : Bool) (comp : DrmDisplayComposition) (d : HwcDisplay W)
      → Kept d (submit pf test comp d).1
  unfolding submit
  submit-Kept true comp d = record {
    shapes = refl;
    primaries = refl;
    overlays = refl;
    index = refl;
  }
  submit-Kept false comp d = ground arith

  compose-Kept :
      (test : Bool) (layers : List DrmHwcLayer) (d : HwcDisplay W)
      → Kept d (compose pf test layers d).1
  unfolding compose
  compose-Kept test layers d =
      let comp = (set_layers (init_composition d.crtc d.planner d.frame_no) layers true).1 in
      let r = plan comp (record { primary = d.primary_planes; overlay = d.overlay_planes }) in
      let finished =
        disable_planes (disable_planes r.composition r.pools.primary) r.pools.overlay in
      ground (arith, Kept-refl d, submit-Kept test finished d)

  compose_z_map-Kept :
      (test : Bool) (es : List ZEntry) (d : HwcDisplay W) → Kept d (compose_z_map pf test es d).1
  unfolding compose_z_map
  compose_z_map-Kept test [] d = Kept-refl d
  compose_z_map-Kept test (e ∷ es) d =
      let p = populate_layers pf.floats pf.importer (e ∷ es) [] d in
      let kept = populate_layers-Kept pf.floats pf.importer (e ∷ es) [] d in
      ground (arith, kept, Kept-trans kept (compose-Kept test p.layers p.display))

  -- Composing a frame changes no plane pool, no handle and nothing of a layer but its acquire fence.
  pub create_composition-Kept :
      (test : Bool) (d : HwcDisplay W) → Kept d (create_composition pf test d).1
  unfolding create_composition
  create_composition-Kept test d = compose_z_map-Kept test _ d
