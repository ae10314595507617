-- ===== src/Hwc/Hooks.antt =====
-- `LayerHook` of drmhwctwo.h, and the calls about layers in a row. `map::at` throws on a missing key:
-- `none` stands for that.
pub mod Refinement
use platform_external_drm_hw.Base.{
  ℕ, Bool, Option, none, some, List, [], ◌∷◌, map, ◌==◌, if◌then◌else◌,
}
use platform_external_drm_hw.Hwc.Layer.{HwcLayer, Error, LayerCall, layer_call}
use platform_external_drm_hw.Hwc.Display.{HwcDisplay, LayerMap}
use platform_external_drm_hw.Hwc.Present.{create_layer, destroy_layer}

-- `layers_.at`.
unfoldable pub get_layer : LayerMap → ℕ → Option HwcLayer
get_layer [] h = none
get_layer (e ∷ es) h = let rest = get_layer es h in if e.0 == h then some e.1 else rest

-- The change of the layer that a reference leads to.
unfoldable pub put_layer : ℕ → HwcLayer → LayerMap → LayerMap
put_layer h l [] = []
put_layer h l (e ∷ es) =
    (let rest = put_layer h l es in if e.0 == h then (e.0, l) ∷ es else e ∷ rest)

-- A call of Android about layers.
pub data LayerOp : Type 0 where
  create : LayerOp
  destroy : ℕ → LayerOp
  set : ℕ → LayerCall → LayerOp

module _ {W : Type 0} where
  layer_hook_on : ℕ → LayerCall → HwcDisplay W → Option HwcLayer → Option (Error × HwcDisplay W)
  unfolding layer_call put_layer
  layer_hook_on h call d none = none
  layer_hook_on h call d (some l) =
      let (error, l') = layer_call call l in
      some (error, record d { layers = put_layer h l' d.layers })

  unfoldable pub layer_hook : ℕ → LayerCall → HwcDisplay W → Option (Error × HwcDisplay W)
  unfolding layer_hook_on get_layer
  layer_hook h call d = layer_hook_on h call d (get_layer d.layers h)

  state_of : Option (Error × HwcDisplay W) → Option (HwcDisplay W)
  state_of none = none
  state_of (some r) = some r.1

  unfoldable pub layer_op : LayerOp → HwcDisplay W → Option (HwcDisplay W)
  unfolding create_layer destroy_layer layer_hook state_of
  layer_op create d = some (create_layer d).2
  layer_op (destroy h) d = some (destroy_layer h d).1
  layer_op (set h call) d = state_of (layer_hook h call d)

  unfoldable pub layer_ops : List LayerOp → Option (HwcDisplay W) → Option (HwcDisplay W)
  unfolding layer_op
  layer_ops ops none = none
  layer_ops [] (some d) = some d
  layer_ops (op ∷ ops) (some d) = layer_ops ops (layer_op op d)
