-- ===== src/Hwc/Hooks/Refinement.antt =====
-- The calls about layers, on what a client sees: a partial function from handles to layers.
use platform_external_drm_hw.Base.{
  ℕ, ◌+◌, ◌%◌, ◌^◌, ◌<◌, Bool, true, false, Option, none, some, List, [], ◌∷◌, ◌==◌, if◌then◌else◌,
  ◌≡◌, refl, arith, All,
}
use platform_external_drm_hw.Hwc.Layer.{HwcLayer, LayerCall, layer_call, new_hwc_layer}
use platform_external_drm_hw.Hwc.Display.{HwcDisplay, LayerMap}
use platform_external_drm_hw.Hwc.Hooks.{get_layer, LayerOp}
use platform_external_drm_hw.Hwc.Hooks.LayerOp.{create, destroy, set}

-- The handle that comes next, and the layers.
pub record View : Type 0 where
  pub next : ℕ
  pub layer : ℕ → Option HwcLayer

abbrev pub new_or : Option HwcLayer → HwcLayer
new_or none = new_hwc_layer
new_or (some l) = l

abbrev pub called_on : LayerCall → Option HwcLayer → Option HwcLayer
called_on call none = none
called_on call (some l) = some (layer_call call l).1

abbrev pub is_there : Option HwcLayer → Bool
is_there none = false
is_there (some l) = true

-- The calls on a view: a handle gets a new layer, loses its layer, or has its layer changed; a change
-- without a layer fails.
abbrev pub view_op : LayerOp → View → Option View
view_op create v = some (record {
  next = (v.next + 1) % 2 ^ 32;
  layer = λ k. if v.next == k then some (new_or (v.layer v.next)) else v.layer k;
})
view_op (destroy h) v = some (record v { layer = λ k. if h == k then none else v.layer k })
view_op (set h call) v =
    if is_there (v.layer h)
    then some (record v { layer = λ k. if h == k then called_on call (v.layer h) else v.layer k })
    else none

abbrev pub view_ops : List LayerOp → Option View → Option View
view_ops ops none = none
view_ops [] (some v) = some v
view_ops (op ∷ ops) (some v) = view_ops ops (view_op op v)

-- The handles rise.
abbrev pub IsOrdered : LayerMap → Type 0
IsOrdered [] = Unit
IsOrdered (e ∷ es) = All (λ x. e.0 < x.0) es × IsOrdered es

get-at : (es : LayerMap) (h : ℕ) → All (λ x. h < x.0) es → get_layer es h ≡ none
unfolding get_layer
get-at [] h above = refl
get-at (e ∷ es) h above = ground (arith, above, get-at es h above.1)

module _ {W : Type 0} where
  abbrev pub view : HwcDisplay W → View
  view d = record { next = d.layer_idx; layer = get_layer d.layers }

  abbrev pub map_view : Option (HwcDisplay W) → Option View
  map_view none = none
  map_view (some d) = some (view d)

  abbrev pub AreOrdered : Option (HwcDisplay W) → Type 0
  AreOrdered none = Unit
  AreOrdered (some d) = IsOrdered d.layers
