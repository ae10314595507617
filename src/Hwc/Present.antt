-- ===== src/Hwc/Present.antt =====
-- The calls of `HwcDisplay` in drmhwctwo.cpp about layers and frames, beside `ValidateDisplay`.
pub mod Handles
pub mod Retire
pub mod Changes
use platform_external_drm_hw.Base.{
  ℕ, zero, suc, ◌+◌, ◌%◌, ◌^◌, ℤ, negsuc, Bool, true, false, List, [], ◌∷◌, map, ◌==◌, ltb,
  if◌then◌else◌, ◌&&◌, keep, not, take, length, Option, some, none,
}
use platform_external_drm_hw.Hwc.Layer.{
  HwcLayer, Error, no_error, bad_layer, new_hwc_layer, type_changed, take_release_fence,
}
use platform_external_drm_hw.Hwc.Display.{
  HwcDisplay, LayerMap, Platform, create_composition, on_layer,
}

-- `map::emplace`: the entries stay by rising handle, and an entry that is there is kept.
unfoldable pub layer_emplace : ℕ → HwcLayer → LayerMap → LayerMap
layer_emplace h l [] = (h, l) ∷ []
layer_emplace h l (e ∷ es) =
    let rest = layer_emplace h l es in
    if ltb h e.0 then (h, l) ∷ e ∷ es else (if h == e.0 then e ∷ es else e ∷ rest)

-- What `GetChangedCompositionTypes` writes: `*num_elements`, and the entries of the two arrays.
pub record ChangedTypes : Type 0 where
  pub num_elements : ℕ
  pub layers : List ℕ
  pub types : List ℕ

-- Its loop with `num_changes`, which ends in the first field. Whether the arrays are given comes first, and
-- then the room in them.
unfoldable pub changed_types : Bool → Bool → ℕ → LayerMap → ℕ → ChangedTypes
changed_types layers types room [] num_changes = record {
  num_elements = num_changes;
  layers = [];
  types = [];
}
changed_types layers types room (e ∷ es) num_changes =
    let skipped = changed_types layers types room es num_changes in
    let rest = changed_types layers types room es (num_changes + 1) in
    if type_changed e.1
    then record {
      num_elements = rest.num_elements;
      layers = if layers && ltb num_changes room then e.0 ∷ rest.layers else rest.layers;
      types = if types && ltb num_changes room then e.1.validated_type ∷ rest.types else rest.types;
    }
    else skipped

-- The loop of `GetReleaseFences` with both arrays given, and room for `room` more elements.
release_fences : ℕ → LayerMap → List (ℕ × ℤ) × LayerMap
unfolding take_release_fence
release_fences room [] = ([], [])
release_fences zero (e ∷ es) = ([], e ∷ es)
release_fences (suc room) (e ∷ es) =
    let (fence, l) = take_release_fence e.1 in
    let (fences, es') = release_fences room es in ((e.0, fence) ∷ fences, (e.0, l) ∷ es')

module _ {W : Type 0} where
  -- `CreateLayer`: the display with the layer, and its handle. `layer_idx_` is a `uint32_t`.
  unfoldable pub create_layer : HwcDisplay W → Error × ℕ × HwcDisplay W
  unfolding layer_emplace
  create_layer d = (
    no_error,
    d.layer_idx,
    record d {
      layers = layer_emplace d.layer_idx new_hwc_layer d.layers;
      layer_idx = (d.layer_idx + 1) % 2 ^ 32;
    },
  )

  unfoldable pub destroy_layer : ℕ → HwcDisplay W → Error × HwcDisplay W
  destroy_layer h d = (no_error, record d { layers = keep (λ e. not (e.0 == h)) d.layers })

  -- On whether the two arrays are given, and `*num_elements`.
  unfoldable pub get_changed_composition_types : Bool → Bool → ℕ → HwcDisplay W → ChangedTypes
  unfolding changed_types
  get_changed_composition_types layers types room d =
      let r = changed_types layers types room d.layers 0 in
      if not layers && not types then r else record r { num_elements = room }

  -- On whether both arrays are given, and `*num_elements`: that number afterwards, what is written to the
  -- arrays, and the display.
  unfoldable pub get_release_fences : Bool → ℕ → HwcDisplay W → ℕ × List (ℕ × ℤ) × HwcDisplay W
  unfolding release_fences
  get_release_fences both room d =
      let (fences, layers) = release_fences room d.layers in
      if both
      then (
        if ltb room (length d.layers) then room else length d.layers,
        fences,
        record d { layers = layers },
      )
      else (length d.layers, [], d)

abbrev is_bad_layer : Error → Bool
is_bad_layer bad_layer = true
is_bad_layer _ = false

abbrev pub is_no_error : Error → Bool
is_no_error no_error = true
is_no_error _ = false

-- The result of `PresentDisplay`: the code, and `*retire_fence` if it is written.
pub record Presented (W : Type 0) : Type 0 where
  pub error : Error
  pub retire_fence : Option ℤ
  pub display : HwcDisplay W

module _ {W : Type 0} (pf : Platform W) where
  -- `PresentDisplay`. The fence of the frame before is given out, and `next_retire_fence_` is moved.
  unfoldable pub present_display : HwcDisplay W → Presented W
  unfolding create_composition
  present_display d =
      let (error, d') = create_composition pf false d in
      if is_bad_layer error
      then record { error = no_error; retire_fence = some (negsuc 0); display = d' }
      else (if is_no_error error
          then record {
            error = no_error;
            retire_fence = some d'.retire_fence;
            display = record d' {
              retire_fence = d'.next_retire_fence;
              next_retire_fence = negsuc 0;
              frame_no = (d'.frame_no + 1) % 2 ^ 32;
            };
          }
          else record { error = error; retire_fence = none; display = d' })
