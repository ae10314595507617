-- ===== src/Hwc/Validate.antt =====
-- `HwcDisplay::ValidateDisplay` of drmhwctwo.cpp: which layers get a plane of their own.
pub mod Outcome
pub mod Types
pub mod Decisions
use platform_external_drm_hw.Base.{
  ℕ, zero, suc, ◌+◌, ◌-◌, ◌%◌, ◌^◌, Bool, true, false, Option, none, some, List, [], ◌∷◌, ◌++◌, map,
  ◌==◌, ◌&&◌, ◌||◌, not, ltb, length, count_if, if◌then◌else◌,
}
use platform_external_drm_hw.Layer.{Importer}
use platform_external_drm_hw.Hwc.CompositionType
use platform_external_drm_hw.Hwc.Layer.{HwcLayer, Error, no_error, has_changes, set_validated_type}
use platform_external_drm_hw.Hwc.Display.{
  HwcDisplay, LayerMap, Platform, on_layer, create_composition, uint32_max,
}

-- The order of `std::greater<int>`: a `uint32_t` is compared as the `int` with its bits.
abbrev int_rank : ℕ → ℕ
int_rank z = (z + 2 ^ 31) % 2 ^ 32

-- `z_map.emplace`: by falling z, and an entry that is there is kept.
insert_falling : ℕ × HwcLayer → LayerMap → LayerMap
insert_falling e [] = e ∷ []
insert_falling e (x ∷ xs) =
    let rest = insert_falling e xs in
    if ltb (int_rank x.1.z_order) (int_rank e.1.z_order)
    then e ∷ x ∷ xs
    else (if ltb (int_rank e.1.z_order) (int_rank x.1.z_order) then x ∷ rest else x ∷ xs)

-- The device layers, topmost first.
unfoldable pub device_layers : LayerMap → LayerMap → LayerMap
unfolding insert_falling
device_layers [] found = found
device_layers (e ∷ es) found =
    device_layers es
      (if e.1.sf_type == CompositionType.device then insert_falling e found else found)

-- `avail_planes--` on a `size_t`.
abbrev pub decrement : ℕ → ℕ
decrement zero = 2 ^ 64 - 1
decrement (suc n) = n

-- The planes to be given out: one is kept back if there are fewer planes than layers.
unfoldable pub planes_to_give : ℕ → ℕ → ℕ
planes_to_give avail layers = if ltb avail layers then decrement avail else avail

-- The loop that gives them out: the handles of the layers that become device layers. A layer that
-- cannot be imported uses up its turn.
unfoldable pub given : Importer → ℕ → LayerMap → List ℕ
given importer avail [] = []
given importer zero (e ∷ es) = []
given importer (suc n) (e ∷ es) =
    let rest = given importer n es in
    if importer.can_import_buffer e.1.buffer then e.0 ∷ rest else rest

abbrev pub is_in : List ℕ → ℕ → Bool
is_in [] h = false
is_in (x ∷ xs) h = x == h || is_in xs h

abbrev pub mark : List ℕ → ℕ × HwcLayer → ℕ × HwcLayer
mark hs (h, l) = (h, if is_in hs h then set_validated_type CompositionType.device l else l)

-- `!(sf_type == Device && validated_type == Device)`, the layers that go to the client.
abbrev pub goes_to_client : HwcLayer → Bool
goes_to_client l =
    not (l.sf_type == CompositionType.device) || not (l.validated_type == CompositionType.device)

abbrev pub settle : HwcLayer → HwcLayer
settle l = if goes_to_client l then set_validated_type CompositionType.client l else l

pub record Validated (W : Type 0) : Type 0 where
  pub num_types : ℕ
  pub error : Error
  pub display : HwcDisplay W

abbrev pub is_error : Error → Bool
is_error no_error = false
is_error _ = true

-- The types of the layers after the loops, from the layers after `CreateComposition(true)`.
unfoldable pub choose_types : Importer → Bool → ℕ → LayerMap → ℕ × LayerMap
unfolding device_layers given planes_to_give
choose_types importer comp_failed planes layers =
    let avail = planes_to_give planes (length layers) in
    let handles = if comp_failed then [] else given importer avail (device_layers layers []) in
    let marked = map (mark handles) layers in
    (count_if (λ e. goes_to_client e.1) marked, map (on_layer settle) marked)

unfoldable pub validate_display : {W : Type 0} → Platform W → HwcDisplay W → Validated W
unfolding choose_types create_composition
validate_display pf d =
    let cleared = record d {
      layers = map (on_layer (set_validated_type CompositionType.invalid)) d.layers;
    } in
    let (error, d') = create_composition pf true cleared in
    let (num_types, layers) =
      choose_types pf.importer (is_error error) (length d.primary_planes + length d.overlay_planes)
        d'.layers in
    record {
      num_types = num_types;
      error = if num_types == 0 then no_error else has_changes;
      display = record d' { layers = layers };
    }
