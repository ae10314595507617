-- ===== src/Hwc/Validate/Types.antt =====
-- The composition types that `ValidateDisplay` leaves in the layers of a display.
use platform_external_drm_hw.Base.{
  ℕ, zero, suc, ◌+◌, ◌≤◌, Bool, List, [], ◌∷◌, map, ◌≡◌, refl, sym, subst, ◌==◌, length, count_if,
  arith, All, ◌∙◌, ap,
}
use platform_external_drm_hw.Layer.{Importer}
use platform_external_drm_hw.Hwc.CompositionType
use platform_external_drm_hw.Hwc.Layer.{HwcLayer, set_validated_type, give_up_fence}
use platform_external_drm_hw.Hwc.Display.{LayerMap, on_layer}
use platform_external_drm_hw.Hwc.Validate.{given, is_in, mark, settle, goes_to_client}
use platform_external_drm_hw.Hwc.Validate.Outcome.{shape}

abbrev pub for_client : ℕ × HwcLayer → Bool
for_client e = e.1.validated_type == CompositionType.client

abbrev pub for_device : ℕ × HwcLayer → Bool
for_device e = e.1.validated_type == CompositionType.device

abbrev pub has_handle : ℕ → ℕ × HwcLayer → Bool
has_handle h e = e.0 == h

abbrev pub IsUndecided : ℕ × HwcLayer → Type 0
IsUndecided e = e.1.validated_type ≡ CompositionType.invalid

-- The layers but for their fences and for what validation decides.
abbrev pub described : ℕ × HwcLayer → ℕ × HwcLayer
described (h, l) = (h, set_validated_type CompositionType.invalid (give_up_fence l))

pub cleared-IsUndecided :
    (es : LayerMap)
    → All IsUndecided (map (on_layer (set_validated_type CompositionType.invalid)) es)
cleared-IsUndecided [] = tt
cleared-IsUndecided (e ∷ es) = (refl, cleared-IsUndecided es)

to_shape-IsUndecided : (es : LayerMap) → All IsUndecided es → All IsUndecided (map shape es)
to_shape-IsUndecided [] h = tt
to_shape-IsUndecided (e ∷ es) h = (h.0, to_shape-IsUndecided es h.1)

from_shape-IsUndecided : (es : LayerMap) → All IsUndecided (map shape es) → All IsUndecided es
from_shape-IsUndecided [] h = tt
from_shape-IsUndecided (e ∷ es) h = (h.0, from_shape-IsUndecided es h.1)

-- Layers of the same shape are undecided together.
pub same_shape-IsUndecided :
    (es fs : LayerMap) → map shape fs ≡ map shape es → All IsUndecided es → All IsUndecided fs
same_shape-IsUndecided es fs same h =
    from_shape-IsUndecided fs (subst (All IsUndecided) (sym same) (to_shape-IsUndecided es h))

described-shape : (es : LayerMap) → map described (map shape es) ≡ map described es
described-shape [] = refl
described-shape (e ∷ es) = ground (arith, described-shape es)

-- Layers of the same shape are described alike.
pub same_shape-described :
    (es fs : LayerMap) → map shape fs ≡ map shape es → map described fs ≡ map described es
same_shape-described es fs same =
    sym (described-shape fs) ∙ ap (map described) same ∙ described-shape es

pub cleared-described :
    (es : LayerMap)
    → map described (map (on_layer (set_validated_type CompositionType.invalid)) es)
      ≡ map described es
cleared-described [] = refl
cleared-described (e ∷ es) = ground (arith, cleared-described es)

pub count-has_handle :
    (h : ℕ) (es : LayerMap) → count_if (has_handle h) (map shape es) ≡ count_if (has_handle h) es
count-has_handle h [] = refl
count-has_handle h (e ∷ es) = ground (arith, count-has_handle h es)

pub count-has_handle-cleared :
    (h : ℕ) (es : LayerMap)
    → count_if (has_handle h) (map (on_layer (set_validated_type CompositionType.invalid)) es)
      ≡ count_if (has_handle h) es
count-has_handle-cleared h [] = refl
count-has_handle-cleared h (e ∷ es) = ground (arith, count-has_handle-cleared h es)

pub length-given : (importer : Importer) (n : ℕ) (es : LayerMap) → length (given importer n es) ≤ n
unfolding given
length-given importer zero [] = omega arith
length-given importer (suc n) [] = omega arith
length-given importer zero (e ∷ es) = omega arith
length-given importer (suc n) (e ∷ es) = ground (arith, length-given importer n es)

count-or :
    (x : ℕ) (hs : List ℕ) (es : LayerMap)
    → count_if (λ e. is_in (x ∷ hs) e.0) es
      ≤ count_if (has_handle x) es + count_if (λ e. is_in hs e.0) es
count-or x hs [] = omega arith
count-or x hs (e ∷ es) = ground (arith, count-or x hs es)

pub count-none : (es : LayerMap) → count_if (λ e. is_in [] e.0) es ≡ 0
count-none [] = refl
count-none (e ∷ es) = count-none es

-- Distinct handles pick at most as many layers as there are of them.
pub count-is_in :
    (hs : List ℕ) (es : LayerMap)
    → ((h : ℕ) → count_if (has_handle h) es ≤ 1)
    → count_if (λ e. is_in hs e.0) es ≤ length hs
count-is_in [] es distinct = omega (arith, count-none es)
count-is_in (x ∷ hs) es distinct =
    omega (arith, count-or x hs es, distinct x, count-is_in hs es distinct)

abbrev decide : List ℕ → ℕ × HwcLayer → ℕ × HwcLayer
decide hs e = on_layer settle (mark hs e)

-- A layer that goes to the device was picked.
pub count-decided :
    (hs : List ℕ) (es : LayerMap)
    → All IsUndecided es
    → count_if for_device (map (on_layer settle) (map (mark hs) es))
      ≤ count_if (λ e. is_in hs e.0) es
count-decided hs [] h = omega arith
count-decided hs (e ∷ es) h = ground (arith, h.0, count-decided hs es h.1)

pub described-decided :
    (hs : List ℕ) (es : LayerMap)
    → map described (map (on_layer settle) (map (mark hs) es)) ≡ map described es
described-decided hs [] = refl
described-decided hs (e ∷ es) = ground (arith, described-decided hs es)

pub count-client :
    (es : LayerMap)
    → count_if for_client (map (on_layer settle) es) ≡ count_if (λ e. goes_to_client e.1) es
count-client [] = refl
count-client (e ∷ es) = ground (arith, count-client es)

pub count-all :
    (es : LayerMap)
    → count_if for_client (map (on_layer settle) es)
        + count_if for_device (map (on_layer settle) es)
      ≡ length es
count-all [] = refl
count-all (e ∷ es) = ground (arith, count-all es)
