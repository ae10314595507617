-- ===== src/Hwc/Present/Handles.antt =====
-- The handles of the layers of a display.
use platform_external_drm_hw.Base.{
  Bool, true, false, ℕ, zero, suc, ◌+◌, ◌≤◌, ◌<◌, ◌%◌, ◌^◌, Bool, false, List, [], ◌∷◌, map, ◌≡◌,
  refl, sym, ap, ◌∙◌, ◌==◌, arith, All, All-imp, count_if, keep, not,
}
use platform_external_drm_hw.Hwc.Layer.{HwcLayer, new_hwc_layer}
use platform_external_drm_hw.Hwc.Display.{HwcDisplay, LayerMap, Platform, create_composition}
use platform_external_drm_hw.Hwc.Validate.{validate_display}
use platform_external_drm_hw.Hwc.Validate.Outcome.{shape, create_composition-Kept}
use platform_external_drm_hw.Hwc.Validate.Types.{described}
use platform_external_drm_hw.Hwc.Validate.Decisions.{validate_display-described}
use platform_external_drm_hw.Hwc.Present.{
  layer_emplace, create_layer, destroy_layer, present_display, release_fences, get_release_fences,
}

abbrev pub handles : LayerMap → List ℕ
handles es = map (λ e. e.0) es

abbrev pub is_handle : ℕ → ℕ → Bool
is_handle h x = x == h

-- The handles are distinct, and below the number that the next layer gets.
pub record AreNumbered (next : ℕ) (hs : List ℕ) : Type 0 where
  pub below : All (λ h. h < next) hs
  pub distinct : (h : ℕ) → count_if (is_handle h) hs ≤ 1

abbrev pub WellNumbered : {W : Type 0} → HwcDisplay W → Type 0
WellNumbered d = AreNumbered d.layer_idx (handles d.layers)

handles-shape : (es : LayerMap) → handles (map shape es) ≡ handles es
handles-shape [] = refl
handles-shape (e ∷ es) = ground (arith, handles-shape es)

handles-described : (es : LayerMap) → handles (map described es) ≡ handles es
handles-described [] = refl
handles-described (e ∷ es) = ground (arith, handles-described es)

none_at_or_above :
    (h next : ℕ) (hs : List ℕ) → All (λ x. x < next) hs → next ≤ h → count_if (is_handle h) hs ≡ 0
none_at_or_above h next [] below over = refl
none_at_or_above h next (x ∷ xs) below over =
    ground (arith, below.0, over, none_at_or_above h next xs below.1 over)

emplace-below :
    (h next : ℕ) (l : HwcLayer) (es : LayerMap)
    → h < next
    → All (λ x. x < next) (handles es)
    → All (λ x. x < next) (handles (layer_emplace h l es))
unfolding layer_emplace
emplace-below h next l [] fits below = (fits, tt)
emplace-below h next l (e ∷ es) fits below =
    ground (arith, fits, below, emplace-below h next l es fits below.1)

count-emplace :
    (k h : ℕ) (l : HwcLayer) (es : LayerMap)
    → count_if (is_handle k) (handles (layer_emplace h l es))
      ≤ count_if (is_handle k) (h ∷ handles es)
unfolding layer_emplace
count-emplace k h l [] = omega arith
count-emplace k h l (e ∷ es) = ground (arith, count-emplace k h l es)

keep-below :
    (p : ℕ × HwcLayer → Bool) (next : ℕ) (es : LayerMap)
    → All (λ x. x < next) (handles es)
    → All (λ x. x < next) (handles (keep p es))
keep-below p next [] below = tt
keep-below p next (e ∷ es) below = ground (arith, below, keep-below p next es below.1)

count-keep :
    (k : ℕ) (p : ℕ × HwcLayer → Bool) (es : LayerMap)
    → count_if (is_handle k) (handles (keep p es)) ≤ count_if (is_handle k) (handles es)
count-keep k p [] = omega arith
count-keep k p (e ∷ es) = ground (arith, count-keep k p es)

count-destroyed :
    (h : ℕ) (es : LayerMap) → count_if (is_handle h) (handles (keep (λ e. not (e.0 == h)) es)) ≡ 0
count-destroyed h [] = refl
count-destroyed h (e ∷ es) = ground (arith, count-destroyed h es)

handles-release : (room : ℕ) (es : LayerMap) → handles (release_fences room es).1 ≡ handles es
unfolding release_fences
handles-release room [] = refl
handles-release zero (e ∷ es) = refl
handles-release (suc room) (e ∷ es) = ground (arith, handles-release room es)

module _ {W : Type 0} where
  pub get_release_fences-handles :
      (both : Bool) (room : ℕ) (d : HwcDisplay W)
      → handles (get_release_fences both room d).2.layers ≡ handles d.layers
  unfolding get_release_fences
  get_release_fences-handles true room d = handles-release room d.layers
  get_release_fences-handles false room d = refl

  -- While the counter of layers has not reached its last value, and the handles are distinct and below
  -- the counter, `CreateLayer` gives out a handle that no layer has and keeps the handles so.
  pub create_layer-WellNumbered :
      (d : HwcDisplay W)
      → d.layer_idx + 1 < 2 ^ 32
      → WellNumbered d
      → (count_if (is_handle (create_layer d).1) (handles d.layers) ≡ 0)
        × WellNumbered (create_layer d).2
  unfolding create_layer
  create_layer-WellNumbered d room numbered =
      let absent =
        none_at_or_above d.layer_idx d.layer_idx (handles d.layers) numbered.below (omega arith) in
      let widened =
        All-imp (λ h. h < d.layer_idx) (λ h. h < (d.layer_idx + 1) % 2 ^ 32) (handles d.layers)
          (λ h low. omega (arith, low, room)) numbered.below in
      (
        absent,
        record {
          below =
              emplace-below d.layer_idx ((d.layer_idx + 1) % 2 ^ 32) new_hwc_layer d.layers
                (omega (arith, room)) widened;
          distinct = λ k. ground (
            arith,
            count-emplace k d.layer_idx new_hwc_layer d.layers,
            numbered.distinct k,
            absent,
          );
        },
      )

  -- If the handles are distinct and below the counter, they are so after `DestroyLayer`, and no layer
  -- with the destroyed handle is left.
  pub destroy_layer-WellNumbered :
      (h : ℕ) (d : HwcDisplay W)
      → WellNumbered d
      → (count_if (is_handle h) (handles (destroy_layer h d).1.layers) ≡ 0)
        × WellNumbered (destroy_layer h d).1
  unfolding destroy_layer
  destroy_layer-WellNumbered h d numbered = (
    count-destroyed h d.layers,
    record {
      below = keep-below (λ e. not (e.0 == h)) d.layer_idx d.layers numbered.below;
      distinct =
          λ k. omega (arith, count-keep k (λ e. not (e.0 == h)) d.layers, numbered.distinct k);
    },
  )

module _ {W : Type 0} (pf : Platform W) where
  create_composition-handles :
      (test : Bool) (d : HwcDisplay W)
      → handles (create_composition pf test d).1.layers ≡ handles d.layers
  create_composition-handles test d =
      sym (handles-shape (create_composition pf test d).1.layers)
      ∙ ap handles (create_composition-Kept pf test d).shapes
      ∙ handles-shape d.layers

  -- `ValidateDisplay` neither adds nor removes a layer.
  pub validate_display-handles :
      (d : HwcDisplay W) → handles (validate_display pf d).display.layers ≡ handles d.layers
  validate_display-handles d =
      sym (handles-described (validate_display pf d).display.layers)
      ∙ ap handles (validate_display-described pf d)
      ∙ handles-described d.layers

  -- `PresentDisplay` neither adds nor removes a layer.
  pub present_display-handles :
      (d : HwcDisplay W) → handles (present_display pf d).display.layers ≡ handles d.layers
  unfolding present_display
  present_display-handles d = ground (arith, create_composition-handles false d)

  -- Neither `ValidateDisplay` nor `PresentDisplay`, whatever they answer, adds or removes a layer: the handles stay the same.
  pub frame-handles :
      (d : HwcDisplay W)
      → (handles (validate_display pf d).display.layers ≡ handles d.layers)
        × (handles (present_display pf d).display.layers ≡ handles d.layers)
  frame-handles d = (validate_display-handles d, present_display-handles d)
