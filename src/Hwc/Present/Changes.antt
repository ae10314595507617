-- ===== src/Hwc/Present/Changes.antt =====
-- What Android is told of the changed types, and what accepting them does.
use platform_external_drm_hw.Base.{
  ◌≤◌, ◌<◌, ltb, zero, suc, ap, ◌∙◌, true, false, Bool-cases, inl, inr, ℕ, ◌+◌, ◌-◌, ◌||◌, length,
  take, Bool, List, not, ◌==◌, ◌&&◌, if◌then◌else◌, [], ◌∷◌, map, ◌≡◌, refl, arith,
}
use platform_external_drm_hw.Hwc.Layer.{accept_type_change, type_changed}
use platform_external_drm_hw.Hwc.Display.{
  HwcDisplay, LayerMap, Platform, on_layer, accept_display_changes,
}
use platform_external_drm_hw.Hwc.CompositionType
use platform_external_drm_hw.Hwc.Validate.{validate_display, choose_types, settle}
use platform_external_drm_hw.Hwc.Present.{
  ChangedTypes, changed_types, get_changed_composition_types,
}

-- The layers that Android wanted otherwise and that go to the client.
abbrev pub demoted : LayerMap → List (ℕ × ℕ)
demoted [] = []
demoted (e ∷ es) =
    let rest = demoted es in
    if not (e.1.sf_type == CompositionType.client) && e.1.validated_type == CompositionType.client
    then (e.0, CompositionType.client) ∷ rest
    else rest

abbrev handle_of : ℕ × ℕ → ℕ
handle_of e = e.0

abbrev type_of : ℕ × ℕ → ℕ
type_of e = e.1

-- What the call tells a caller of these changes: as many of them as there is room for, in the arrays that
-- are given, or their number, if neither is.
abbrev pub told : Bool → Bool → ℕ → List (ℕ × ℕ) → ChangedTypes
told layers types room changes = record {
  num_elements = if layers || types then room else length changes;
  layers = if layers then take room (map handle_of changes) else [];
  types = if types then take room (map type_of changes) else [];
}

-- All changes of a map, with the types as they are.
changes_of : LayerMap → List (ℕ × ℕ)
changes_of [] = []
changes_of (e ∷ es) =
    let rest = changes_of es in if type_changed e.1 then (e.0, e.1.validated_type) ∷ rest else rest

take-none : (n : ℕ) → take {A = ℕ} n [] ≡ []
take-none zero = refl
take-none (suc n) = refl

take-past : (room n : ℕ) (xs : List ℕ) → room ≤ n → take (room - n) xs ≡ []
take-past room n xs past =
    let none_left : room - n ≡ 0 = omega (arith, past) in ap (λ m. take m xs) none_left

take-within :
    (room n x : ℕ) (xs : List ℕ)
    → n < room
    → take (room - n) (x ∷ xs) ≡ x ∷ take (room - (n + 1)) xs
take-within room n x xs within =
    let one_more : room - n ≡ suc (room - (n + 1)) = omega (arith, within) in
    ap (λ m. take m (x ∷ xs)) one_more

abbrev given_part : Bool → ℕ → List ℕ → List ℕ
given_part given m xs = if given then take m xs else []

given_part-cons :
    (given : Bool) (room n x : ℕ) (xs : List ℕ)
    → (if given && ltb n room
        then x ∷ given_part given (room - (n + 1)) xs
        else given_part given (room - (n + 1)) xs)
      ≡ given_part given (room - n) (x ∷ xs)
given_part-cons false room n x xs = refl
given_part-cons true room n x xs = elim (Bool-cases (ltb n room)) [
  | inl within ↦ ground (arith, within, take-within room n x xs (ground (arith, within)))
  | inr past ↦ ground (
    arith,
    past,
    take-past room n (x ∷ xs) (ground (arith, past)),
    take-past room (n + 1) xs (ground (arith, past)),
  )
]

-- The loop against the list of all changes.
abbrev Tells : Bool → Bool → ℕ → ℕ → ChangedTypes → List (ℕ × ℕ) → Type 0
Tells layers types room n r changes =
    (r.num_elements ≡ n + length changes)
    × (r.layers ≡ given_part layers (room - n) (map handle_of changes))
    × (r.types ≡ given_part types (room - n) (map type_of changes))

changed_types-Tells :
    (layers types : Bool) (room : ℕ) (es : LayerMap) (n : ℕ)
    → Tells layers types room n (changed_types layers types room es n) (changes_of es)
unfolding changed_types changes_of
changed_types-Tells layers types room [] n =
    (omega arith, ground (arith, take-none (room - n)), ground (arith, take-none (room - n)))
changed_types-Tells layers types room (e ∷ es) n = elim (Bool-cases (type_changed e.1)) [
  | inl changed ↦
      let rest = changed_types-Tells layers types room es (n + 1) in
      rw (changed, changed_types, changes_of)
        (
          omega (arith, rest.0),
          ap (λ xs. if layers && ltb n room then e.0 ∷ xs else xs) rest.1
              ∙ given_part-cons layers room n e.0 (map handle_of (changes_of es)),
          ap (λ xs. if types && ltb n room then e.1.validated_type ∷ xs else xs) rest.2
              ∙ given_part-cons types room n e.1.validated_type (map type_of (changes_of es)),
        )
  | inr same ↦ rw (same, changed_types, changes_of) (changed_types-Tells layers types room es n)
]

-- The call tells exactly the changes of the map.
get_changed_composition_types-told :
    {W : Type 0} (layers types : Bool) (room : ℕ) (d : HwcDisplay W)
    → get_changed_composition_types layers types room d
      ≡ told layers types room (changes_of d.layers)
unfolding get_changed_composition_types
get_changed_composition_types-told layers types room d =
    ground (arith, changed_types-Tells layers types room d.layers 0)

changes_of-settled :
    (es : LayerMap) → changes_of (map (on_layer settle) es) ≡ demoted (map (on_layer settle) es)
unfolding changes_of type_changed
changes_of-settled [] = refl
changes_of-settled (e ∷ es) = ground (arith, changes_of-settled es)

changes_of-accepted : (es : LayerMap) → changes_of (map (on_layer accept_type_change) es) ≡ []
unfolding changes_of accept_type_change type_changed
changes_of-accepted [] = refl
changes_of-accepted (e ∷ es) = ground (arith, changes_of-accepted es)

-- After ValidateDisplay, GetChangedCompositionTypes tells a caller exactly of the layers that Android wanted otherwise than from the client and that go to the client, each with the type Client: of as many of them as the caller says there is room for, in the arrays that are given, and of their number, if neither array is given. Once they are accepted, it tells of none.
pub validate_display-changes :
    {W : Type 0} (pf : Platform W) (d : HwcDisplay W) (layers types : Bool) (room : ℕ)
    → let v = (validate_display pf d).display in
      (get_changed_composition_types layers types room v
        ≡ told layers types room (demoted v.layers))
      × (get_changed_composition_types layers types room (accept_display_changes v)
          ≡ told layers types room [])
unfolding validate_display choose_types accept_display_changes
validate_display-changes pf d layers types room =
    let v = (validate_display pf d).display in
    (
      get_changed_composition_types-told layers types room v
          ∙ ap (told layers types room) (changes_of-settled _),
      get_changed_composition_types-told layers types room (accept_display_changes v)
          ∙ ap (told layers types room) (changes_of-accepted v.layers),
    )
