-- ===== src/Planner/Emplace.antt =====
-- What `ValidatePlane` and `Emplace` of platform.h do: the first plane that fits is taken.
use platform_external_drm_hw.Base.{
  ℕ, ℤ, nonzero, Bool, true, some, List, [], ◌∷◌, ◌++◌, ◌≡◌, refl, sym, ap, ◌⊎◌, inl, inr, ok,
  enoent, einval, keep, not, All, arith, Bool-cases, if◌then◌else◌, subst, ◌≢◌,
}
use mathlib.Core.List.{append-nil, append_assoc}
use platform_external_drm_hw.Drm.Property.{DrmProperty, is_immutable}
use platform_external_drm_hw.Drm.Property.Laws.{get_enum_value_with_name_code}
use platform_external_drm_hw.Drm.Crtc.{DrmCrtc}
use platform_external_drm_hw.Drm.Plane.{DrmPlane}
use platform_external_drm_hw.Layer.{DrmHwcLayer, DrmHwcBlending, none_blending, pre_mult, coverage}
use platform_external_drm_hw.Planner.{
  Provision, Search, validate_plane, blend_of_layer, search_plane, emplace, layer_plane,
}

blend_of_layer_code :
    (p : DrmProperty) (b : DrmHwcBlending)
    → ((blend_of_layer p b).1 ≡ ok) ⊎ ((blend_of_layer p b).1 ≡ einval)
unfolding blend_of_layer
blend_of_layer_code p none_blending = get_enum_value_with_name_code p "None"
blend_of_layer_code p pre_mult = get_enum_value_with_name_code p "Pre-multiplied"
blend_of_layer_code p coverage = get_enum_value_with_name_code p "Coverage"

pub validate_plane_code :
    (p : DrmPlane) (l : DrmHwcLayer) → (validate_plane p l ≡ ok) ⊎ (validate_plane p l ≡ einval)
unfolding validate_plane
validate_plane_code p l = ground (arith, blend_of_layer_code p.blend_property l.blending)

abbrev pub Fits : DrmHwcLayer → DrmPlane → Type 0
Fits l p = validate_plane p l ≡ ok

abbrev pub Rejects : DrmHwcLayer → DrmPlane → Type 0
Rejects l p = validate_plane p l ≡ einval

-- A plane whose zpos can be set serves another layer later on; the others are lost once passed over.
abbrev pub is_mutable : DrmPlane → Bool
is_mutable p = not (is_immutable p.zpos_property)

abbrev pub code_of_failure : ℤ → List DrmPlane → ℤ
code_of_failure ret [] = ret
code_of_failure ret (p ∷ ps) = einval

abbrev Outcome : DrmHwcLayer → ℤ → List DrmPlane → List DrmPlane → Search → Type 0
Outcome l ret unused planes r =
    ((before : List DrmPlane) × (p : DrmPlane) × (after : List DrmPlane) × (planes
        ≡ before ++ p ∷ after)
      × All (Rejects l) before
      × Fits l p
      × (r ≡ record {
        ret = ok;
        plane = some p;
        unused_planes = unused ++ keep is_mutable before;
        planes = after;
      }))
    ⊎ (All (Rejects l) planes × (r.ret ≡ code_of_failure ret planes) × (r.planes ≡ []))

keep_one :
    (p : DrmPlane) (unused before : List DrmPlane)
    → (if is_immutable p.zpos_property then unused else unused ++ (p ∷ []))
        ++ keep is_mutable before
      ≡ unused ++ keep is_mutable (p ∷ before)
keep_one p unused before = elim (Bool-cases (is_immutable p.zpos_property)) [
  | inl e ↦ rw e
  | inr e ↦ rw e (append_assoc unused (p ∷ []) (keep is_mutable before))
]

Outcome-cons :
    (l : DrmHwcLayer) (ret : ℤ) (unused : List DrmPlane) (p : DrmPlane) (ps : List DrmPlane)
    (r : Search)
    → Rejects l p
    → Outcome l einval (if is_immutable p.zpos_property then unused else unused ++ (p ∷ [])) ps r
    → Outcome l ret unused (p ∷ ps) r
Outcome-cons l ret unused p ps r no_fit (inl (before, q, after, e, rejected, fit, found)) = inl (
  p ∷ before,
  q,
  after,
  ap (◌∷◌ p) e,
  (no_fit, rejected),
  fit,
  rw (← keep_one p unused before) found,
)
Outcome-cons l ret unused p [] r no_fit (inr (rejected, code, left)) =
    inr ((no_fit, rejected), code, left)
Outcome-cons l ret unused p (x ∷ ps) r no_fit (inr (rejected, code, left)) =
    inr ((no_fit, rejected), code, left)

search_plane-Rejects :
    (l : DrmHwcLayer) (ret : ℤ) (unused : List DrmPlane) (p : DrmPlane) (ps : List DrmPlane)
    → Rejects l p
    → search_plane l ret unused (p ∷ ps)
      ≡ search_plane l einval (if is_immutable p.zpos_property then unused else unused ++ p ∷ []) ps
unfolding search_plane
search_plane-Rejects l ret unused p ps no_fit = rw no_fit

search_plane-Fits :
    (l : DrmHwcLayer) (ret : ℤ) (unused : List DrmPlane) (p : DrmPlane) (ps : List DrmPlane)
    → Fits l p
    → search_plane l ret unused (p ∷ ps)
      ≡ record { ret = ok; plane = some p; unused_planes = unused ++ []; planes = ps }
unfolding search_plane
search_plane-Fits l ret unused p ps fit = rw (fit, append-nil)

search_plane_lem :
    (l : DrmHwcLayer) (ret : ℤ) (unused planes : List DrmPlane)
    → Outcome l ret unused planes (search_plane l ret unused planes)
search_plane_lem l ret unused [] =
    inr (tt, unfold search_plane in refl, unfold search_plane in refl)
search_plane_lem l ret unused (p ∷ ps) = elim (validate_plane_code p l) [
  | inl fit ↦ inl ([], p, ps, refl, tt, fit, search_plane-Fits l ret unused p ps fit)
  | inr no_fit ↦
      subst (Outcome l ret unused (p ∷ ps)) (sym (search_plane-Rejects l ret unused p ps no_fit)) (
        Outcome-cons l ret unused p ps
          (search_plane l einval
            (if is_immutable p.zpos_property then unused else unused ++ (p ∷ [])) ps)
          no_fit
          (search_plane_lem l einval
            (if is_immutable p.zpos_property then unused else unused ++ (p ∷ [])) ps))
]

code_of_failure-nonzero : (planes : List DrmPlane) → nonzero (code_of_failure enoent planes) ≡ true
code_of_failure-nonzero [] = refl
code_of_failure-nonzero (p ∷ ps) = refl

-- What `Emplace` may leave.
abbrev pub Emplaced : DrmCrtc → ℕ → DrmHwcLayer → Provision → Provision → Type 0
Emplaced crtc i l s r =
    ((before : List DrmPlane) × (p : DrmPlane) × (after : List DrmPlane) × (s.planes
        ≡ before ++ p ∷ after)
      × All (Rejects l) before
      × Fits l p
      × (r ≡ record s {
        ret = ok;
        composition = s.composition ++ (layer_plane (some p) crtc i ∷ []);
        planes = keep is_mutable before ++ after;
      }))
    ⊎ (All (Rejects l) s.planes
        × (r ≡ record s { ret = code_of_failure enoent s.planes; planes = [] }))

-- `Emplace` either puts the layer, at the back of the composition, on the first plane that fits it and
-- keeps behind it every plane not tried and, before them, the tried ones whose zpos can be set; or no
-- plane fits, the code is -ENOENT without any plane and -EINVAL otherwise, the composition is
-- unchanged, and no plane is left.
pub emplace_lem :
    (crtc : DrmCrtc) (i : ℕ) (l : DrmHwcLayer) (s : Provision)
    → Emplaced crtc i l s (emplace crtc (i, l) s)
unfolding emplace
emplace_lem crtc i l s = elim (search_plane_lem l enoent [] s.planes) [
  | inl (before, p, after, e, rejected, fit, found) ↦
      inl (before, p, after, e, rejected, fit, rw (found, emplace))
  | inr (rejected, code, left) ↦
      inr (rejected, rw (code, left, code_of_failure-nonzero s.planes, emplace))
]

pub code_of_failure_cases :
    (planes : List DrmPlane)
    → ((planes ≡ []) × (code_of_failure enoent planes ≡ enoent))
      ⊎ ((planes ≢ []) × (code_of_failure enoent planes ≡ einval))
code_of_failure_cases [] = inl (refl, refl)
code_of_failure_cases (p ∷ ps) = inr (λ e. cc, refl)
