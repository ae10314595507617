-- ===== src/Planner/Order.antt =====
-- Planes whose zpos is immutable keep their stacking: the planner never uses one below another that it
-- stands before.
use mathlib.Core.List.{Sublist, append-nil, append_assoc, sublist-append_right, sublist-append_left}
use mathlib.Core.List.Sublist
use platform_external_drm_hw.Base.{
  ℕ, nonzero, Bool, List, [], ◌∷◌, ◌++◌, ◌≡◌, refl, inl, inr, keep, arith, Bool-cases, ◌⊎◌,
}
use platform_external_drm_hw.Drm.Property.{is_immutable}
use platform_external_drm_hw.Drm.Crtc.{DrmCrtc}
use platform_external_drm_hw.Drm.Plane.{DrmPlane}
use platform_external_drm_hw.Layer.{DrmHwcLayer}
use platform_external_drm_hw.Planner.{Provision, Layers, emplace, greedy_stage, is_enoent}
use platform_external_drm_hw.Planner.Emplace.{emplace_lem, is_mutable}
use platform_external_drm_hw.Planner.Counts.{used_planes, used_planes-append}

abbrev pub is_fixed : DrmPlane → Bool
is_fixed p = is_immutable p.zpos_property

keep-append {ℓ} :
    {A : Type ℓ} (t : A → Bool) (xs ys : List A) → keep t (xs ++ ys) ≡ keep t xs ++ keep t ys
keep-append t [] ys = refl
keep-append t (x ∷ xs) ys = ground (arith, keep-append t xs ys)

keep_fixed-mutable : (xs : List DrmPlane) → keep is_fixed (keep is_mutable xs) ≡ []
keep_fixed-mutable [] = refl
keep_fixed-mutable (x ∷ xs) = ground (arith, keep_fixed-mutable xs)

-- The fixed planes in the composition, in the order of use, and then those still in the list.
abbrev pub stacking : Provision → List DrmPlane
stacking s = keep is_fixed (used_planes s.composition) ++ keep is_fixed s.planes

fixed_cons :
    (p : DrmPlane) (after : List DrmPlane)
    → Sublist (keep is_fixed (p ∷ []) ++ keep is_fixed after) (keep is_fixed (p ∷ after))
fixed_cons p after = elim (Bool-cases (is_fixed p)) [
  | inl e ↦ rw e (Sublist.refl (p ∷ keep is_fixed after))
  | inr e ↦ rw e (Sublist.refl (keep is_fixed after))
]

stacking_found :
    (used before after : List DrmPlane) (p : DrmPlane)
    → Sublist
        (keep is_fixed (used ++ p ∷ []) ++ keep is_fixed (keep is_mutable before ++ after))
        (keep is_fixed used ++ keep is_fixed (before ++ p ∷ after))
stacking_found used before after p =
    simp (keep-append, keep_fixed-mutable, append_assoc)
      (Sublist.append (Sublist.refl (keep is_fixed used)) (
        Sublist.trans (fixed_cons p after)
          (sublist-append_right (keep is_fixed before) (keep is_fixed (p ∷ after)))))

lost_planes : (used planes : List DrmPlane) → Sublist (used ++ []) (used ++ planes)
lost_planes used planes = rw append-nil (sublist-append_left used planes)

stacking-emplace :
    (crtc : DrmCrtc) (i : ℕ) (l : DrmHwcLayer) (s : Provision)
    → Sublist (stacking (emplace crtc (i, l) s)) (stacking s)
stacking-emplace crtc i l s = elim (emplace_lem crtc i l s) [
  | inl (before, p, after, e, rejected, fit, found) ↦
      rw (found, e, used_planes-append) (stacking_found (used_planes s.composition) before after p)
  | inr (rejected, lost) ↦
      rw lost (lost_planes (keep is_fixed (used_planes s.composition)) (keep is_fixed s.planes))
]

stacking-cases :
    (crtc : DrmCrtc) (i : ℕ) (l : DrmHwcLayer) (ls : Layers) (s : Provision)
    → (stacking (greedy_stage crtc ((i, l) ∷ ls) s) ≡ stacking (emplace crtc (i, l) s))
      ⊎ (greedy_stage crtc ((i, l) ∷ ls) s ≡ greedy_stage crtc ls (emplace crtc (i, l) s))
unfolding greedy_stage
stacking-cases crtc i l ls s = elim (Bool-cases (is_enoent (emplace crtc (i, l) s).ret)) [
  | inl e ↦ inl (rw e)
  | inr e ↦ elim (Bool-cases (nonzero (emplace crtc (i, l) s).ret)) [
    | inl e' ↦ inl (rw (e, e'))
    | inr e' ↦ inr (rw (e, e'))
  ]
]

-- The fixed planes used by `PlanStageGreedy`, then those it leaves, are a sublist of the fixed planes
-- it was given (behind those used before): its use of fixed planes follows their order in the list.
pub stacking-greedy :
    (crtc : DrmCrtc) (ls : Layers) (s : Provision)
    → Sublist (stacking (greedy_stage crtc ls s)) (stacking s)
stacking-greedy crtc [] s = unfold greedy_stage in Sublist.refl (stacking s)
stacking-greedy crtc ((i, l) ∷ ls) s = elim (stacking-cases crtc i l ls s) [
  | inl e ↦ rw e (stacking-emplace crtc i l s)
  | inr e ↦ rw e (
      Sublist.trans (stacking-greedy crtc ls (emplace crtc (i, l) s)) (stacking-emplace crtc i l s))
]
