-- ===== src/Planner/Placement.antt =====
-- Which layers the stages place, in which order, and on what planes.
use platform_external_drm_hw.Base.{
  ℕ, some, List, [], ◌∷◌, ◌++◌, ◌≡◌, refl, sym, ◌⊎◌, inl, inr, ok, enoent, einval, All, ap, ◌∙◌,
  subst, ◌≢◌, keep,
}
use mathlib.Core.List.{append-nil, append_assoc}
use platform_external_drm_hw.Drm.Crtc.{DrmCrtc}
use platform_external_drm_hw.Drm.Plane.{DrmPlane}
use platform_external_drm_hw.Layer.{DrmHwcLayer}
use platform_external_drm_hw.Planner.{
  DrmCompositionPlane, Provision, Layers, emplace, layer_plane, greedy_stage,
}
use platform_external_drm_hw.Planner.Emplace.{
  emplace_lem, Fits, Rejects, is_mutable, code_of_failure_cases,
}

-- The entries of a composition are the layers of a list in its order. Each is alone on the first of the
-- planes at hand that fits it; of the planes that do not, those whose zpos can be set stay at hand, before
-- the planes not tried. The last list is what is at hand in the end.
abbrev pub Placed :
    DrmCrtc → List DrmCompositionPlane → Layers → List DrmPlane → List DrmPlane → Type 0
Placed crtc [] [] planes left = planes ≡ left
Placed crtc [] (l ∷ ls) planes left = ⊥
Placed crtc (c ∷ cs) [] planes left = ⊥
Placed crtc (c ∷ cs) ((i, l) ∷ ls) planes left =
    (before : List DrmPlane) × (p : DrmPlane) × (after : List DrmPlane) × (planes
      ≡ before ++ p ∷ after)
    × All (Rejects l) before
    × Fits l p
    × (c ≡ layer_plane (some p) crtc i)
    × Placed crtc cs ls (keep is_mutable before ++ after) left

-- A composition that grew by entries for the layers of `placed`, and what that leaves of the planes.
abbrev pub Places :
    DrmCrtc
    → List DrmCompositionPlane
    → List DrmCompositionPlane
    → Layers
    → List DrmPlane
    → List DrmPlane
    → Type 0
Places crtc old grown placed planes left =
    (new : List DrmCompositionPlane) × (grown ≡ old ++ new) × Placed crtc new placed planes left

Places-none :
    (crtc : DrmCrtc) (old grown : List DrmCompositionPlane) (planes : List DrmPlane)
    → grown ≡ old
    → Places crtc old grown [] planes planes
Places-none crtc old grown planes e = ([], e ∙ sym (append-nil old), refl)

step_to :
    (crtc : DrmCrtc) (i : ℕ) (l : DrmHwcLayer) (ls : Layers) (s : Provision)
    → (emplace crtc (i, l) s).ret ≡ ok
    → greedy_stage crtc ((i, l) ∷ ls) s ≡ greedy_stage crtc ls (emplace crtc (i, l) s)
unfolding greedy_stage
step_to crtc i l ls s e = rw e

step_fails :
    (crtc : DrmCrtc) (i : ℕ) (l : DrmHwcLayer) (ls : Layers) (s : Provision)
    → (emplace crtc (i, l) s).ret ≡ einval
    → greedy_stage crtc ((i, l) ∷ ls) s
      ≡ record (emplace crtc (i, l) s) { ret = einval; layers = (i, l) ∷ ls }
unfolding greedy_stage
step_fails crtc i l ls s e = rw e

step_stops :
    (crtc : DrmCrtc) (i : ℕ) (l : DrmHwcLayer) (ls : Layers) (s : Provision)
    → (emplace crtc (i, l) s).ret ≡ enoent
    → greedy_stage crtc ((i, l) ∷ ls) s
      ≡ record (emplace crtc (i, l) s) { ret = ok; layers = (i, l) ∷ ls }
unfolding greedy_stage
step_stops crtc i l ls s e = rw e

-- What a run of the greedy stage over `ls` may give.
abbrev pub GreedyOutcome : DrmCrtc → Layers → Provision → Provision → Type 0
GreedyOutcome crtc ls s r =
    (placed : Layers) × (left : List DrmPlane) × (ls ≡ placed ++ r.layers)
    × Places crtc s.composition r.composition placed s.planes left
    × (((r.ret ≡ ok) × (r.planes ≡ left) × ((r.layers ≡ []) ⊎ (left ≡ [])))
        ⊎ ((r.ret ≡ einval)
            × (r.planes ≡ [])
            × ((j : ℕ) × (m : DrmHwcLayer) × (rest : Layers) × (r.layers ≡ (j, m) ∷ rest)
                × (left ≢ [])
                × All (Rejects m) left)))

-- With the first layer on the plane `p`, and what the run gives from there.
placed_first :
    (crtc : DrmCrtc) (i : ℕ) (l : DrmHwcLayer) (ls : Layers) (s r : Provision)
    (before after : List DrmPlane) (p : DrmPlane)
    → s.planes ≡ before ++ p ∷ after
    → All (Rejects l) before
    → Fits l p
    → GreedyOutcome crtc ls
        (record s {
          ret = ok;
          composition = s.composition ++ (layer_plane (some p) crtc i ∷ []);
          planes = keep is_mutable before ++ after;
        })
        r
    → GreedyOutcome crtc ((i, l) ∷ ls) s r
placed_first crtc i l ls s r before after p e rejected fit
      (placed, left, split, (new, grown, at), result) =
    (
      (i, l) ∷ placed,
      left,
      ap (◌∷◌ (i, l)) split,
      (
        layer_plane (some p) crtc i ∷ new,
        grown ∙ append_assoc s.composition (layer_plane (some p) crtc i ∷ []) new,
        (before, p, after, e, rejected, fit, refl, at),
      ),
      result,
    )

-- `PlanStageGreedy` places the first layers of the stack in their order, each on the first of the planes
-- at hand that fits it, and leaves the others alone. It succeeds, and leaves the planes still at hand,
-- when no layer or none of these planes is left; it fails with -EINVAL, and leaves no plane, when some
-- are at hand and none of them fits the next layer.
pub greedy_stage_lem :
    (crtc : DrmCrtc) (ls : Layers) (s : Provision)
    → GreedyOutcome crtc ls s (greedy_stage crtc ls s)
greedy_stage_lem crtc [] s = (
  [],
  s.planes,
  unfold greedy_stage in refl,
  Places-none crtc s.composition _ s.planes (unfold greedy_stage in refl),
  inl (unfold greedy_stage in refl, unfold greedy_stage in refl, inl (unfold greedy_stage in refl)),
)
greedy_stage_lem crtc ((i, l) ∷ ls) s = elim (emplace_lem crtc i l s) [
  | inl (before, p, after, e, rejected, fit, found) ↦
      subst (GreedyOutcome crtc ((i, l) ∷ ls) s)
        (sym (step_to crtc i l ls s (ap (λ (q : Provision). q.ret) found)))
        (placed_first crtc i l ls s (greedy_stage crtc ls (emplace crtc (i, l) s)) before after p e
          rejected fit
          (subst
            (λ (q : Provision).
              GreedyOutcome crtc ls q (greedy_stage crtc ls (emplace crtc (i, l) s)))
            found (greedy_stage_lem crtc ls (emplace crtc (i, l) s))))
  | inr (rejected, lost) ↦ elim (code_of_failure_cases s.planes) [
    | inl (gone, code) ↦
        subst (GreedyOutcome crtc ((i, l) ∷ ls) s)
          (sym (step_stops crtc i l ls s (ap (λ (q : Provision). q.ret) lost ∙ code)))
          (
            [],
            s.planes,
            refl,
            Places-none crtc s.composition _ s.planes (ap (λ (q : Provision). q.composition) lost),
            inl (refl, ap (λ (q : Provision). q.planes) lost ∙ sym gone, inr gone),
          )
    | inr (there, code) ↦
        subst (GreedyOutcome crtc ((i, l) ∷ ls) s)
          (sym (step_fails crtc i l ls s (ap (λ (q : Provision). q.ret) lost ∙ code)))
          (
            [],
            s.planes,
            refl,
            Places-none crtc s.composition _ s.planes (ap (λ (q : Provision). q.composition) lost),
            inr (refl, ap (λ (q : Provision). q.planes) lost, (i, l, ls, refl, there, rejected)),
          )
  ]
]
