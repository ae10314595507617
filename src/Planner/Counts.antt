-- ===== src/Planner/Counts.antt =====
-- No stage of the planner uses a plane that it was not given, or one plane twice: for every test, the
-- planes that pass it are counted before and after.
use platform_external_drm_hw.Base.{
  ℕ, ◌+◌, ◌≤◌, Bool, none, some, List, [], ◌∷◌, ◌++◌, ◌≡◌, refl, inl, inr, ok, keep, arith,
  count_if, count_if-append, count_if-keep-le, ap,
}
use platform_external_drm_hw.Drm.Crtc.{DrmCrtc}
use platform_external_drm_hw.Drm.Plane.{DrmPlane}
use platform_external_drm_hw.Layer.{DrmHwcLayer}
use platform_external_drm_hw.Planner.{
  DrmCompositionPlane, Provision, Layers, emplace, layer_plane, protected_stage, greedy_stage,
  hisi_loop, hisi_stage, PlanStage, run_stage, run_stages, provision_planes, get_usable_planes,
}
use platform_external_drm_hw.Planner.PlanStage.{protected, greedy, hisi}
use platform_external_drm_hw.Planner.Emplace.{emplace_lem, is_mutable}

-- The planes that a composition names.
abbrev pub used_planes : List DrmCompositionPlane → List DrmPlane
used_planes [] = []
used_planes (c ∷ cs) = elim c.plane [ none ↦ used_planes cs | some p ↦ p ∷ used_planes cs ]

pub used_planes-append :
    (xs ys : List DrmCompositionPlane) → used_planes (xs ++ ys) ≡ used_planes xs ++ used_planes ys
used_planes-append [] ys = refl
used_planes-append (x ∷ xs) ys = ground (arith, used_planes-append xs ys)

module _ (t : DrmPlane → Bool) where
  -- How many planes pass the test, in the composition and among those left.
  abbrev pub held : Provision → ℕ
  held s = count_if t (used_planes s.composition) + count_if t s.planes

  pub held-emplace :
      (crtc : DrmCrtc) (i : ℕ) (l : DrmHwcLayer) (s : Provision)
      → held (emplace crtc (i, l) s) ≤ held s
  held-emplace crtc i l s = elim (emplace_lem crtc i l s) [
    | inl (before, p, after, e, rejected, fit, found) ↦
        rw (found, e)
          (omega (
            arith,
            ap (count_if t) (used_planes-append s.composition (layer_plane (some p) crtc i ∷ [])),
            count_if-append t (used_planes s.composition) (p ∷ []),
            count_if-append t (keep is_mutable before) after,
            count_if-append t before (p ∷ after),
            count_if-append t (p ∷ []) after,
            count_if-keep-le t is_mutable before,
          ))
    | inr (rejected, lost) ↦ rw lost (omega arith)
  ]

  held-protected :
      (crtc : DrmCrtc) (ls : Layers) (s : Provision) → held (protected_stage crtc ls s) ≤ held s
  unfolding protected_stage
  held-protected crtc [] s = omega arith
  held-protected crtc ((i, l) ∷ ls) s = ground (
    arith,
    held-emplace crtc i l s,
    held-protected crtc ls s,
    held-protected crtc ls (emplace crtc (i, l) s),
  )

  held-greedy :
      (crtc : DrmCrtc) (ls : Layers) (s : Provision) → held (greedy_stage crtc ls s) ≤ held s
  unfolding greedy_stage
  held-greedy crtc [] s = omega arith
  held-greedy crtc ((i, l) ∷ ls) s =
      ground (arith, held-emplace crtc i l s, held-greedy crtc ls (emplace crtc (i, l) s))

  held-hisi_loop :
      (crtc : DrmCrtc) (ls : Layers) (added : ℕ) (s : Provision)
      → held (hisi_loop crtc ls added s).0 ≤ held s
  unfolding hisi_loop
  held-hisi_loop crtc [] added s = omega arith
  held-hisi_loop crtc ((i, l) ∷ ls) added s = ground (
    arith,
    held-emplace crtc i l s,
    held-hisi_loop crtc ls added s,
    held-hisi_loop crtc ls (added + 1) (emplace crtc (i, l) s),
  )

  pub held-run_stage :
      (stage : PlanStage) (crtc : DrmCrtc) (s : Provision) → held (run_stage stage crtc s) ≤ held s
  unfolding run_stage hisi_stage
  held-run_stage protected crtc s = held-protected crtc s.layers s
  held-run_stage greedy crtc s = held-greedy crtc s.layers s
  held-run_stage hisi crtc s = ground (arith, held-hisi_loop crtc s.layers 0 s)

  held-run_stages :
      (stages : List PlanStage) (crtc : DrmCrtc) (s : Provision)
      → held (run_stages stages crtc s) ≤ held s
  unfolding run_stages
  held-run_stages [] crtc s = omega arith
  held-run_stages (g ∷ gs) crtc s =
      ground (arith, held-run_stage g crtc s, held-run_stages gs crtc (run_stage g crtc s))

  -- Whatever the stages, a plan names the planes that pass a test at most as often as the two pools
  -- have them among the planes that the CRTC supports.
  pub count-provision_planes-le :
      (stages : List PlanStage) (layers : Layers) (crtc : DrmCrtc) (primary overlay : List DrmPlane)
      → count_if t (used_planes (provision_planes stages layers crtc primary overlay).1)
        ≤ count_if t (get_usable_planes crtc primary overlay)
  unfolding provision_planes
  count-provision_planes-le stages layers crtc primary overlay = ground (
    arith,
    held-run_stages stages crtc (record {
      ret = ok;
      composition = [];
      layers = layers;
      planes = get_usable_planes crtc primary overlay;
    }),
  )
