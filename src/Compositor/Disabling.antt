-- ===== src/Compositor/Disabling.antt =====
-- The request of `DisablePlanes`.
use platform_external_drm_hw.Base.{
  ℤ, negative, true, false, Option, none, some, List, [], ◌∷◌, ◌++◌, ◌≡◌, refl, sym, ◌∙◌, ap, All,
  ok, append-nil, append_assoc,
}
use platform_external_drm_hw.Kernel.{CommitAnswer, Kms, AtomicEntry, add}
use platform_external_drm_hw.Drm.Plane.{DrmPlane}
use platform_external_drm_hw.Planner.{DrmCompositionPlane}
use platform_external_drm_hw.Composition.{DrmDisplayComposition}
use platform_external_drm_hw.Compositor.Request.{fault, FloatOps, Line, go, entry, add_or_break}
use platform_external_drm_hw.Compositor.State.{System, OutFences}
use platform_external_drm_hw.Compositor.{disable_line, disable_lines, disable_planes}

-- The assignments that turn off the planes of a composition.
abbrev pub disables_of : Option DrmPlane → List AtomicEntry
disables_of none = []
disables_of (some p) = entry p.id p.crtc_property 0 ∷ entry p.id p.fb_property 0 ∷ []

abbrev pub disables : List DrmCompositionPlane → List AtomicEntry
disables [] = []
disables (c ∷ cs) = disables_of c.plane ++ disables cs

abbrev pub HasPlane : Option DrmPlane → Type 0
HasPlane none = ⊥
HasPlane (some p) = Unit

abbrev at_line : List AtomicEntry → Line
at_line es = record { flow = go; ret = ok; entries = es }

module _ {W : Type 0} (k : Kms W) (floats : FloatOps) (fences : OutFences) where
  module _
      (accepts : (w : W) (es : List AtomicEntry) (e : AtomicEntry)
        → negative (k.add_property w es e) ≡ false) where
    add_or_break-accepted :
        (w : W) (e : AtomicEntry) (es : List AtomicEntry)
        → add_or_break k w e (at_line es) ≡ at_line (es ++ e ∷ [])
    unfolding add_or_break add
    add_or_break-accepted w e es = rw (accepts w es e) refl

    disable_line-accepted :
        (o : Option DrmPlane) (w : W) (es : List AtomicEntry)
        → HasPlane o
        → disable_line k floats fences o w (at_line es) ≡ at_line (es ++ disables_of o)
    unfolding disable_line
    disable_line-accepted none w es there = elim there [ ]
    disable_line-accepted (some p) w es there =
        ap (add_or_break k w (entry p.id p.fb_property 0))
          (add_or_break-accepted w (entry p.id p.crtc_property 0) es)
        ∙ add_or_break-accepted w (entry p.id p.fb_property 0)
            (es ++ entry p.id p.crtc_property 0 ∷ [])
        ∙ ap at_line
            (append_assoc es (entry p.id p.crtc_property 0 ∷ []) (entry p.id p.fb_property 0 ∷ []))

    disable_lines-accepted :
        (cs : List DrmCompositionPlane) (w : W) (es : List AtomicEntry)
        → All (λ c. HasPlane c.plane) cs
        → disable_lines k floats fences cs w (at_line es) ≡ at_line (es ++ disables cs)
    unfolding disable_lines
    disable_lines-accepted [] w es there = ap at_line (sym (append-nil es))
    disable_lines-accepted (c ∷ cs) w es there =
        ap (λ t. elim t.flow [ go ↦ disable_lines k floats fences cs w t | _ ↦ t ])
          (disable_line-accepted c.plane w es there.0)
        ∙ disable_lines-accepted cs w (es ++ disables_of c.plane) there.1
        ∙ ap at_line (append_assoc es (disables_of c.plane) (disables cs))

    -- If libdrm gives a request and takes every assignment, and every entry of a composition has a
    -- plane, `DisablePlanes` commits the request that sets CRTC_ID and FB_ID of each of these planes to
    -- 0, in their order and without any flag, and answers with the code of that commit.
    pub disable_planes-commits :
        (comp : DrmDisplayComposition) (sys : System W)
        → k.alloc sys.world ≡ true
        → All (λ c. HasPlane c.plane) comp.composition_planes
        → let answer =
            k.commit sys.world
              (disables comp.composition_planes)
              (record { allow_modeset = false; test_only = false }) in
          disable_planes k floats fences comp sys
          ≡ (answer.code, record sys { world = answer.world })
    unfolding disable_planes
    disable_planes-commits comp sys allocated there =
        let answer : Line → CommitAnswer W =
          λ s. k.commit sys.world s.entries (record { allow_modeset = false; test_only = false }) in
        let committed : Line → ℤ × System W =
          λ s. ((answer s).code, record sys { world = (answer s).world }) in
        rw allocated (
          ap
            (λ s. elim s.flow [
              | go ↦ committed s
              | fault ↦ (s.ret, record sys { crashed = true })
              | _ ↦ (s.ret, sys)
            ])
            (disable_lines-accepted comp.composition_planes sys.world [] there))
