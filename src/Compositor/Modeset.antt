-- ===== src/Compositor/Modeset.antt =====
-- A composition of type MODESET.
use platform_external_drm_hw.Base.{◌≡◌, refl, subst, sym}
use platform_external_drm_hw.Kernel.{Kms}
use platform_external_drm_hw.Composition.{DrmDisplayComposition, modeset}
use platform_external_drm_hw.Compositor.{
  apply_composition, apply_by_type, apply_modeset_composition,
}
use platform_external_drm_hw.Compositor.Request.{FloatOps}
use platform_external_drm_hw.Compositor.State.{System, OutFences}

module _ {W : Type 0} (k : Kms W) (floats : FloatOps) (fences : OutFences) where
  -- Setting a mode leaves the device as it is, until a frame commits the mode.
  pub apply_modeset-device :
      (comp : DrmDisplayComposition) (sys : System W)
      → comp.type ≡ modeset
      → let sys' = (apply_composition k floats fences comp sys).1 in
        (sys'.device ≡ sys.device) × (sys'.compositor.display ≡ sys.compositor.display)
  unfolding apply_composition apply_by_type apply_modeset_composition
  apply_modeset-device comp sys its =
      subst
        (λ t.
          ((apply_by_type k floats fences t comp sys).1.device ≡ sys.device)
          × ((apply_by_type k floats fences t comp sys).1.compositor.display
              ≡ sys.compositor.display))
        (sym its) (refl, refl)
