-- ===== src/Compositor/Blobs/Books.antt =====
-- The books of one mode blob under the single calls of the kernel.
use platform_external_drm_hw.Base.{ℕ, Bool, ◌==◌, not, ◌&&◌, ◌||◌, ◌≡◌, ◌≢◌, arith}
use platform_external_drm_hw.Kernel.{Kms}
use platform_external_drm_hw.Drm.Mode.{DrmMode, to_mode_info}
use platform_external_drm_hw.Composition.{DrmDisplayComposition}
use platform_external_drm_hw.Compositor.State.{
  ModeState, System, destroy_property_blob, create_mode_blob, apply_dpms,
}
use platform_external_drm_hw.Compositor.Blobs.{BlobLaws, Balances, is_owned}

-- The books of a whole state.
abbrev pub IsBalanced : {W : Type 0} → (W → ℕ → Bool) → Bool → ℕ → System W → Type 0
IsBalanced live others b s = Balances live others b s.compositor.mode s.world

module _ {W : Type 0} (k : Kms W) (live : W → ℕ → Bool) (laws : BlobLaws k live) (others : Bool)
    (b : ℕ) (some_id : b ≢ 0) where
  pub destroy_property_blob-live :
      (w : W) (id : ℕ) → live (destroy_property_blob k w id).1 b ≡ (live w b && not (id == b))
  unfolding destroy_property_blob
  destroy_property_blob-live w id = ground (arith, some_id, laws.destroyed w id b)

  -- A world in which the blob is what it was.
  pub same_live :
      (mode : ModeState) (w w' : W)
      → live w' b ≡ live w b
      → Balances live others b mode w
      → Balances live others b mode w'
  same_live mode w w' e h = ground (arith, e, h.keeps, h.owns)

  pub apply_dpms-live :
      (comp : DrmDisplayComposition) (s : System W)
      → live (apply_dpms k comp s).1.world b ≡ live s.world b
  unfolding apply_dpms
  apply_dpms-live comp s = grind (arith, laws.powered)

  -- The blob that is to go is taken out of the books.
  pub dropped :
      (mode mode' : ModeState) (id : ℕ) (w : W)
      → (is_owned mode b ≡ (is_owned mode' b || id == b))
      → Balances live others b mode w
      → Balances live others b mode' (destroy_property_blob k w id).1
  dropped mode mode' id w e h = ground (arith, e, h.keeps, h.owns, destroy_property_blob-live w id)

  -- A blob that is made is entered.
  pub made :
      (mode mode' : ModeState) (display_mode : DrmMode) (w : W)
      → (is_owned mode' b ≡ (is_owned mode b || (create_mode_blob k w display_mode).1 == b))
      → Balances live others b mode w
      → Balances live others b mode' (create_mode_blob k w display_mode).2
  unfolding create_mode_blob
  made mode mode' display_mode w e h =
      let info = to_mode_info display_mode in
      ground (arith, some_id, e, h.keeps, h.owns, laws.created w info b, laws.fresh w info)
