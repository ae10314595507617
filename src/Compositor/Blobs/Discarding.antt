-- ===== src/Compositor/Blobs/Discarding.antt =====
-- What the destruction of a compositor does to the books of a mode blob.
use platform_external_drm_hw.Base.{
  ℕ, Bool, true, not, ◌&&◌, ◌≡◌, ◌≢◌, ◌∙◌, sym, arith, Bool-cases, inl, inr,
}
use platform_external_drm_hw.Kernel.{Kms}
use platform_external_drm_hw.Compositor.State.{System, destroy_property_blob}
use platform_external_drm_hw.Compositor.Blobs.{BlobLaws, Balances, is_owned}
use platform_external_drm_hw.Compositor.Blobs.Books.{IsBalanced, destroy_property_blob-live}
use platform_external_drm_hw.Compositor.Flatten.Concurrent.{discard}

module _ {W : Type 0} (k : Kms W) (live : W → ℕ → Bool) (laws : BlobLaws k live) (others : Bool)
    (b : ℕ) (some_id : b ≢ 0) where
  pub discard-live :
      (s : System W) → live (discard k s) b ≡ (live s.world b && not (is_owned s.compositor.mode b))
  unfolding discard
  discard-live s =
      let w = (destroy_property_blob k s.world s.compositor.mode.blob_id).1 in
      ground (
        arith,
        destroy_property_blob-live k live laws others b some_id s.world s.compositor.mode.blob_id,
        destroy_property_blob-live k live laws others b some_id w s.compositor.mode.old_blob_id,
      )

  -- The other compositor `r` has started in the world `before`, and is destroyed behind `s`. Where the
  -- blob is live now and was not, it is the other compositor's; otherwise nothing has happened to it.
  pub settled :
      (r s : System W) (before : W)
      → Balances live (live before b) b r.compositor.mode r.world
      → (others ≡ true → live before b ≡ true)
      → (live r.world b ≡ live before b → IsBalanced live others b s)
      → Balances live others b s.compositor.mode (discard k (record r { world = s.world }))
  settled r s before books there kept =
      let gone = discard-live (record r { world = s.world }) in
      elim (Bool-cases (live before b)) [
        | inl was ↦
            let still = kept ((books.keeps was).0 ∙ sym was) in
            ground (arith, gone, was, (books.keeps was).1, still.keeps, still.owns)
        | inr was_not ↦ elim (Bool-cases (live r.world b)) [
          | inl is ↦ ground (arith, gone, was_not, is, books.owns, there)
          | inr is_not ↦
              let still = kept (is_not ∙ sym was_not) in
              ground (arith, gone, was_not, still.keeps, still.owns, there)
        ]
      ]
