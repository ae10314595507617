-- ===== src/Compositor/Blobs/Lifetime.antt =====
-- The mode blobs over the life of a compositor.
use platform_external_drm_hw.Base.{ℕ, Bool, true, none, ◌≡◌, ◌≢◌, arith}
use platform_external_drm_hw.Kernel.{Kms}
use platform_external_drm_hw.Compositor.Request.{FloatOps}
use platform_external_drm_hw.Compositor.{test_composition}
use platform_external_drm_hw.Compositor.State.{System, OutFences, new_compositor}
use platform_external_drm_hw.Compositor.Commit.Ledger.{commit_frame-IsBalanced}
use platform_external_drm_hw.Compositor.Flatten.Concurrent.{discard}
use platform_external_drm_hw.Compositor.Flatten.Concurrent.Ledger.{vsync-IsBalanced}
use platform_external_drm_hw.Compositor.Blobs.Discarding.{discard-live}
use platform_external_drm_hw.Compositor.Blobs.{BlobLaws, CompositorCall, CompositorRun}
use platform_external_drm_hw.Compositor.Blobs.CompositorCall.{composed, tested, cleared, synced}
use platform_external_drm_hw.Compositor.Blobs.CompositorRun.{start, next}
use platform_external_drm_hw.Compositor.Blobs.Books.{IsBalanced}
use platform_external_drm_hw.Compositor.Blobs.Calls.{
  apply_composition-IsBalanced, clear_display-IsBalanced,
}

module _ {W : Type 0} (k : Kms W) (live : W → ℕ → Bool) (laws : BlobLaws k live) (floats : FloatOps)
    (fences : OutFences) where
  module _ (others : Bool) (b : ℕ) (some_id : b ≢ 0) where
    CompositorCall-IsBalanced :
        {s t : System W}
        → CompositorCall k floats fences s t
        → IsBalanced live others b s
        → IsBalanced live others b t
    unfolding test_composition
    CompositorCall-IsBalanced (composed comp s) h =
        apply_composition-IsBalanced k live laws others b some_id floats fences comp s h
    CompositorCall-IsBalanced (tested comp s) h =
        commit_frame-IsBalanced k live laws others b some_id floats fences comp true none s h
    CompositorCall-IsBalanced (cleared s) h =
        clear_display-IsBalanced k live laws others b some_id floats fences s h
    CompositorCall-IsBalanced (synced fl conn other display s fresh) h =
        vsync-IsBalanced k live laws others b some_id floats fences fl conn other display s fresh h

    CompositorRun-IsBalanced :
        {s t : System W}
        → CompositorRun k floats fences s t
        → IsBalanced live others b s
        → IsBalanced live others b t
    CompositorRun-IsBalanced start h = h
    CompositorRun-IsBalanced (next r st) h =
        CompositorCall-IsBalanced st (CompositorRun-IsBalanced r h)

    discard-others : (s : System W) → IsBalanced live others b s → live (discard k s) b ≡ others
    discard-others s h =
        ground (arith, h.keeps, h.owns, discard-live k live laws others b some_id s)

  -- When a new compositor is used in any way, with compositions, tests, clearing and vsyncs that may
  -- flatten a frame, here or on another display, in any order and whatever they answer, and is destroyed
  -- then, the kernel has the mode blobs that it had before and no others: none is left behind and none of
  -- somebody else is destroyed.
  pub lifetime-live :
      (display : ℕ) (s t : System W)
      → s.compositor ≡ new_compositor display
      → CompositorRun k floats fences s t
      → (b : ℕ) → b ≢ 0
      → live (discard k t) b ≡ live s.world b
  unfolding new_compositor
  lifetime-live display s t fresh run b some_id = discard-others (live s.world b) b some_id t (
      CompositorRun-IsBalanced (live s.world b) b some_id run (record {
        keeps = λ e. (e, ground (arith, fresh, some_id));
        owns = λ e. ground (arith, e);
      }))
