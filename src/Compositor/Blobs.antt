-- ===== src/Compositor/Blobs.antt =====
-- The mode blobs of a compositor in drmdisplaycompositor.cpp: what the kernel does with them, whose they
-- are, and the calls in whose course they are made and destroyed.
pub mod Books
pub mod Calls
pub mod Lifetime
pub mod Discarding
use platform_external_drm_hw.Base.{
  ℕ, ℤ, Bool, true, false, ◌==◌, ◌&&◌, ◌||◌, not, if◌then◌else◌, ◌≡◌, nonzero, List, Option,
}
use platform_external_drm_hw.Kernel.{Kms, AtomicEntry, CommitFlags}
use platform_external_drm_hw.Drm.Mode.{ModeInfo}
use platform_external_drm_hw.Drm.Connector.{DrmConnector}
use platform_external_drm_hw.Composition.{DrmDisplayComposition}
use platform_external_drm_hw.Compositor.{apply_composition, test_composition, clear_display}
use platform_external_drm_hw.Compositor.Flatten.{Flattener, Flattening}
use platform_external_drm_hw.Compositor.Flatten.Concurrent.{Elsewhere, vsync}
use platform_external_drm_hw.Compositor.Request.{FloatOps}
use platform_external_drm_hw.Compositor.State.{ModeState, System, OutFences, new_compositor}

-- The kernel's part, for a reading `live` of its blobs: a call that makes one gives an id that no blob
-- has, a call that destroys one leaves none with that id, and the other calls touch none.
pub record BlobLaws {W : Type 0} (k : Kms W) (live : W → ℕ → Bool) : Type 0 where
  pub created :
      (w : W) (info : ModeInfo) (b : ℕ)
      → let (ret, id, w') = k.create_blob w info in
        live w' b ≡ (if nonzero ret then live w b else live w b || id == b)
  pub fresh :
      (w : W) (info : ModeInfo)
      → nonzero (k.create_blob w info).0 ≡ false
      → live w (k.create_blob w info).1 ≡ false
  pub destroyed : (w : W) (id b : ℕ) → live (k.destroy_blob w id).1 b ≡ (live w b && not (id == b))
  pub powered :
      (w : W) (e : AtomicEntry) (b : ℕ) → live (k.set_connector_property w e).1 b ≡ live w b
  pub committed :
      (w : W) (es : List AtomicEntry) (flags : CommitFlags) (b : ℕ)
      → live (k.commit w es flags).world b ≡ live w b

-- The blobs that a compositor has to destroy.
abbrev pub is_owned : ModeState → ℕ → Bool
is_owned mode b = mode.blob_id == b || mode.old_blob_id == b

-- One blob in the books: if it is somebody else's it is live and not the compositor's; and if it is live
-- it is somebody else's or the compositor's.
pub record Balances {W : Type 0} (live : W → ℕ → Bool) (others : Bool) (b : ℕ) (mode : ModeState)
    (w : W) : Type 0 where
  pub keeps : others ≡ true → (live w b ≡ true) × (is_owned mode b ≡ false)
  pub owns : live w b ≡ true → (others || is_owned mode b) ≡ true

module _ {W : Type 0} (k : Kms W) (floats : FloatOps) (fences : OutFences) where
  -- A call of a compositor by the display or by its own thread.
  pub data CompositorCall : System W → System W → Type 0 where
    composed :
        (comp : DrmDisplayComposition) (s : System W)
        → CompositorCall s (apply_composition k floats fences comp s).1
    tested :
        (comp : DrmDisplayComposition) (s : System W)
        → CompositorCall s (test_composition k floats fences comp s).system
    cleared : (s : System W) → CompositorCall s (clear_display k floats fences s)
    -- A vsync, on which a frame may be flattened: on the display itself, or with a compositor made for
    -- another display.
    synced :
        (fl : Flattener) (conn : Option DrmConnector) (other : Elsewhere W) (display : ℕ)
        (s : Flattening W)
        → other.system.compositor ≡ new_compositor display
        → CompositorCall s.system (vsync k floats fences fl conn other s).system

  pub data CompositorRun (s : System W) : System W → Type 0 where
    start : CompositorRun s s
    next : {t u : System W} → CompositorRun s t → CompositorCall t u → CompositorRun s u
