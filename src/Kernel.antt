-- ===== src/Kernel.antt =====
-- The kernel as the program meets it through libdrm, which is not part of the repository: the result
-- codes of its calls are parameters. A world `W` is whatever state the kernel has.
use platform_external_drm_hw.Base.{ℕ, ℤ, Bool, List, [], ◌∷◌, ◌++◌, negative, if◌then◌else◌}
use platform_external_drm_hw.Drm.Mode.{ModeInfo}

-- One assignment of an atomic request.
pub record AtomicEntry : Type 0 where
  pub object : ℕ
  pub property : ℕ
  pub value : ℕ

-- The flags DRM_MODE_ATOMIC_ALLOW_MODESET and DRM_MODE_ATOMIC_TEST_ONLY of a commit.
pub record CommitFlags : Type 0 where
  pub allow_modeset : Bool
  pub test_only : Bool

-- The code of a commit, the out fence that it leaves, and the next world.
pub record CommitAnswer (W : Type 0) : Type 0 where
  pub code : ℤ
  pub out_fence : ℤ
  pub world : W

pub record Kms (W : Type 0) : Type 0 where
  -- `drmModeAtomicAlloc` gives a request.
  pub alloc : W → Bool
  -- The code of `drmModeAtomicAddProperty` on a request with these entries.
  pub add_property : W → List AtomicEntry → AtomicEntry → ℤ
  pub commit : W → List AtomicEntry → CommitFlags → CommitAnswer W
  -- The code of DRM_IOCTL_MODE_CREATEPROPBLOB and the id of the blob.
  pub create_blob : W → ModeInfo → ℤ × ℕ × W
  pub destroy_blob : W → ℕ → ℤ × W
  -- `drmModeConnectorSetProperty`.
  pub set_connector_property : W → AtomicEntry → ℤ × W

module _ {W : Type 0} (k : Kms W) (w : W) where
  -- `drmModeAtomicAddProperty`: the code, and the request, which grows unless the code is negative.
  unfoldable pub add : AtomicEntry → List AtomicEntry → ℤ × List AtomicEntry
  add e es = let ret = k.add_property w es e in (ret, if negative ret then es else es ++ e ∷ [])
