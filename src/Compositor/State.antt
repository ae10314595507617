-- ===== src/Compositor/State.antt =====
-- The state of `DrmDisplayCompositor` in drmdisplaycompositor.h, and its calls of the device for mode
-- blobs and DPMS. The compositor's mutex is held by each call; `GetDrmDevice` of the resource manager
-- gives the one device that the compositor works on.
use platform_external_drm_hw.Base.{
  ℕ, ℤ, pos, nonzero, Bool, false, Option, none, some, map, ◌==◌, if◌then◌else◌, ok, enodev,
}
use platform_external_drm_hw.Kernel.{Kms}
use platform_external_drm_hw.Drm.Mode.{DrmMode, to_mode_info, no_mode}
use platform_external_drm_hw.Drm.Device.{DrmDevice, get_connector_for_display}
use platform_external_drm_hw.Composition.{DrmDisplayComposition}
use platform_external_drm_hw.Vsync.{VSyncWorker, new_vsync_worker}
use platform_external_drm_hw.Compositor.Request.{entry}

pub record ModeState : Type 0 where
  pub needs_modeset : Bool
  pub mode : DrmMode
  pub blob_id : ℕ
  pub old_blob_id : ℕ

pub record DrmDisplayCompositor : Type 0 where
  pub display : ℕ
  pub active : Bool
  pub mode : ModeState
  pub active_composition : Option DrmDisplayComposition
  pub dump_frames_composited : ℕ
  pub flatten_countdown : ℤ
  pub vsync_worker : VSyncWorker

-- FLATTEN_COUNTDOWN_INIT.
abbrev pub flatten_countdown_init : ℤ
flatten_countdown_init = pos 60

-- A compositor after its constructor and `Init`.
unfoldable pub new_compositor : ℕ → DrmDisplayCompositor
new_compositor display = record {
  display = display;
  active = false;
  mode = record { needs_modeset = false; mode = no_mode; blob_id = 0; old_blob_id = 0 };
  active_composition = none;
  dump_frames_composited = 0;
  flatten_countdown = flatten_countdown_init;
  vsync_worker = new_vsync_worker;
}

-- What a call of the compositor reads and writes. `crashed` is set by a read through a null pointer;
-- what the code would do after it is not described.
pub record System (W : Type 0) : Type 0 where
  pub compositor : DrmDisplayCompositor
  pub device : DrmDevice
  pub world : W
  pub crashed : Bool

-- The result of a call that may also write to its composition, as `CommitFrame` sets the out fence.
pub record Committed (W : Type 0) : Type 0 where
  pub ret : ℤ
  pub composition : DrmDisplayComposition
  pub system : System W

-- The local array `out_fences` of `CommitFrame`: its address, and what is in it before a commit; and the
-- address of `writeback_fence_`.
pub record OutFences : Type 0 where
  pub address : ℕ
  pub writeback_address : ℕ
  pub stale : ℤ

-- `DrmConnector::set_active_mode`.
unfoldable pub set_active_mode : ℕ → DrmMode → DrmDevice → DrmDevice
set_active_mode id mode dev = record dev {
  connectors = map (λ c. if c.id == id then record c { active_mode = mode } else c) dev.connectors;
}

module _ {W : Type 0} (k : Kms W) where
  -- `DrmDevice::DestroyPropertyBlob`: there is nothing to destroy under 0.
  unfoldable pub destroy_property_blob : W → ℕ → ℤ × W
  destroy_property_blob w blob = if blob == 0 then (ok, w) else k.destroy_blob w blob

  -- `CreateModeBlob`: the code, and the id or 0.
  unfoldable pub create_mode_blob : W → DrmMode → ℤ × ℕ × W
  create_mode_blob w mode =
      let (ret, id, w') = k.create_blob w (to_mode_info mode) in
      (ret, if nonzero ret then 0 else id, w')

  -- `ApplyDpms`.
  unfoldable pub apply_dpms : DrmDisplayComposition → System W → ℤ × System W
  apply_dpms comp sys = elim (get_connector_for_display sys.device (some sys.compositor.display)) [
    | none ↦ (enodev, sys)
    | some conn ↦
        let (ret, w) =
          k.set_connector_property sys.world (entry conn.id conn.dpms_property comp.dpms_mode) in
        (ret, record sys { world = w })
  ]
