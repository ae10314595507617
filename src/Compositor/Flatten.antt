-- ===== src/Compositor/Flatten.antt =====
-- `FlattenSerial` of drmdisplaycompositor.cpp: the frame that is shown is written back into one buffer,
-- which then takes the place of its layers. The compositor's lock, which is given up on the way, is
-- left out. OnDisplay and Concurrent flatten on another display.
pub mod Squash
pub mod OnDisplay
pub mod Concurrent
pub mod Ledger
use platform_external_drm_hw.Base.{
  ℕ, suc, ◌+◌, ◌%◌, ℤ, pos, negsuc, nonzero, negative, Bool, true, false, Option, none, some, List,
  [], ◌∷◌, ◌++◌, map, ◌==◌, ltb, ◌&&◌, ◌||◌, not, if◌then◌else◌, ok, einval, enomem, ealready,
  length,
}
use platform_external_drm_hw.Kernel.{Kms}
use platform_external_drm_hw.Drm.Mode.{DrmMode}
use platform_external_drm_hw.Drm.Crtc.{DrmCrtc}
use platform_external_drm_hw.Drm.Plane.{DrmPlane, type_primary, get_crtc_supported}
use platform_external_drm_hw.Drm.Connector.{DrmConnector}
use platform_external_drm_hw.Drm.Device.{DrmDevice, get_crtc_for_display}
use platform_external_drm_hw.Layer.{DrmHwcLayer, DrmBo, Importer, new_layer, import_buffer}
use platform_external_drm_hw.Planner.{PlanStage, layer_plane}
use platform_external_drm_hw.Composition.{
  DrmDisplayComposition, init_composition, add_plane_disable, add_plane_composition,
}
use platform_external_drm_hw.Framebuffer.{DrmFramebuffer, Graphics, allocate}
use platform_external_drm_hw.Compositor.{apply_frame, countdown_expired}
use platform_external_drm_hw.Compositor.Request.{FloatOps, to_int32}
use platform_external_drm_hw.Compositor.Commit.{setup_writeback_commit}
use platform_external_drm_hw.Compositor.State.{System, OutFences, DrmDisplayCompositor}

-- The compositor with its `framebuffers_` and `framebuffer_index_`.
pub record Flattening (W : Type 0) : Type 0 where
  pub system : System W
  pub framebuffers : ℕ → DrmFramebuffer
  pub framebuffer_index : ℕ

-- What the flattening needs beside: the planner and the importer, if there is one, of the display's
-- device, the platform's buffers, the address of `writeback_fence_` and what the kernel writes there.
pub record Flattener : Type 0 where
  pub planner : List PlanStage
  pub importer : Option Importer
  pub graphics : Graphics
  pub fence_address : ℕ
  pub writeback_fence : ℤ

-- DRM_DISPLAY_BUFFERS, and kWaitWritebackFence in milliseconds.
abbrev pub display_buffers : ℕ
display_buffers = 3

abbrev pub wait_writeback_fence : ℕ
wait_writeback_fence = 100

-- `CreateInitializedComposition`.
unfoldable pub create_initialized_composition :
    Option DrmCrtc → Option Importer → List PlanStage → Option DrmDisplayComposition
unfolding init_composition
create_initialized_composition none importer planner = none
create_initialized_composition (some crtc) none planner = none
create_initialized_composition (some crtc) (some importer) planner =
    some (init_composition crtc planner 0)

abbrev is_none : Option DrmPlane → Bool
is_none none = true
is_none (some p) = false

-- The loop over the planes of the device: the first primary plane carries the flattened frame, and the
-- other planes of the CRTC are disabled.
unfoldable pub squash :
    DrmCrtc
    → List DrmPlane
    → Option DrmPlane
    → DrmDisplayComposition
    → Option DrmPlane × DrmDisplayComposition
unfolding add_plane_disable
squash crtc [] chosen comp = (chosen, comp)
squash crtc (p ∷ ps) chosen comp =
    let skipped = squash crtc ps chosen comp in
    let taken = squash crtc ps (some p) comp in
    let disabled = squash crtc ps chosen (add_plane_disable comp p) in
    if not (get_crtc_supported p crtc)
    then skipped
    else (if is_none chosen && p.type == type_primary then taken else disabled)

-- The planes of the flattened frame.
unfoldable pub squashed : DrmCrtc → List DrmPlane → DrmDisplayComposition → DrmDisplayComposition
unfolding squash add_plane_composition
squashed crtc planes comp =
    let (chosen, comp') = squash crtc planes none comp in
    add_plane_composition comp' (layer_plane chosen crtc 0)

-- The layer of the flattened frame before its import.
unfoldable pub writeback_layer : FloatOps → ℕ → DrmMode → DrmHwcLayer
unfolding to_int32
writeback_layer floats handle mode = record new_layer {
  sf_handle = some handle;
  source_crop = record {
    left = 0;
    top = 0;
    right = floats.of_uint mode.h_display;
    bottom = floats.of_uint mode.v_display;
  };
  display_frame = record {
    left = pos 0;
    top = pos 0;
    right = to_int32 mode.h_display;
    bottom = to_int32 mode.v_display;
  };
}

abbrev pub fb_of : Option DrmBo → ℕ
fb_of none = 0
fb_of (some bo) = bo.fb_id

-- The layers of the composition that is shown.
abbrev pub layers_of : Option DrmDisplayComposition → List DrmHwcLayer
layers_of none = []
layers_of (some c) = c.layers

abbrev pub handle_of : DrmFramebuffer → ℕ
handle_of fb = elim fb.buffer [ none ↦ 0 | some b ↦ b.handle ]

module _ {W : Type 0} (k : Kms W) (floats : FloatOps) (fences : OutFences) (fl : Flattener) where
  -- From the wait for the written frame on.
  show_flattened : DrmCrtc → DrmDisplayComposition → System W → ℤ × System W
  unfolding squashed apply_frame
  show_flattened crtc comp sys =
      let ret = fl.graphics.sync_wait fl.writeback_fence wait_writeback_fence in
      let shown = apply_frame k floats fences (squashed crtc sys.device.planes comp) ok true sys in
      if nonzero ret then (ret, sys) else (ok, shown)

  -- From `drmModeAtomicAlloc` to the commit that enables the writeback.
  write_back :
      DrmConnector → Option DrmCrtc → DrmDisplayComposition → DrmHwcLayer → System W → ℤ × System W
  unfolding setup_writeback_commit show_flattened
  write_back conn none comp layer sys = (if k.alloc sys.world then einval else enomem, sys)
  write_back conn (some crtc) comp layer sys =
      let (ret, es) =
        setup_writeback_commit k sys.world crtc conn (fb_of layer.buffer) fl.fence_address [] in
      let answer = k.commit sys.world es (record { allow_modeset = false; test_only = false }) in
      let committed = record sys { world = answer.world } in
      let written =
        show_flattened crtc
          (record comp { layers = record layer { acquire_fence = fl.writeback_fence } ∷ [] })
          committed in
      if not (k.alloc sys.world)
      then (enomem, sys)
      else (if negative ret
          then (ret, sys)
          else (if nonzero answer.code then (answer.code, committed) else written))

  -- With the composition made and the flattening due.
  flatten_into :
      DrmConnector
      → Option DrmCrtc
      → Importer
      → DrmDisplayComposition
      → Flattening W
      → ℤ × Flattening W
  unfolding allocate import_buffer writeback_layer write_back
  flatten_into conn crtc importer comp s =
      let mode = s.system.compositor.mode.mode in
      let (there, fb) =
        allocate fl.graphics mode.h_display mode.v_display (s.framebuffers s.framebuffer_index) in
      let s' = record s {
        framebuffers = λ i. if i == s.framebuffer_index then fb else s.framebuffers i;
        framebuffer_index = (s.framebuffer_index + 1) % display_buffers;
      } in
      let (ret, layer) = import_buffer importer (writeback_layer floats (handle_of fb) mode) in
      let (code, sys) = write_back conn crtc comp layer s.system in
      if not there
      then (enomem, s')
      else (if nonzero ret then (ret, s') else (code, record s' { system = sys }))

  serial_on :
      DrmConnector
      → Option DrmCrtc
      → Option Importer
      → Option DrmDisplayComposition
      → Flattening W
      → ℤ × Flattening W
  unfolding flatten_into countdown_expired
  serial_on conn crtc importer none s = (einval, s)
  serial_on conn crtc none (some comp) s = (einval, s)
  serial_on conn crtc (some importer) (some comp) s =
      let going = flatten_into conn crtc importer comp s in
      if not (countdown_expired k floats fences s.system.compositor)
        || ltb (length (layers_of s.system.compositor.active_composition)) 2
      then (ealready, s)
      else going

  -- `FlattenSerial`, which its caller calls with an active composition.
  unfoldable pub flatten_serial : DrmConnector → Flattening W → ℤ × Flattening W
  unfolding serial_on create_initialized_composition get_crtc_for_display
  flatten_serial conn s =
      let crtc = get_crtc_for_display s.system.device (some s.system.compositor.display) in
      serial_on conn crtc fl.importer (create_initialized_composition crtc fl.importer fl.planner) s
