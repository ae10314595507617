-- ===== src/Compositor/Commit.antt =====
-- `DrmDisplayCompositor::CommitFrame` and `SetupWritebackCommit`.
pub mod Testing
pub mod Setting
pub mod Ledger
use platform_external_drm_hw.Base.{
  ℕ, ℤ, nonzero, negative, Bool, true, false, Option, none, some, List, [], ◌==◌, ◌&&◌, not,
  if◌then◌else◌, ok, einval, enodev, enomem,
}
use platform_external_drm_hw.Kernel.{Kms, AtomicEntry}
use platform_external_drm_hw.Drm.Crtc.{DrmCrtc}
use platform_external_drm_hw.Drm.Connector.{DrmConnector}
use platform_external_drm_hw.Drm.Device.{get_connector_for_display, get_crtc_for_display}
use platform_external_drm_hw.Composition.{DrmDisplayComposition}
use platform_external_drm_hw.Compositor.Request.{
  FloatOps, go, fault, broke, Line, entry, plane_lines, add_or_break, add_code_or_break,
}
use platform_external_drm_hw.Compositor.State.{
  ModeState, System, Committed, OutFences, destroy_property_blob, apply_dpms, set_active_mode,
}

module _ {W : Type 0} (k : Kms W) where
  -- `SetupWritebackCommit`, with the framebuffer of the writeback buffer. The fence is written through
  -- the address `fence`.
  unfoldable pub setup_writeback_commit :
      W → DrmCrtc → DrmConnector → ℕ → ℕ → List AtomicEntry → ℤ × List AtomicEntry
  unfolding add_code_or_break
  setup_writeback_commit w crtc conn fb_id fence es =
      if conn.writeback_fb_id.id == 0
      then (einval, es)
      else (if conn.writeback_out_fence.id == 0
          then (einval, es)
          else (if fb_id == 0
              then (einval, es)
              else (let s : Line = record { flow = go; ret = ok; entries = es } in
                  let a = add_code_or_break k w (entry conn.id conn.writeback_fb_id fb_id) s in
                  let b = add_code_or_break k w (entry conn.id conn.writeback_out_fence fence) a in
                  let c = add_code_or_break k w (entry conn.id conn.crtc_id_property crtc.id) b in
                  (if negative c.ret then c.ret else ok, c.entries))))

  -- The part of `CommitFrame` between `drmModeAtomicAlloc` and the loop, without writeback: `failed` is
  -- an early return. The out fence is written through the address `fence`.
  out_fence_line : W → DrmCrtc → ℕ → Line → Line
  unfolding add_code_or_break
  out_fence_line w crtc fence s =
      if crtc.out_fence_ptr_property.id == 0
      then s
      else add_code_or_break k w (entry crtc.id crtc.out_fence_ptr_property fence) s

  modeset_line : W → DrmCrtc → DrmConnector → ModeState → Line → Line
  unfolding add_code_or_break add_or_break
  modeset_line w crtc conn mode s =
      if mode.needs_modeset
      then add_or_break k w (entry conn.id conn.crtc_id_property crtc.id) (
          add_or_break k w (entry crtc.id crtc.mode_property mode.blob_id)
            (add_code_or_break k w (entry crtc.id crtc.active_property 1) s))
      else s

  writeback_line : W → DrmCrtc → Option (Option DrmConnector × ℕ) → ℕ → Line → Line
  unfolding setup_writeback_commit
  writeback_line w crtc none fence s = s
  writeback_line w crtc (some (none, fb_id)) fence s = record s { flow = broke; ret = einval }
  writeback_line w crtc (some (some conn, fb_id)) fence s =
      let (ret, es) = setup_writeback_commit w crtc conn fb_id fence s.entries in
      record { flow = if negative ret then broke else go; ret = ret; entries = es }

  -- What `CommitFrame` does after an accepted commit that was no test, if a modeset was due.
  finish_modeset : DrmConnector → DrmDisplayComposition → System W → ℤ × System W
  unfolding destroy_property_blob apply_dpms set_active_mode
  finish_modeset conn comp sys =
      let mode = sys.compositor.mode in
      let (ret, w) = destroy_property_blob k sys.world mode.old_blob_id in
      let sys' = record sys { world = w } in
      let (ret', sys'') = apply_dpms k comp sys' in
      if nonzero ret
      then (ret, sys')
      else (if nonzero ret' then (ret', sys'') else (
        ok,
        record sys'' {
          compositor = record sys''.compositor {
            mode = record mode { old_blob_id = mode.blob_id; blob_id = 0; needs_modeset = false };
          };
          device = set_active_mode conn.id mode.mode sys''.device;
        },
      ))

  -- The end of `CommitFrame`: the out fence goes to the composition.
  keep_out_fence : DrmCrtc → ℤ → ℤ → DrmDisplayComposition → System W → Committed W
  keep_out_fence crtc ret out_fence comp sys = record {
    ret = ret;
    composition =
        if crtc.out_fence_ptr_property.id == 0 then comp else record comp { out_fence = out_fence };
    system = sys;
  }

  -- `CommitFrame` behind the loop, with the code and the request that the loop leaves. When that code is
  -- not 0 nothing is committed, and the out fence is what the stack held, `stale`.
  after_loop :
      DrmCrtc → DrmConnector → Bool → ℤ → DrmDisplayComposition → Line → System W → Committed W
  unfolding finish_modeset keep_out_fence
  after_loop crtc conn test_only stale comp s sys =
      let answer =
        k.commit sys.world s.entries (record { allow_modeset = true; test_only = test_only }) in
      let sys' = record sys { world = answer.world } in
      let tried : ℤ × ℤ × System W =
        if nonzero s.ret then (s.ret, stale, sys) else (answer.code, answer.out_fence, sys') in
      let due = not test_only && sys.compositor.mode.needs_modeset in
      let (ret, sys'') = finish_modeset conn comp tried.2 in
      if not (nonzero s.ret) && nonzero answer.code
      then record { ret = answer.code; composition = comp; system = sys' }
      else (if due
          then (if nonzero ret
              then record { ret = ret; composition = comp; system = sys'' }
              else keep_out_fence crtc ret tried.1 comp sys'')
          else keep_out_fence crtc tried.0 tried.1 comp tried.2)

  -- The request of a frame, or the early return: the code that ends `CommitFrame` before the loop is in
  -- a line whose flow is `broke`.
  frame_head :
      W → DrmCrtc → DrmConnector → ModeState → Option (Option DrmConnector × ℕ) → OutFences → Line
  unfolding writeback_line out_fence_line modeset_line
  frame_head w crtc conn mode writeback fences = modeset_line w crtc conn mode (
      out_fence_line w crtc fences.address (
        writeback_line w crtc writeback fences.writeback_address
          (record { flow = go; ret = ok; entries = [] })))

  module _ (floats : FloatOps) (fences : OutFences) where
    frame_body :
        DrmCrtc → DrmConnector → Bool → DrmDisplayComposition → Line → System W → Committed W
    unfolding after_loop plane_lines
    frame_body crtc conn test_only comp head sys =
        let s = plane_lines k sys.world floats comp.layers comp.composition_planes head in
        elim s.flow [
          | fault ↦ record {
            ret = s.ret;
            composition = comp;
            system = record sys { crashed = true };
          }
          | _ ↦ after_loop crtc conn test_only fences.stale comp s sys
        ]

    -- `CommitFrame` once the connector and the CRTC are found.
    commit_on :
        DrmCrtc
        → DrmConnector
        → Bool
        → Option (Option DrmConnector × ℕ)
        → DrmDisplayComposition
        → System W
        → Committed W
    unfolding frame_head frame_body
    commit_on crtc conn test_only writeback comp sys =
        let head = frame_head sys.world crtc conn sys.compositor.mode writeback fences in
        let rest = frame_body crtc conn test_only comp head sys in
        if k.alloc sys.world
        then elim head.flow [
          | go ↦ rest
          | _ ↦ record { ret = head.ret; composition = comp; system = sys }
        ]
        else record { ret = enomem; composition = comp; system = sys }

    -- The early returns of `CommitFrame` when the display has no connector or no CRTC.
    commit_found :
        Option DrmConnector
        → Option DrmCrtc
        → Bool
        → Option (Option DrmConnector × ℕ)
        → DrmDisplayComposition
        → System W
        → Committed W
    unfolding commit_on
    commit_found none crtc test_only writeback comp sys = record {
      ret = enodev;
      composition = comp;
      system = sys;
    }
    commit_found (some conn) none test_only writeback comp sys = record {
      ret = enodev;
      composition = comp;
      system = sys;
    }
    commit_found (some conn) (some crtc) test_only writeback comp sys =
        commit_on crtc conn test_only writeback comp sys

    -- `CommitFrame`. `writeback` is the pair of `writeback_conn` and the framebuffer of
    -- `writeback_buffer`, if that is not NULL.
    unfoldable pub commit_frame :
        DrmDisplayComposition → Bool → Option (Option DrmConnector × ℕ) → System W → Committed W
    unfolding commit_found
    commit_frame comp test_only writeback sys =
        commit_found (get_connector_for_display sys.device (some sys.compositor.display))
          (get_crtc_for_display sys.device (some sys.compositor.display)) test_only writeback comp
          sys
