-- ===== src/Vsync/Routine.antt =====
-- `VSyncWorker::Routine` and `SyntheticWaitVBlank` of vsyncworker.cpp, as one run of the loop. The
-- answers of the clock and of the kernel are arguments, and so is the period of a mode, which the
-- source derives from a float.
pub mod Spacing
pub mod Thread
use platform_external_drm_hw.Base.{
  ℕ, ◌+◌, ◌*◌, ℤ, nonzero, Bool, true, false, Option, none, some, ◌==◌, if◌then◌else◌, negsuc,
  eintr,
}
use platform_external_drm_hw.Drm.Mode.{DrmMode}
use platform_external_drm_hw.Drm.Device.{DrmDevice, get_connector_for_display, get_crtc_for_display}
use platform_external_drm_hw.Drm.Crtc.{DrmCrtc}
use platform_external_drm_hw.Drm.Connector.{DrmConnector}
use platform_external_drm_hw.Vsync.{VSyncWorker, get_phased_vsync, note_vsync}

-- `kOneSecondNs / refresh` of a mode, or `none` for a refresh rate of 0.0f; and of 60.0f.
pub record Periods : Type 0 where
  pub period : DrmMode → Option ℕ
  pub default_period : ℕ

abbrev pub one_second_ns : ℕ
one_second_ns = 1000000000

-- What one run meets: how `WaitForSignalOrExitLocked` ends and what the worker is by then, the answer
-- of `drmWaitVBlank` with the time of its reply, the clock, and the answer of `clock_nanosleep`.
pub record Occasion : Type 0 where
  pub wait_ret : ℤ
  pub signalled : VSyncWorker
  pub vblank_ret : ℤ
  pub reply_sec : ℕ
  pub reply_usec : ℕ
  pub clock : ℕ
  pub sleep_ret : ℤ

abbrev pub is_eintr : ℤ → Bool
is_eintr (negsuc n) = n == 3
is_eintr _ = false

frame_ns_of : Periods → Option DrmConnector → ℕ
frame_ns_of periods none = periods.default_period
frame_ns_of periods (some conn) = elim (periods.period conn.active_mode) [
  | none ↦ periods.default_period
  | some ns ↦ ns
]

-- The frame time for a display.
unfoldable pub frame_ns : Periods → DrmDevice → ℕ → ℕ
unfolding frame_ns_of
frame_ns periods dev display = frame_ns_of periods (get_connector_for_display dev (some display))

-- `SyntheticWaitVBlank`: the code, and the timestamp if the code is 0. The loop around
-- `clock_nanosleep` asks for an answer of -1, which that function, whose answer is an error number,
-- does not give.
unfoldable pub synthetic_wait_vblank : Periods → DrmDevice → ℕ → Occasion → VSyncWorker → ℤ × ℕ
unfolding get_phased_vsync frame_ns
synthetic_wait_vblank periods dev display o v =
    (o.sleep_ret, get_phased_vsync v (frame_ns periods dev display) o.clock)

-- The timestamp of the vblank that is waited for, if there is one.
unfoldable pub vblank_time : Periods → DrmDevice → ℕ → Occasion → VSyncWorker → Option ℕ
unfolding synthetic_wait_vblank
vblank_time periods dev display o v =
    let (ret, timestamp) = synthetic_wait_vblank periods dev display o v in
    if is_eintr o.vblank_ret
    then none
    else (if nonzero o.vblank_ret
        then (if nonzero ret then none else some timestamp)
        else some (o.reply_sec * one_second_ns + o.reply_usec * 1000))

-- What a run of `Routine` gives to the callback, if it comes to that, and the worker after it.
unfoldable pub called : Option ℕ → VSyncWorker → Option ℕ × VSyncWorker
unfolding note_vsync
called none v = (none, v)
called (some timestamp) v = (some timestamp, note_vsync v timestamp)

-- From the test of `enabled` on.
wait_enabled :
    Option DrmCrtc → Periods → DrmDevice → ℕ → Occasion → VSyncWorker → Option ℕ × VSyncWorker
unfolding called vblank_time
wait_enabled none periods dev display o v = (none, v)
wait_enabled (some crtc) periods dev display o v =
    if v.enabled then called (vblank_time periods dev display o v) v else (none, v)

unfoldable pub routine : Periods → DrmDevice → ℕ → Occasion → VSyncWorker → Option ℕ × VSyncWorker
unfolding wait_enabled
routine periods dev display o v =
    let crtc = get_crtc_for_display dev (some display) in
    if v.enabled
    then wait_enabled crtc periods dev display o v
    else (if is_eintr o.wait_ret
        then (none, o.signalled)
        else wait_enabled crtc periods dev display o o.signalled)
