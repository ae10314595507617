-- ===== src/Vsync/Routine/Spacing.antt =====
-- The times between the callbacks of a vsync worker.
use platform_external_drm_hw.Base.{
  zero, suc, ℕ, ◌+◌, ◌*◌, ◌≤◌, ◌<◌, ok, nonzero, true, false, some, ◌≡◌, refl, ap, arith, ◌∙◌,
}
use platform_external_drm_hw.Drm.Device.{DrmDevice, get_crtc_for_display}
use platform_external_drm_hw.Drm.Crtc.{DrmCrtc}
use platform_external_drm_hw.Vsync.{VSyncWorker, get_phased_vsync, note_vsync}
use platform_external_drm_hw.Vsync.Phase.{get_phased_vsync_next}
use platform_external_drm_hw.Vsync.Routine.{
  Periods, Occasion, is_eintr, frame_ns, synthetic_wait_vblank, vblank_time, called, wait_enabled,
  routine,
}

-- A run of an enabled worker for which the kernel has no vblank, and that sleeps to the end.
pub record IsSynthetic (o : Occasion) (v : VSyncWorker) : Type 0 where
  pub enabled : v.enabled ≡ true
  pub no_vblank : nonzero o.vblank_ret ≡ true
  pub no_signal : is_eintr o.vblank_ret ≡ false
  pub slept : o.sleep_ret ≡ ok

some_frames : (n last frame t : ℕ) → t ≡ last + n * frame → last < t → 1 ≤ n
some_frames zero last frame t whole later = absurd (omega (arith, whole, later))
some_frames (suc n) last frame t whole later = omega arith

module _ (periods : Periods) (dev : DrmDevice) (display : ℕ) where
  vblank_time-synthetic :
      (o : Occasion) (v : VSyncWorker)
      → IsSynthetic o v
      → vblank_time periods dev display o v
        ≡ some (get_phased_vsync v (frame_ns periods dev display) o.clock)
  unfolding vblank_time synthetic_wait_vblank
  vblank_time-synthetic o v h = rw (h.no_signal, h.no_vblank, h.slept) refl

  wait_enabled-synthetic :
      (crtc : DrmCrtc) (o : Occasion) (v : VSyncWorker) (t : ℕ)
      → v.enabled ≡ true
      → vblank_time periods dev display o v ≡ some t
      → wait_enabled (some crtc) periods dev display o v ≡ (some t, note_vsync v t)
  unfolding wait_enabled called
  wait_enabled-synthetic crtc o v t on time = rw (on, time) refl

  routine-enabled :
      (o : Occasion) (v : VSyncWorker)
      → v.enabled ≡ true
      → routine periods dev display o v
        ≡ wait_enabled (get_crtc_for_display dev (some display)) periods dev display o v
  unfolding routine
  routine-enabled o v on = rw on refl

  -- After a callback at `last`, an enabled worker of a display with a CRTC, for which the kernel has no vblank, calls back after a whole number of frames and at most one frame after the clock, and remembers the time. The sleep is not interrupted, the frame time is not 0, and the clock has reached `last`.
  pub routine-spacing :
      (o : Occasion) (v : VSyncWorker) (last : ℕ) (crtc : DrmCrtc)
      → get_crtc_for_display dev (some display) ≡ some crtc
      → IsSynthetic o v
      → v.last_timestamp ≡ some last
      → 0 < frame_ns periods dev display
      → last ≤ o.clock
      → (t : ℕ) × (n : ℕ) × (routine periods dev display o v ≡ (some t, note_vsync v t))
        × (t ≡ last + n * frame_ns periods dev display)
        × (1 ≤ n)
        × (t ≤ o.clock + frame_ns periods dev display)
  routine-spacing o v last crtc there h before moving since =
      let frame = frame_ns periods dev display in
      let t = get_phased_vsync v frame o.clock in
      let (after, soon, (n, whole)) =
        get_phased_vsync_next v last frame o.clock before moving since in
      let runs =
        routine-enabled o v h.enabled
        ∙ ap (λ c. wait_enabled c periods dev display o v) there
        ∙ wait_enabled-synthetic crtc o v t h.enabled (vblank_time-synthetic o v h) in
      (t, n, runs, whole, some_frames n last frame t whole (omega (arith, after, since)), soon)
