-- ===== src/Vsync/Phase.antt =====
-- The phase of the synthetic vblank.
use platform_external_drm_hw.Base.{ℕ, ◌+◌, ◌-◌, ◌*◌, ◌/◌, ◌≤◌, ◌<◌, ◌≡◌, some, arith}
use platform_external_drm_hw.Vsync.{VSyncWorker, get_phased_vsync}

-- After a vblank at `last`, with a frame of `frame_ns` (not 0) and a clock not before `last`, the next
-- time is the first after `current` that lies a whole number of frames from `last`.
pub get_phased_vsync_next :
    (v : VSyncWorker) (last frame_ns current : ℕ)
    → v.last_timestamp ≡ some last
    → 0 < frame_ns
    → last ≤ current
    → let next = get_phased_vsync v frame_ns current in
      (current < next) × (next ≤ current + frame_ns) × ((n : ℕ) × (next ≡ last + n * frame_ns))
unfolding get_phased_vsync
get_phased_vsync_next v last frame_ns current e pos h =
    (grind arith, grind arith, ((current - last) / frame_ns + 1, grind arith))
