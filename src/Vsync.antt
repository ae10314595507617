-- ===== src/Vsync.antt =====
-- vsyncworker.cpp: the switch of the vsync thread, and the time of the next synthetic vblank. Times are
-- nanoseconds and stay far below 2^63. A `last_timestamp_` of -1 is `none`.
pub mod Phase
pub mod Routine
use platform_external_drm_hw.Base.{
  ℕ, ◌+◌, ◌-◌, ◌*◌, ◌/◌, Bool, true, false, Option, none, some, leb, if◌then◌else◌,
}

pub record VSyncWorker : Type 0 where
  pub enabled : Bool
  pub last_timestamp : Option ℕ

abbrev pub new_vsync_worker : VSyncWorker
new_vsync_worker = record { enabled = false; last_timestamp = none }

unfoldable pub vsync_control : VSyncWorker → Bool → VSyncWorker
vsync_control v enabled = record { enabled = enabled; last_timestamp = none }

-- `GetPhasedVSync`. The division of C++ drops the fraction, also of the negative quotient that a
-- `current` before the last timestamp gives.
phased : Option ℕ → ℕ → ℕ → ℕ
phased none frame_ns current = current + frame_ns
phased (some last) frame_ns current =
    if leb last current
    then frame_ns * ((current - last) / frame_ns + 1) + last
    else last + frame_ns - frame_ns * ((last - current) / frame_ns)

unfoldable pub get_phased_vsync : VSyncWorker → ℕ → ℕ → ℕ
unfolding phased
get_phased_vsync v frame_ns current = phased v.last_timestamp frame_ns current

-- The end of `Routine`: the callback has run and the timestamp is kept.
unfoldable pub note_vsync : VSyncWorker → ℕ → VSyncWorker
note_vsync v timestamp = record v { last_timestamp = some timestamp }
