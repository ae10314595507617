-- ===== src/Compositor/Dump.antt =====
-- `DrmDisplayCompositor::Dump` of drmdisplaycompositor.cpp: the counts of frames between two dumps.
use platform_external_drm_hw.Base.{
  ℕ, ◌+◌, ◌-◌, ◌*◌, ◌/◌, ◌%◌, ◌^◌, ℤ, pos, nonzero, Option, none, some, List, [], ◌∷◌, ◌==◌,
  if◌then◌else◌,
}
use platform_external_drm_hw.Composition.Dump.{Piece, text, number}
use platform_external_drm_hw.Compositor.State.{DrmDisplayCompositor}

-- The compositor with `dump_last_timestamp_ns_`, and what has been put into the stream.
pub record Dumped : Type 0 where
  pub compositor : DrmDisplayCompositor
  pub last_timestamp_ns : ℕ
  pub pieces : List Piece

-- `cur_ts - dump_last_timestamp_ns_` of `uint64_t`, in milliseconds.
abbrev pub ms_since : ℕ → ℕ → ℕ
ms_since last now = (now + 2 ^ 64 - last) % 2 ^ 64 / (1000 * 1000)

-- The line of the dump; `fps` is what the stream makes of the frames per second, a float.
abbrev frame_line : (ℕ → ℕ → Piece) → ℕ → ℕ → ℕ → List Piece
frame_line fps display frames ms =
    text "--DrmDisplayCompositor["
    ∷ number (pos display)
    ∷ text "]: num_frames="
    ∷ number (pos frames)
    ∷ text " num_ms="
    ∷ number (pos ms)
    ∷ text " fps="
    ∷ (if ms == 0 then number (pos 0) else fps frames ms)
    ∷ text "\n"
    ∷ []

after_clock : (ℕ → ℕ → Piece) → Option ℕ → DrmDisplayCompositor → ℕ → Dumped
after_clock fps none c last = record {
  compositor = record c { dump_frames_composited = 0 };
  last_timestamp_ns = last;
  pieces = [];
}
after_clock fps (some now) c last = record {
  compositor = record c { dump_frames_composited = 0 };
  last_timestamp_ns = now;
  pieces = frame_line fps c.display c.dump_frames_composited (ms_since last now);
}

-- `Dump`, on the code of the lock and on what the clock says in nanoseconds, `none` where it fails: then
-- the frames are forgotten all the same.
unfoldable pub dump_compositor : (ℕ → ℕ → Piece) → ℤ → Option ℕ → DrmDisplayCompositor → ℕ → Dumped
unfolding after_clock
dump_compositor fps lock_ret clock c last =
    if nonzero lock_ret
    then record { compositor = c; last_timestamp_ns = last; pieces = [] }
    else after_clock fps clock c last
