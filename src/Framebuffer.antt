-- ===== src/Framebuffer.antt =====
-- drmframebuffer.h: a buffer that a frame is flattened into. `GraphicBuffer` belongs to the platform:
-- a new one has the size it was asked for, and a handle.
use platform_external_drm_hw.Base.{
  ℕ, ℤ, negsuc, nonzero, negative, Bool, true, false, Option, none, some, ◌==◌, ◌&&◌, not,
  if◌then◌else◌, ok,
}

pub record GraphicBuffer : Type 0 where
  pub width : ℕ
  pub height : ℕ
  pub handle : ℕ

pub record DrmFramebuffer : Type 0 where
  pub buffer : Option GraphicBuffer
  pub release_fence_fd : ℤ

-- The constructor of `GraphicBuffer`, and `sync_wait` on a fence for some milliseconds.
pub record Graphics : Type 0 where
  pub new_buffer : ℕ → ℕ → ℕ
  pub sync_wait : ℤ → ℕ → ℤ

-- kReleaseWaitTimeoutMs.
abbrev pub release_wait_timeout_ms : ℕ
release_wait_timeout_ms = 1500

unfoldable pub clear_framebuffer : DrmFramebuffer → DrmFramebuffer
clear_framebuffer fb = elim fb.buffer [
  | none ↦ fb
  | some b ↦ record {
    buffer = none;
    release_fence_fd = if negative fb.release_fence_fd then fb.release_fence_fd else negsuc 0;
  }
]

abbrev new_framebuffer : Graphics → ℕ → ℕ → DrmFramebuffer
new_framebuffer g w h = record {
  buffer = some (record { width = w; height = h; handle = g.new_buffer w h });
  release_fence_fd = negsuc 0;
}

-- `Allocate`: whether there is a buffer of this size, and the framebuffer after it.
unfoldable pub allocate : Graphics → ℕ → ℕ → DrmFramebuffer → Bool × DrmFramebuffer
allocate g w h fb = elim fb.buffer [
  | none ↦ (true, new_framebuffer g w h)
  | some b ↦
      if b.width == w && b.height == h
      then (true, fb)
      else (if not (negative fb.release_fence_fd)
            && nonzero (g.sync_wait fb.release_fence_fd release_wait_timeout_ms)
          then (false, fb)
          else (true, new_framebuffer g w h))
]

unfoldable pub wait_released : Graphics → ℕ → DrmFramebuffer → ℤ
wait_released g timeout fb = elim fb.buffer [
  | none ↦ ok
  | some b ↦ if negative fb.release_fence_fd then ok else g.sync_wait fb.release_fence_fd timeout
]

unfoldable pub set_release_fence_fd : ℤ → DrmFramebuffer → DrmFramebuffer
set_release_fence_fd fd fb = record fb { release_fence_fd = fd }
