-- ===== src/Vsync/Routine/Thread.antt =====
-- vsyncworker.cpp: the thread that runs `VSyncWorker::Routine`, between the calls of `VSyncControl` and
-- `RegisterCallback` by other threads. What a thread does between `Lock` and `Unlock` is one action. The
-- times between `Unlock` and the end of `Routine`, where the lock is not held, are one action too: it is
-- there that the callback runs.
pub mod Switching
pub mod Registering
use platform_external_drm_hw.Base.{
  ℕ, ℤ, Bool, true, false, Option, none, some, List, [], ◌∷◌, ◌++◌, if◌then◌else◌,
}
use platform_external_drm_hw.Drm.Device.{DrmDevice, get_crtc_for_display}
use platform_external_drm_hw.Drm.Crtc.{DrmCrtc}
use platform_external_drm_hw.Vsync.{VSyncWorker, new_vsync_worker, vsync_control}
use platform_external_drm_hw.Vsync.Routine.{Periods, Occasion, is_eintr, vblank_time, called}

-- Where the thread stands: before `Lock`, in `WaitForSignalOrExitLocked`, or behind `Unlock` with its
-- copies of `enabled_`, `display_` and `callback_`.
pub data Place {ℓ} (C : Type ℓ) : Type ℓ where
  top : Place C
  asleep : Place C
  away : Bool → ℕ → Option C → Place C

-- The worker with its callback, a null pointer as `none`. `drm_` is a pointer: the device behind it is
-- an argument of the actions that read it.
pub record VSyncThread {ℓ} (C : Type ℓ) : Type ℓ where
  pub worker : VSyncWorker
  pub display : ℕ
  pub callback : Option C
  pub place : Place C

-- The constructor and `Init`, which answers with the code of `InitWorker`.
unfoldable pub init_vsync {ℓ} : {C : Type ℓ} → ℤ → ℕ → ℤ × VSyncThread C
init_vsync worker_ret display = (
  worker_ret,
  record { worker = new_vsync_worker; display = display; callback = none; place = top },
)

unfoldable pub register_vsync {ℓ} : {C : Type ℓ} → Option C → VSyncThread C → VSyncThread C
register_vsync callback t = record t { callback = callback }

-- A call of a callback: with a display and a timestamp.
pub record Call {ℓ} (C : Type ℓ) : Type ℓ where
  pub callback : C
  pub display : ℕ
  pub timestamp : ℕ

abbrev pub leave {ℓ} : {C : Type ℓ} → VSyncThread C → Place C
leave t = away t.worker.enabled t.display t.callback

-- `Lock` and the test of `enabled_`.
unfoldable pub begin {ℓ} : {C : Type ℓ} → VSyncThread C → VSyncThread C
begin t = record t { place = if t.worker.enabled then leave t else asleep }

-- The end of `WaitForSignalOrExitLocked`.
unfoldable pub awaken {ℓ} : {C : Type ℓ} → ℤ → VSyncThread C → VSyncThread C
awaken ret t = record t { place = if is_eintr ret then top else leave t }

-- `if (callback) callback->Callback(display, timestamp)`, where there is a timestamp.
abbrev pub calls_of {ℓ} : {C : Type ℓ} → Option C → ℕ → Option ℕ → List (Call C)
calls_of (some c) display (some time) =
    record { callback = c; display = display; timestamp = time } ∷ []
calls_of callback display time = []

module _ {ℓ} {C : Type ℓ} (periods : Periods) where
  -- From the test of the copy of `enabled_` on: the calls, and the thread at the end of `Routine`.
  return_from :
      Option DrmCrtc
      → Option C
      → ℕ
      → DrmDevice
      → Occasion
      → VSyncThread C
      → List (Call C) × VSyncThread C
  return_from none callback display dev o t = ([], record t { place = top })
  return_from (some crtc) callback display dev o t =
      let (time, worker) = called (vblank_time periods dev display o t.worker) t.worker in
      (calls_of callback display time, record t { worker = worker; place = top })

  unfoldable pub come_back :
      Bool → Option C → ℕ → DrmDevice → Occasion → VSyncThread C → List (Call C) × VSyncThread C
  unfolding return_from
  come_back enabled callback display dev o t =
      let crtc = get_crtc_for_display dev (some display) in
      if enabled then return_from crtc callback display dev o t else ([], record t { place = top })

-- What happens: a call of another thread, or a step of this one.
pub data Action {ℓ} (C : Type ℓ) : Type ℓ where
  control : Bool → Action C
  register : Option C → Action C
  advance : DrmDevice → Occasion → Action C

module _ {ℓ} {C : Type ℓ} (periods : Periods) where
  -- A step of the thread. How the wait ends is part of the occasion.
  unfoldable pub advance_from :
      Place C → DrmDevice → Occasion → VSyncThread C → List (Call C) × VSyncThread C
  unfolding begin awaken come_back
  advance_from top dev o t = ([], begin t)
  advance_from asleep dev o t = ([], awaken o.wait_ret t)
  advance_from (away enabled display callback) dev o t =
      come_back periods enabled callback display dev o t

  unfoldable pub act : Action C → VSyncThread C → List (Call C) × VSyncThread C
  unfolding advance_from register_vsync vsync_control
  act (control enabled) t = ([], record t { worker = vsync_control t.worker enabled })
  act (register callback) t = ([], register_vsync callback t)
  act (advance dev o) t = advance_from t.place dev o t

  -- The calls of the callbacks, in their order.
  unfoldable pub calls : List (Action C) → VSyncThread C → List (Call C)
  unfolding act
  calls [] t = []
  calls (a ∷ rest) t = let (now, t') = act a t in now ++ calls rest t'
