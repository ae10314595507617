-- ===== src/Vsync/Routine/Thread/Switching.antt =====
-- What `VSyncControl(false)` promises a caller while the vsync thread is under way.
use platform_external_drm_hw.Base.{
  ℕ, ◌+◌, ◌≤◌, Bool, true, false, Option, none, some, List, [], ◌∷◌, ◌≡◌, refl, arith, length,
  length-append, All, Bool-cases, inl, inr, subst, sym, ◌∙◌,
}
use platform_external_drm_hw.Drm.Device.{DrmDevice, get_crtc_for_display}
use platform_external_drm_hw.Drm.Crtc.{DrmCrtc}
use platform_external_drm_hw.Vsync.{VSyncWorker, vsync_control, note_vsync}
use platform_external_drm_hw.Vsync.Routine.{Periods, Occasion, called, is_eintr, vblank_time}
use platform_external_drm_hw.Vsync.Routine.Thread.{
  Place, top, asleep, away, VSyncThread, Call, Action, control, register, advance, calls_of,
  return_from, come_back, begin, awaken, advance_from, act, calls, register_vsync,
}

-- The call that the thread may be about to make.
abbrev pub pending {ℓ} : {C : Type ℓ} → Place C → ℕ
pending (away true display callback) = 1
pending place = 0

pub pending-le {ℓ} : {C : Type ℓ} (place : Place C) → pending place ≤ 1
pending-le top = omega arith
pending-le asleep = omega arith
pending-le (away true display callback) = omega arith
pending-le (away false display callback) = omega arith

abbrev pub StaysOff {ℓ} : {C : Type ℓ} → Action C → Type 0
StaysOff (control enabled) = enabled ≡ false
StaysOff a = Unit

abbrev pub IsTo {ℓ} : {C : Type ℓ} → C → Call C → Type ℓ
IsTo c x = x.callback ≡ c

-- What the end of `Routine` does to the thread `t`, with the copies it has.
pub record IsReturn {ℓ} {C : Type ℓ} (enabled : Bool) (callback : Option C) (display : ℕ)
    (t : VSyncThread C) (r : List (Call C) × VSyncThread C) : Type ℓ where
  pub at_top : r.1.place ≡ top
  pub kept : r.1.callback ≡ t.callback
  pub as_before : r.1.worker.enabled ≡ t.worker.enabled
  pub few : length r.0 ≤ pending (away enabled display callback)
  pub each : (c : C) → callback ≡ some c → All (IsTo c) r.0

called-enabled : (time : Option ℕ) (v : VSyncWorker) → (called time v).1.enabled ≡ v.enabled
unfolding called note_vsync
called-enabled none v = refl
called-enabled (some time) v = refl

called-first : (time : Option ℕ) (v : VSyncWorker) → (called time v).0 ≡ time
unfolding called
called-first none v = refl
called-first (some time) v = refl

module _ {ℓ} {C : Type ℓ} (periods : Periods) where
  calls_of-length :
      (callback : Option C) (display : ℕ) (time : Option ℕ)
      → length (calls_of callback display time) ≤ 1
  calls_of-length none display time = omega arith
  calls_of-length (some c) display none = omega arith
  calls_of-length (some c) display (some time) = omega arith

  calls_of-IsTo :
      (c : C) (display : ℕ) (time : Option ℕ) → All (IsTo c) (calls_of (some c) display time)
  calls_of-IsTo c display none = tt
  calls_of-IsTo c display (some time) = (refl, tt)

  return_from-IsReturn :
      (crtc : Option DrmCrtc) (callback : Option C) (display : ℕ) (dev : DrmDevice) (o : Occasion)
      (t : VSyncThread C)
      → IsReturn true callback display t (return_from periods crtc callback display dev o t)
  unfolding return_from
  return_from-IsReturn none callback display dev o t = record {
    at_top = refl;
    kept = refl;
    as_before = refl;
    few = omega arith;
    each = λ c is. tt;
  }
  return_from-IsReturn (some crtc) callback display dev o t =
      let time = vblank_time periods dev display o t.worker in
      record {
        at_top = refl;
        kept = refl;
        as_before = called-enabled time t.worker;
        few = calls_of-length callback display (called time t.worker).0;
        each = λ c is.
            subst (λ to. All (IsTo c) (calls_of to display (called time t.worker).0)) (sym is)
              (calls_of-IsTo c display (called time t.worker).0);
      }

  pub come_back-IsReturn :
      (enabled : Bool) (callback : Option C) (display : ℕ) (dev : DrmDevice) (o : Occasion)
      (t : VSyncThread C)
      → IsReturn enabled callback display t (come_back periods enabled callback display dev o t)
  unfolding come_back
  come_back-IsReturn true callback display dev o t =
      return_from-IsReturn (get_crtc_for_display dev (some display)) callback display dev o t
  come_back-IsReturn false callback display dev o t = record {
    at_top = refl;
    kept = refl;
    as_before = refl;
    few = omega arith;
    each = λ c is. tt;
  }

  -- A worker that is switched off may make the call that is pending, and comes to no other.
  advance_from-few :
      (place : Place C) (dev : DrmDevice) (o : Occasion) (t : VSyncThread C)
      → t.worker.enabled ≡ false
      → (length (advance_from periods place dev o t).0
            + pending (advance_from periods place dev o t).1.place
          ≤ pending place)
        × ((advance_from periods place dev o t).1.worker.enabled ≡ false)
  unfolding advance_from begin awaken
  advance_from-few top dev o t off = (rw off (omega arith), off)
  advance_from-few asleep dev o t off = elim (Bool-cases (is_eintr o.wait_ret)) [
    | inl ended ↦ (rw ended (omega arith), off)
    | inr signalled ↦ (rw (signalled, off) (omega arith), off)
  ]
  advance_from-few (away enabled display callback) dev o t off =
      let back = come_back-IsReturn enabled callback display dev o t in
      (rw back.at_top (omega (arith, back.few)), back.as_before ∙ off)

  calls-few :
      (acts : List (Action C)) (t : VSyncThread C)
      → t.worker.enabled ≡ false
      → All StaysOff acts
      → length (calls periods acts t) ≤ pending t.place
  unfolding calls act register_vsync vsync_control
  calls-few [] t off stays = omega arith
  calls-few (control enabled ∷ acts) t off stays =
      calls-few acts (act periods (control enabled) t).1 stays.0 stays.1
  calls-few (register callback ∷ acts) t off stays =
      calls-few acts (act periods (register callback) t).1 off stays.1
  calls-few (advance dev o ∷ acts) t off stays =
      let few = advance_from-few t.place dev o t off in
      let r = advance_from periods t.place dev o t in
      omega
        (arith, length-append r.0 (calls periods acts r.1), few.0, calls-few acts r.1 few.1 stays.1)

  -- After VSyncControl has switched the worker off, and until it switches it on again, at most one more callback is made, whatever the thread is at and whatever happens in between.
  pub control-off :
      (acts : List (Action C)) (t : VSyncThread C)
      → All StaysOff acts
      → length (calls periods (control false ∷ acts) t) ≤ 1
  unfolding calls act vsync_control
  control-off acts t stays =
      let off = (act periods (control false) t).1 in
      omega (arith, calls-few acts off refl stays, pending-le off.place)
