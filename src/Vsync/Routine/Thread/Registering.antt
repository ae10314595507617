-- ===== src/Vsync/Routine/Thread/Registering.antt =====
-- Who is called while `RegisterCallback` gives the vsync thread another callback.
use platform_external_drm_hw.Base.{
  ◌≤◌, some, List, [], ◌∷◌, ◌++◌, ◌≡◌, refl, arith, length, All, All-append, Bool-cases, inl, inr,
  subst, sym, ◌∙◌,
}
use platform_external_drm_hw.Drm.Device.{DrmDevice}
use platform_external_drm_hw.Vsync.{vsync_control}
use platform_external_drm_hw.Vsync.Routine.{Periods, Occasion, is_eintr}
use platform_external_drm_hw.Vsync.Routine.Thread.{
  Place, top, asleep, away, VSyncThread, Call, Action, control, register, advance, begin, awaken,
  advance_from, act, calls, register_vsync,
}
use platform_external_drm_hw.Vsync.Routine.Thread.Switching.{IsTo, come_back-IsReturn, pending-le}

abbrev pub KeepsCallback {ℓ} : {C : Type ℓ} → Action C → Type 0
KeepsCallback (register callback) = ⊥
KeepsCallback a = Unit

-- The thread has no copy of another callback.
abbrev pub IsFresh {ℓ} : {C : Type ℓ} → C → Place C → Type ℓ
IsFresh c (away enabled display callback) = callback ≡ some c
IsFresh c place = Unit

module _ {ℓ} {C : Type ℓ} (periods : Periods) where
  -- One step from any place makes at most one call, and the copy it may take is of the callback.
  advance_from-IsFresh :
      (c : C) (place : Place C) (dev : DrmDevice) (o : Occasion) (t : VSyncThread C)
      → t.callback ≡ some c
      → (length (advance_from periods place dev o t).0 ≤ 1)
        × ((advance_from periods place dev o t).1.callback ≡ some c)
        × IsFresh c (advance_from periods place dev o t).1.place
  unfolding advance_from begin awaken
  advance_from-IsFresh c top dev o t is = elim (Bool-cases t.worker.enabled) [
    | inl on ↦ (omega arith, is, rw on is)
    | inr off ↦ (omega arith, is, rw off tt)
  ]
  advance_from-IsFresh c asleep dev o t is = elim (Bool-cases (is_eintr o.wait_ret)) [
    | inl ended ↦ (omega arith, is, rw ended tt)
    | inr signalled ↦ (omega arith, is, rw signalled is)
  ]
  advance_from-IsFresh c (away enabled display callback) dev o t is =
      let back = come_back-IsReturn periods enabled callback display dev o t in
      (
        omega (arith, back.few, pending-le (away enabled display callback)),
        back.kept ∙ is,
        subst (IsFresh c) (sym back.at_top) tt,
      )

  advance_from-IsTo :
      (c : C) (place : Place C) (dev : DrmDevice) (o : Occasion) (t : VSyncThread C)
      → IsFresh c place
      → All (IsTo c) (advance_from periods place dev o t).0
  unfolding advance_from
  advance_from-IsTo c top dev o t fresh = tt
  advance_from-IsTo c asleep dev o t fresh = tt
  advance_from-IsTo c (away enabled display callback) dev o t fresh =
      (come_back-IsReturn periods enabled callback display dev o t).each c fresh

  calls-IsTo :
      (c : C) (acts : List (Action C)) (t : VSyncThread C)
      → t.callback ≡ some c
      → IsFresh c t.place
      → All KeepsCallback acts
      → All (IsTo c) (calls periods acts t)
  unfolding calls act vsync_control
  calls-IsTo c [] t is fresh keeps = tt
  calls-IsTo c (control enabled ∷ acts) t is fresh keeps =
      calls-IsTo c acts (act periods (control enabled) t).1 is fresh keeps.1
  calls-IsTo c (register callback ∷ acts) t is fresh keeps = absurd keeps.0
  calls-IsTo c (advance dev o ∷ acts) t is fresh keeps =
      let r = advance_from periods t.place dev o t in
      let next = advance_from-IsFresh c t.place dev o t is in
      All-append (IsTo c) r.0 (calls periods acts r.1) (advance_from-IsTo c t.place dev o t fresh)
        (calls-IsTo c acts r.1 next.1 next.2 keeps.1)

  calls-at_most_one :
      (c : C) (acts : List (Action C)) (t : VSyncThread C)
      → t.callback ≡ some c
      → All KeepsCallback acts
      → (old : List (Call C)) × (new : List (Call C)) × (calls periods acts t ≡ old ++ new)
        × (length old ≤ 1)
        × All (IsTo c) new
  unfolding calls act vsync_control
  calls-at_most_one c [] t is keeps = ([], [], refl, omega arith, tt)
  calls-at_most_one c (control enabled ∷ acts) t is keeps =
      calls-at_most_one c acts (act periods (control enabled) t).1 is keeps.1
  calls-at_most_one c (register callback ∷ acts) t is keeps = absurd keeps.0
  calls-at_most_one c (advance dev o ∷ acts) t is keeps =
      let r = advance_from periods t.place dev o t in
      let next = advance_from-IsFresh c t.place dev o t is in
      (r.0, calls periods acts r.1, refl, next.0, calls-IsTo c acts r.1 next.1 next.2 keeps.1)

  -- After RegisterCallback with a callback, and until it is called again, all calls but at most the first one are to that callback, whatever the thread is at and whatever happens in between.
  pub register-calls :
      (c : C) (acts : List (Action C)) (t : VSyncThread C)
      → All KeepsCallback acts
      → (old : List (Call C)) × (new : List (Call C)) × (calls periods (register (some c) ∷ acts) t
          ≡ old ++ new)
        × (length old ≤ 1)
        × All (IsTo c) new
  unfolding calls act register_vsync
  register-calls c acts t keeps =
      calls-at_most_one c acts (act periods (register (some c)) t).1 refl keeps
