-- ===== src/Worker/Safety.antt =====
-- What holds of a worker in every state that can be reached.
use platform_external_drm_hw.Base.{Bool, true, false, ◌&&◌, not, ◌≡◌, refl, arith}
use platform_external_drm_hw.Worker.{
  Thread, absent, waiting, Owner, exiting, notifying, joining, Worker, new_worker, holds,
  owner_holds, Move, Step, Reach,
}
use platform_external_drm_hw.Worker.Move.{
  enter, stop, call, lock, return, wait, go_on, interrupt, sleep, relock, recheck, unlock,
}
use platform_external_drm_hw.Worker.Step.{
  move, spurious, signal, init_lock, init_again, init_start, exit_lock, exit_idle, exit_unlock,
  notify, join,
}
use platform_external_drm_hw.Worker.Reach.{start, later}

abbrev pub is_there : Thread → Bool
is_there absent = false
is_there _ = true

abbrev pub sleeps : Thread → Bool
sleeps (waiting k) = true
sleeps _ = false

abbrev pub is_joining : Owner → Bool
is_joining joining = true
is_joining _ = false

-- The owner is in `Exit`.
abbrev pub exits : Owner → Bool
exits exiting = true
exits notifying = true
exits joining = true
exits _ = false

-- The owner has found the thread and waits for its end.
abbrev pub awaits : Owner → Bool
awaits notifying = true
awaits joining = true
awaits _ = false

pub record Inv (s : Worker) : Type 0 where
  -- The mutex has one holder.
  pub exclusive : (holds s.thread && owner_holds s.owner) ≡ false
  pub started : s.initialized ≡ is_there s.thread
  -- While there is a thread, the flag is set exactly during `Exit`.
  pub flagged : (s.initialized && s.exit) ≡ (s.initialized && exits s.owner)
  pub exiting_flag : (exits s.owner && not s.exit) ≡ false
  pub awaited : (awaits s.owner && not s.initialized) ≡ false
  -- Nobody sleeps through the notification.
  pub awake : (sleeps s.thread && is_joining s.owner) ≡ false

new-Inv : Inv new_worker
new-Inv = record {
  exclusive = refl;
  started = refl;
  flagged = refl;
  exiting_flag = refl;
  awaited = refl;
  awake = refl;
}

Move-Inv : {s t : Worker} → Move s t → Inv s → Inv t
Move-Inv (enter at free) inv = ground (arith, at, free, inv)
Move-Inv (stop at set) inv = ground (arith, at, set, inv)
Move-Inv (call k at clear) inv = ground (arith, at, clear, inv)
Move-Inv (lock k at free) inv = ground (arith, at, free, inv)
Move-Inv (return k at) inv = ground (arith, at, inv)
Move-Inv (wait k at) inv = ground (arith, at, inv)
Move-Inv (go_on k at) inv = ground (arith, at, inv)
Move-Inv (interrupt k at set) inv = ground (arith, at, set, inv)
Move-Inv (sleep k at clear) inv = ground (arith, at, clear, inv)
Move-Inv (relock k at free) inv = ground (arith, at, free, inv)
Move-Inv (recheck k at) inv = ground (arith, at, inv)
Move-Inv (unlock k at) inv = ground (arith, at, inv)

-- Every step of the system keeps the invariant.
pub Step-Inv : {s t : Worker} → Step s t → Inv s → Inv t
Step-Inv (move m) inv = Move-Inv m inv
Step-Inv (spurious k at) inv = ground (arith, at, inv)
Step-Inv signal inv = ground (arith, inv)
Step-Inv (init_lock at free) inv = ground (arith, at, free, inv)
Step-Inv (init_again at there) inv = ground (arith, at, there, inv)
Step-Inv (init_start at missing) inv = ground (arith, at, missing, inv)
Step-Inv (exit_lock at free) inv = ground (arith, at, free, inv)
Step-Inv (exit_idle at missing) inv = ground (arith, at, missing, inv)
Step-Inv (exit_unlock at there) inv = ground (arith, at, there, inv)
Step-Inv (notify at) inv = ground (arith, at, inv)
Step-Inv (join at over) inv = ground (arith, at, over, inv)

pub Reach-Inv : {s : Worker} → Reach s → Inv s
Reach-Inv start = new-Inv
Reach-Inv (later r st) = Step-Inv st (Reach-Inv r)

-- In every state that can be reached, whatever is called and wherever the thread waits: initialized_ says whether there is a thread; while there is one, exit_ is set exactly while the owner is in Exit behind the line that sets it; and while the owner is in the join of Exit, the thread does not sleep in cond_.wait.
pub reached-states :
    {s : Worker}
    → Reach s
    → (s.initialized ≡ is_there s.thread)
      × ((s.initialized && s.exit) ≡ (s.initialized && exits s.owner))
      × ((sleeps s.thread && is_joining s.owner) ≡ false)
reached-states r = let inv = Reach-Inv r in (inv.started, inv.flagged, inv.awake)
