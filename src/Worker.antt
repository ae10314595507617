-- ===== src/Worker.antt =====
-- worker.cpp and worker.h: the thread behind the vsync workers and the event listener, as a state
-- machine. One owner calls `InitWorker` and `Exit`; any thread may call `Signal`. Between taking the
-- mutex and giving it back a thread makes its changes in one step, since nobody else can see them.
pub mod Safety
pub mod Liveness
use platform_external_drm_hw.Base.{
  ℕ, suc, ℤ, Bool, true, false, ◌||◌, ◌≡◌, if◌then◌else◌, ok, ealready,
}

-- Where the worker's thread stands. In `Routine` it may take the lock a number of times, which is
-- counted down, and each time wait once for a signal.
pub data Thread : Type 0 where
  absent : Thread
  head : Thread  -- the head of the loop of `InternalRoutine`
  checking : Thread  -- before `if (should_exit())`, with the lock
  running : ℕ → Thread  -- in `Routine`, without the lock
  section : ℕ → Thread  -- in `Routine`, with the lock
  testing : ℕ → Thread  -- at the start of `WaitForSignalOrExitLocked`, with the lock
  waiting : ℕ → Thread  -- in `cond_.wait`
  woken : ℕ → Thread  -- about to take the lock again
  rechecking : ℕ → Thread  -- behind the wait, with the lock
  leaving : ℕ → Thread  -- about to give the lock back
  finished : Thread

-- Where the owner stands.
pub data Owner : Type 0 where
  outside : Owner
  initing : Owner  -- in `InitWorker`, with the lock
  exiting : Owner  -- in `Exit` behind `exit_ = true`, with the lock
  notifying : Owner  -- before `notify_all`
  joining : Owner  -- in `join`

pub record Worker : Type 0 where
  pub exit : Bool
  pub initialized : Bool
  pub thread : Thread
  pub owner : Owner

-- As constructed.
abbrev pub new_worker : Worker
new_worker = record { exit = false; initialized = false; thread = absent; owner = outside }

abbrev pub holds : Thread → Bool
holds checking = true
holds (section k) = true
holds (testing k) = true
holds (rechecking k) = true
holds (leaving k) = true
holds _ = false

abbrev pub owner_holds : Owner → Bool
owner_holds initing = true
owner_holds exiting = true
owner_holds _ = false

-- The mutex is taken.
abbrev pub locked : Worker → Bool
locked s = holds s.thread || owner_holds s.owner

-- `notify_all`.
abbrev pub wake : Thread → Thread
wake (waiting k) = woken k
wake t = t

-- A step of the worker's thread by itself.
pub data Move (s : Worker) : Worker → Type 0 where
  enter : s.thread ≡ head → locked s ≡ false → Move s (record s { thread = checking })
  stop : s.thread ≡ checking → s.exit ≡ true → Move s (record s { thread = finished })
  call : (k : ℕ) → s.thread ≡ checking → s.exit ≡ false → Move s (record s { thread = running k })
  lock :
      (k : ℕ)
      → s.thread ≡ running (suc k)
      → locked s ≡ false
      → Move s (record s { thread = section k })
  return : (k : ℕ) → s.thread ≡ running k → Move s (record s { thread = head })
  wait : (k : ℕ) → s.thread ≡ section k → Move s (record s { thread = testing k })
  go_on : (k : ℕ) → s.thread ≡ section k → Move s (record s { thread = leaving k })
  -- -EINTR without waiting.
  interrupt :
      (k : ℕ) → s.thread ≡ testing k → s.exit ≡ true → Move s (record s { thread = leaving k })
  sleep : (k : ℕ) → s.thread ≡ testing k → s.exit ≡ false → Move s (record s { thread = waiting k })
  relock :
      (k : ℕ) → s.thread ≡ woken k → locked s ≡ false → Move s (record s { thread = rechecking k })
  recheck : (k : ℕ) → s.thread ≡ rechecking k → Move s (record s { thread = leaving k })
  unlock : (k : ℕ) → s.thread ≡ leaving k → Move s (record s { thread = running k })

-- A step of the system.
pub data Step (s : Worker) : Worker → Type 0 where
  move : {t : Worker} → Move s t → Step s t
  -- A timeout, or a wait that ends by itself.
  spurious : (k : ℕ) → s.thread ≡ waiting k → Step s (record s { thread = woken k })
  signal : Step s (record s { thread = wake s.thread })
  init_lock : s.owner ≡ outside → locked s ≡ false → Step s (record s { owner = initing })
  -- -EALREADY.
  init_again : s.owner ≡ initing → s.initialized ≡ true → Step s (record s { owner = outside })
  init_start :
      s.owner ≡ initing
      → s.initialized ≡ false
      → Step s (record { exit = false; initialized = true; thread = head; owner = outside })
  exit_lock :
      s.owner ≡ outside → locked s ≡ false → Step s (record s { exit = true; owner = exiting })
  exit_idle : s.owner ≡ exiting → s.initialized ≡ false → Step s (record s { owner = outside })
  exit_unlock : s.owner ≡ exiting → s.initialized ≡ true → Step s (record s { owner = notifying })
  notify : s.owner ≡ notifying → Step s (record s { thread = wake s.thread; owner = joining })
  join :
      s.owner ≡ joining
      → s.thread ≡ finished
      → Step s (record s { initialized = false; thread = absent; owner = outside })

pub data Reach : Worker → Type 0 where
  start : Reach new_worker
  later : {s t : Worker} → Reach s → Step s t → Reach t

-- `InitWorker`, as the code that it answers with.
unfoldable pub init_worker : Worker → ℤ
init_worker s = if s.initialized then ealready else ok
