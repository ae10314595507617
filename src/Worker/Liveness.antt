-- ===== src/Worker/Liveness.antt =====
-- `Exit` returns: its `join` waits for a thread that always gets on, and only for so many steps.
use platform_external_drm_hw.Base.{
  ℕ, suc, ◌+◌, ◌*◌, ◌≤◌, ◌<◌, true, ◌≡◌, refl, ◌⊎◌, inl, inr, arith, ◌∙◌,
}
use platform_external_drm_hw.Worker.{
  Thread, absent, head, checking, running, section, testing, waiting, woken, rechecking, leaving,
  finished, joining, Worker, Move, Reach,
}
use platform_external_drm_hw.Worker.Move.{
  enter, stop, call, lock, return, wait, go_on, interrupt, sleep, relock, recheck, unlock,
}
use platform_external_drm_hw.Worker.Step.{move}
use platform_external_drm_hw.Worker.Reach.{later}
use platform_external_drm_hw.Worker.Safety.{Inv, Reach-Inv}

-- The steps that a thread may still take while the flag is set.
abbrev pub rank : Thread → ℕ
rank absent = 0
rank finished = 0
rank checking = 1
rank head = 2
rank (running k) = 3 + 8 * k
rank (leaving k) = 5 + 8 * k
rank (rechecking k) = 6 + 8 * k
rank (woken k) = 7 + 8 * k
rank (waiting k) = 8 + 8 * k
rank (testing k) = 9 + 8 * k
rank (section k) = 10 + 8 * k

-- Steps of the thread, and how many.
pub data Moves (s : Worker) : ℕ → Worker → Type 0 where
  stay : Moves s 0 s
  then : {n : ℕ} {t u : Worker} → Moves s n t → Move t u → Moves s (suc n) u

-- While the flag is set every step of the thread brings its end nearer.
Move-rank :
    {s t : Worker}
    → Move s t
    → s.exit ≡ true
    → (rank t.thread < rank s.thread) × (t.exit ≡ true) × (t.owner ≡ s.owner)
Move-rank (enter at free) set = ground (arith, at, set)
Move-rank (stop at on) set = ground (arith, at, set)
Move-rank (call k at clear) set = ground (arith, at, clear, set)
Move-rank (lock k at free) set = ground (arith, at, set)
Move-rank (return k at) set = ground (arith, at, set)
Move-rank (wait k at) set = ground (arith, at, set)
Move-rank (go_on k at) set = ground (arith, at, set)
Move-rank (interrupt k at on) set = ground (arith, at, set)
Move-rank (sleep k at clear) set = ground (arith, at, clear, set)
Move-rank (relock k at free) set = ground (arith, at, set)
Move-rank (recheck k at) set = ground (arith, at, set)
Move-rank (unlock k at) set = ground (arith, at, set)

Moves-Reach : {s : Worker} {n : ℕ} {t : Worker} → Reach s → Moves s n t → Reach t
Moves-Reach r stay = r
Moves-Reach r (then ms m) = later (Moves-Reach r ms) (move m)

Moves-rank :
    {s : Worker} {n : ℕ} {t : Worker}
    → Moves s n t
    → s.exit ≡ true
    → (n + rank t.thread ≤ rank s.thread) × (t.exit ≡ true) × (t.owner ≡ s.owner)
Moves-rank stay set = (omega arith, set, refl)
Moves-rank (then ms m) set =
    let (fewer, still, same) = Moves-rank ms set in
    let (nearer, on, kept) = Move-rank m still in (omega (arith, fewer, nearer), on, kept ∙ same)

-- A thread that the owner joins has ended or has a step to take.
progress_at :
    (th : Thread) (s : Worker)
    → s.thread ≡ th
    → Inv s
    → s.owner ≡ joining
    → (s.thread ≡ finished) ⊎ ((t : Worker) × Move s t)
progress_at absent s at inv its = absurd (ground (arith, at, inv, its))
progress_at head s at inv its = inr (_, enter at (ground (arith, at, its)))
progress_at checking s at inv its = inr (_, stop at (ground (arith, inv, its)))
progress_at (running k) s at inv its = inr (_, return k at)
progress_at (section k) s at inv its = inr (_, go_on k at)
progress_at (testing k) s at inv its = inr (_, interrupt k at (ground (arith, inv, its)))
progress_at (waiting k) s at inv its = absurd (ground (arith, at, inv, its))
progress_at (woken k) s at inv its = inr (_, relock k at (ground (arith, at, its)))
progress_at (rechecking k) s at inv its = inr (_, recheck k at)
progress_at (leaving k) s at inv its = inr (_, unlock k at)
progress_at finished s at inv its = inl at

-- While the owner is in the `join` of `Exit`, whatever the thread does, it takes no more steps than its
-- rank, and until it has ended it always has a step to take: no notification is lost and the lock is
-- free for it.
pub exit_returns :
    {s : Worker} {n : ℕ} {t : Worker}
    → Reach s
    → s.owner ≡ joining
    → Moves s n t
    → (n + rank t.thread ≤ rank s.thread) × ((t.thread ≡ finished) ⊎ ((u : Worker) × Move t u))
exit_returns {s} {n} {t} r its ms =
    let set : s.exit ≡ true = ground (arith, Reach-Inv r, its) in
    let (fewer, on, same) = Moves-rank ms set in
    (fewer, progress_at t.thread t refl (Reach-Inv (Moves-Reach r ms)) (same ∙ its))
