-- ===== src/Examples/Threads.antt =====
-- The worker, the vsync routine and the messages of the kernel.
use platform_external_drm_hw.Base.{
  ℕ, ◌+◌, ◌*◌, ◌++◌, List, length, All, ◌≤◌, ◌<◌, ◌≡◌, refl, true, false, ◌&&◌, none, some, [], ◌∷◌,
  ◌⊎◌, arith, ok, einval,
}
use platform_external_drm_hw.Drm.Device.{get_crtc_for_display, get_connector_for_display}
use platform_external_drm_hw.Worker.{Worker, finished, head, joining, Reach, Move}
use platform_external_drm_hw.Worker.Move.{enter, stop}
use platform_external_drm_hw.Worker.Step.{init_lock, init_start, exit_lock, exit_unlock, notify}
use platform_external_drm_hw.Worker.Reach.{start, later}
use platform_external_drm_hw.Worker.Safety.{is_there, exits, sleeps, is_joining, reached-states}
use platform_external_drm_hw.Worker.Liveness.{exit_returns, rank}
use platform_external_drm_hw.Worker.Liveness.Moves.{stay, then}
use platform_external_drm_hw.Vsync.{VSyncWorker, note_vsync}
use platform_external_drm_hw.Vsync.Routine.{
  called, vblank_time, Periods, Occasion, frame_ns, routine,
}
use platform_external_drm_hw.Vsync.Routine.Spacing.{IsSynthetic, routine-spacing}
use platform_external_drm_hw.Vsync.Routine.Thread.{
  VSyncThread, away, Call, Action, control, register, advance, calls,
}
use platform_external_drm_hw.Vsync.Routine.Thread.Switching.{IsTo, control-off}
use platform_external_drm_hw.Vsync.Routine.Thread.Registering.{register-calls}
use platform_external_drm_hw.Events.{
  is_hotplug, strings, Bytes, ready, listen_on, message, no_bytes, both_set,
}
use platform_external_drm_hw.Events.Listening.{listen_on-never}
use platform_external_drm_hw.Events.Messages.{is_hotplug-strings, any, is_devtype, is_other}
use platform_external_drm_hw.Examples.Fixtures.{a_device, a_crtc}

-- A worker that was started and is being joined.
abbrev joined_worker : Worker
joined_worker = record { exit = true; initialized = true; thread = head; owner = joining }

joined_worker-Reach : Reach joined_worker
joined_worker-Reach =
    later
      (later
        (later (later (later start (init_lock refl refl)) (init_start refl refl))
          (exit_lock refl refl))
        (exit_unlock refl refl))
      (notify refl)

abbrev ended_worker : Worker
ended_worker = record joined_worker { thread = finished }

reached_example :
    (true ≡ is_there joined_worker.thread)
    × ((true && true) ≡ (true && exits joined_worker.owner))
    × ((sleeps joined_worker.thread && is_joining joined_worker.owner) ≡ false)
reached_example = reached-states joined_worker-Reach

exit_example :
    (2 + rank ended_worker.thread ≤ rank joined_worker.thread)
    × ((ended_worker.thread ≡ finished) ⊎ ((u : Worker) × Move ended_worker u))
exit_example =
    exit_returns joined_worker-Reach refl (then (then stay (enter refl refl)) (stop refl refl))

abbrev periods : Periods
periods = record { period = λ mode. none; default_period = 16666666 }

abbrev occasion : Occasion
occasion = record {
  wait_ret = ok;
  signalled = record { enabled = true; last_timestamp = some 1000 };
  vblank_ret = einval;
  reply_sec = 0;
  reply_usec = 0;
  clock = 20000000;
  sleep_ret = ok;
}

abbrev ticking : VSyncWorker
ticking = record { enabled = true; last_timestamp = some 1000 }

ticking-IsSynthetic : IsSynthetic occasion ticking
ticking-IsSynthetic = record { enabled = refl; no_vblank = refl; no_signal = refl; slept = refl }

a_frame : 0 < frame_ns periods a_device 0
unfolding frame_ns get_connector_for_display
a_frame = omega arith

shown_crtc : get_crtc_for_display a_device (some 0) ≡ some a_crtc
unfolding get_crtc_for_display
shown_crtc = refl

spacing_example :
    (t : ℕ) × (n : ℕ) × (routine periods a_device 0 occasion ticking
      ≡ (some t, note_vsync ticking t))
    × (t ≡ 1000 + n * frame_ns periods a_device 0)
    × (1 ≤ n)
    × (t ≤ 20000000 + frame_ns periods a_device 0)
spacing_example =
    routine-spacing periods a_device 0 occasion ticking 1000 a_crtc shown_crtc ticking-IsSynthetic
      refl a_frame (omega arith)

-- The thread of that worker, behind `Unlock` with its copies.
abbrev away_thread : VSyncThread ℕ
away_thread = record {
  worker = ticking;
  display = 0;
  callback = some 7;
  place = away true 0 (some 7);
}

abbrev two_advances : List (Action ℕ)
two_advances = advance a_device occasion ∷ advance a_device occasion ∷ []

-- It still makes the one call, without the phase that it had.
off_test :
    calls periods (control false ∷ two_advances) away_thread
    ≡ record { callback = 7; display = 0; timestamp = 36666666 } ∷ []
unfolding calls called vblank_time get_crtc_for_display get_connector_for_display
off_test = refl

off_example : length (calls periods (control false ∷ two_advances) away_thread) ≤ 1
off_example = control-off periods two_advances away_thread (tt, (tt, tt))

-- The first call of this thread is to the callback that it had.
register_example :
    (old : List (Call ℕ)) × (new : List (Call ℕ)) × (calls periods
        (register (some 8) ∷ two_advances)
        away_thread
      ≡ old ++ new)
    × (length old ≤ 1)
    × All (IsTo 8) new
register_example = register-calls periods 8 two_advances away_thread (tt, (tt, tt))

-- A message of two strings: "DEVTYPE=drm_minor" and "A".
abbrev a_message : Bytes
a_message =
    68 ∷ 69 ∷ 86 ∷ 84 ∷ 89 ∷ 80 ∷ 69 ∷ 61 ∷ 100 ∷ 114 ∷ 109 ∷ 95 ∷ 109 ∷ 105 ∷ 110 ∷ 111 ∷ 114 ∷ 0
    ∷ 65 ∷ 0 ∷ []

message_example :
    is_hotplug [] a_message
    ≡ (any is_devtype (strings [] [] a_message) && any is_other (strings [] [] a_message))
message_example = is_hotplug-strings [] a_message

-- It calls the handler, without HOTPLUG=1.
message_test : is_hotplug [] a_message ≡ true
unfolding is_hotplug
message_test = refl

-- A message of the socket that comes after an event of the device alone.
never_example :
    listen_on true
      ((ready true false ∷ [], [])
        ∷ (ready false true ∷ [], message (100 ∷ 0 ∷ []) [] ∷ no_bytes ∷ [])
        ∷ [])
      both_set
    ≡ 0
never_example =
    listen_on-never true true []
      ((ready false true ∷ [], message (100 ∷ 0 ∷ []) [] ∷ no_bytes ∷ []) ∷ []) both_set
