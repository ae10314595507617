-- ===== src/Events.antt =====
-- drmeventlistener.cpp: the messages of the kernel about devices, and what they set off. A byte is a
-- number; `read`, `select`, `socket` and `bind` answer as arguments.
pub mod Messages
pub mod Listening
use platform_external_drm_hw.Base.{
  ℤ-discrete, eintr, ℕ, ◌+◌, ◌*◌, ◌%◌, ◌^◌, ℤ, nonzero, negative, Bool, true, false, Option, none,
  some, List, [], ◌∷◌, ◌++◌, ◌==◌, ◌&&◌, not, if◌then◌else◌, ok,
}

abbrev pub Bytes : Type 0
Bytes = List ℕ

-- `strcmp` of two strings is 0.
abbrev pub same_bytes : Bytes → Bytes → Bool
same_bytes [] [] = true
same_bytes [] (b ∷ bs) = false
same_bytes (a ∷ more) [] = false
same_bytes (a ∷ more) (b ∷ bs) = a == b && same_bytes more bs

-- "DEVTYPE=drm_minor".
abbrev pub devtype_drm_minor : Bytes
devtype_drm_minor =
    68 ∷ 69 ∷ 86 ∷ 84 ∷ 89 ∷ 80 ∷ 69 ∷ 61 ∷ 100 ∷ 114 ∷ 109 ∷ 95 ∷ 109 ∷ 105 ∷ 110 ∷ 111 ∷ 114 ∷ []

-- "HOTPLUG=1".
abbrev pub hotplug_1 : Bytes
hotplug_1 = 72 ∷ 79 ∷ 84 ∷ 80 ∷ 76 ∷ 85 ∷ 71 ∷ 61 ∷ 49 ∷ []

-- The string at the start of some bytes.
abbrev pub c_string : Bytes → Bytes
c_string [] = []
c_string (b ∷ bs) = let rest = c_string bs in if b == 0 then [] else b ∷ rest

abbrev is_empty : Bytes → Bool
is_empty [] = true
is_empty (b ∷ bs) = false

-- The strings that the loop over `buffer` meets, with the bytes of the current one so far. A last string
-- without its end runs on into what was in the buffer before, `stale`.
unfoldable pub strings : Bytes → Bytes → Bytes → List Bytes
strings stale current [] = if is_empty current then [] else (current ++ c_string stale) ∷ []
strings stale current (b ∷ bs) =
    let ended = strings stale [] bs in
    let on = strings stale (current ++ b ∷ []) bs in if b == 0 then current ∷ ended else on

pub record Flags : Type 0 where
  pub drm_event : Bool
  pub hotplug_event : Bool

-- The body of the loop. `strcmp` is not 0 where the strings differ.
unfoldable pub note_event : Bytes → Flags → Flags
note_event event f =
    if not (same_bytes event devtype_drm_minor)
    then record f { drm_event = true }
    else (if not (same_bytes event hotplug_1) then record f { hotplug_event = true } else f)

unfoldable pub note_events : List Bytes → Flags → Flags
unfolding note_event
note_events [] f = f
note_events (e ∷ es) f = note_events es (note_event e f)

-- Whether a message calls the hotplug handler.
unfoldable pub is_hotplug : Bytes → Bytes → Bool
unfolding strings note_events
is_hotplug stale message =
    let f =
      note_events (strings stale [] message)
        (record { drm_event = false; hotplug_event = false }) in
    f.drm_event && f.hotplug_event

-- An answer of `read`: an error or the end, or a message with the bytes behind it.
pub data ReadAnswer : Type 0 where
  no_bytes : ReadAnswer
  message : Bytes → Bytes → ReadAnswer

-- `UEventHandler`: how often it calls the hotplug handler, if there is one. It returns at an answer
-- without bytes; after the last answer of the list it would go on reading.
unfoldable pub uevent_handler : Bool → List ReadAnswer → ℕ
unfolding is_hotplug
uevent_handler handler [] = 0
uevent_handler handler (no_bytes ∷ rs) = 0
uevent_handler handler (message bytes stale ∷ rs) =
    let rest = uevent_handler handler rs in
    if handler && is_hotplug stale bytes then rest + 1 else rest

-- `FlipHandler`: the microseconds that a handler is called with.
unfoldable pub flip_handler : Bool → ℕ → ℕ → Option ℕ
flip_handler has_handler sec usec =
    if has_handler then some ((sec * 1000 * 1000 + usec) % 2 ^ 64) else none

-- `Init`: the socket's descriptor if it is negative, the error of `bind`, or the code of `InitWorker`.
unfoldable pub init_listener : ℤ → ℤ → ℤ → ℤ → ℤ
init_listener socket bind_ret bind_error worker_ret =
    if negative socket then socket else (if nonzero bind_ret then bind_error else worker_ret)

-- `RegisterHotplugHandler`, on whether there is a handler yet: `none` where the assertion fails.
unfoldable pub register_hotplug_handler : Bool → Option Bool
register_hotplug_handler true = none
register_hotplug_handler false = some true

-- The set `fds_`, as whether the device and the socket are in it. `Init` puts both in.
pub record FdSet : Type 0 where
  pub device : Bool
  pub socket : Bool

abbrev pub both_set : FdSet
both_set = record { device = true; socket = true }

-- An answer of `select`: an error, or which of the two descriptors are ready.
pub data SelectAnswer : Type 0 where
  select_error : ℤ → SelectAnswer
  ready : Bool → Bool → SelectAnswer

abbrev is_eintr : ℤ → Bool
is_eintr e = elim (ℤ-discrete e eintr) [ yes same ↦ true | no other ↦ false ]

-- The loop around `select`, with what it makes of `fds_`: on success only the descriptors stay in it that
-- are ready, and an error leaves it. `none` waits for ever.
unfoldable pub select_loop : List SelectAnswer → FdSet → Option FdSet
select_loop [] fds = none
select_loop (ready device socket ∷ answers) fds =
    some (record { device = fds.device && device; socket = fds.socket && socket })
select_loop (select_error e ∷ answers) fds =
    let again = select_loop answers fds in if is_eintr e then again else some fds

-- What one run of `Routine` does: whether the events of the device are handled, how often the hotplug
-- handler is called for the messages of the socket, and `fds_`.
pub record Listened : Type 0 where
  pub device_handled : Bool
  pub hotplugs : ℕ
  pub fds : FdSet

unfoldable pub listen : Bool → List SelectAnswer → List ReadAnswer → FdSet → Option Listened
unfolding select_loop uevent_handler
listen handler answers reads fds = elim (select_loop answers fds) [
  | none ↦ none
  | some fds' ↦ some (record {
    device_handled = fds'.device;
    hotplugs = if fds'.socket then uevent_handler handler reads else 0;
    fds = fds';
  })
]

-- `Worker::InternalRoutine` calls `Routine` again and again: the calls of the hotplug handler in all.
unfoldable pub listen_on : Bool → List (List SelectAnswer × List ReadAnswer) → FdSet → ℕ
unfolding listen
listen_on handler [] fds = 0
listen_on handler ((answers, reads) ∷ rounds) fds = elim (listen handler answers reads fds) [
  | none ↦ 0
  | some r ↦ r.hotplugs + listen_on handler rounds r.fds
]
