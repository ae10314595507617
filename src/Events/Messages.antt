-- ===== src/Events/Messages.antt =====
-- Which messages call the hotplug handler.
use platform_external_drm_hw.Base.{Bool, false, List, [], ◌∷◌, ◌&&◌, ◌||◌, not, ◌≡◌, refl, arith}
use platform_external_drm_hw.Events.{
  Bytes, same_bytes, devtype_drm_minor, hotplug_1, strings, Flags, note_event, note_events,
  is_hotplug,
}

-- Some string of a list passes a test.
abbrev pub any : (Bytes → Bool) → List Bytes → Bool
any p [] = false
any p (e ∷ es) = p e || any p es

abbrev pub is_devtype : Bytes → Bool
is_devtype event = same_bytes event devtype_drm_minor

abbrev pub is_other : Bytes → Bool
is_other event = not (is_devtype event)

not_both :
    (event : Bytes) → (same_bytes event devtype_drm_minor && same_bytes event hotplug_1) ≡ false
not_both [] = refl
not_both (b ∷ bs) = ground arith

note_events-flags :
    (es : List Bytes) (f : Flags)
    → ((note_events es f).drm_event ≡ (f.drm_event || any is_other es))
      × ((note_events es f).hotplug_event ≡ (f.hotplug_event || any is_devtype es))
unfolding note_events note_event
note_events-flags [] f = ground arith
note_events-flags (e ∷ es) f = ground (arith, not_both e, note_events-flags es (note_event e f))

-- A message calls the hotplug handler exactly if DEVTYPE=drm_minor is one of its strings and another
-- string is there too; so it does when HOTPLUG=1 is there beside it, and also without.
pub is_hotplug-strings :
    (stale message : Bytes)
    → is_hotplug stale message
      ≡ (any is_devtype (strings stale [] message) && any is_other (strings stale [] message))
unfolding is_hotplug
is_hotplug-strings stale message = ground (
  arith,
  note_events-flags (strings stale [] message)
      (record { drm_event = false; hotplug_event = false }),
)
