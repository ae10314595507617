-- ===== src/Hwc/Functions/Numbering.antt =====
-- The handles of the layers over the life of the device.
use platform_external_drm_hw.Base.{
  ℕ, ◌<◌, ◌≤◌, ◌^◌, ℤ, Option, none, some, List, [], ◌∷◌, All-imp, ◌≡◌, arith, Option-cases, inl,
  inr, subst,
}
use platform_external_drm_hw.Drm.Connector.{ConnectorRes}
use platform_external_drm_hw.Hwc.Layer.{Error}
use platform_external_drm_hw.Hwc.Display.{HwcDisplay, Platform}
use platform_external_drm_hw.Hwc.Present.Handles.{WellNumbered}
use platform_external_drm_hw.Hwc.Device.{
  DrmHwcTwo, Setup, run_display, clear_hwc_display, new_display,
}
use platform_external_drm_hw.Hwc.Device.Each.{Each, EachIn, EachAfter, Loads, run_display-Each}
use platform_external_drm_hw.Hwc.Device.Creation.{init_hwc}
use platform_external_drm_hw.Hwc.Device.Creation.Each.{init_hwc-Each}
use platform_external_drm_hw.Hwc.Device.Creation.Kept.{
  chose_preferred_config-SameLayers, init_display-SameLayers,
}
use platform_external_drm_hw.Hwc.Device.Hotplug.{handle_event}
use platform_external_drm_hw.Hwc.Device.Hotplug.Each.{
  EachNoted, handle_event-Each, register_callback-Each,
}
use platform_external_drm_hw.Hwc.Functions.{
  Surroundings, DisplayFunction, HwcFunction, HwcEvent, display_function, layer_on, state_called,
  state_after_layer, state_after_event, call_function, handle, handle_all,
}
use platform_external_drm_hw.Hwc.Functions.DisplayFunction.{create_layer}
use platform_external_drm_hw.Hwc.Functions.HwcFunction.{
  create_virtual_display, destroy_virtual_display, get_max_virtual_display_count,
  register_callback as registering, display_hook, layer_hook,
}
use platform_external_drm_hw.Hwc.Functions.HwcEvent.{call, hotplug}
use platform_external_drm_hw.Hwc.Functions.Layers.{
  HasRoom, needed, same_room, SameLayers-SameHandles, display_function-HasRoom, layer_on-HasRoom,
}

-- The calls of CreateLayer, each counted once.
abbrev pub needed_by : {W : Type 0} → HwcEvent W → ℕ → ℕ
needed_by (call env (display_hook h f)) n = needed f n
needed_by (call env create_virtual_display) n = n
needed_by (call env destroy_virtual_display) n = n
needed_by (call env get_max_virtual_display_count) n = n
needed_by (call env (registering k cb)) n = n
needed_by (call env (layer_hook h l f)) n = n
needed_by (hotplug pf i first again ids) n = n

abbrev pub layers_made : {W : Type 0} → List (HwcEvent W) → ℕ
layers_made [] = 0
layers_made (e ∷ es) = needed_by e (layers_made es)

needed-le : (f : DisplayFunction) (n : ℕ) → n ≤ needed f n
needed-le create_layer n = omega arith
needed-le _ n = omega arith

less_room :
    {W : Type 0} (f : DisplayFunction) (n : ℕ) (d : HwcDisplay W)
    → HasRoom (needed f n) d
    → HasRoom n d
less_room f n d h = record { numbered = h.numbered; room = omega (arith, h.room, needed-le f n) }

HasRoom-Loads : {W : Type 0} (m : ℕ) → Loads {W = W} (HasRoom m)
HasRoom-Loads m dev w d h = record { numbered = h.numbered; room = h.room }

module _ {W : Type 0} (n : ℕ) where
  state_called-Each :
      {A : Type 0} (o : Option (A × DrmHwcTwo W))
      → EachAfter (HasRoom n) o
      → EachIn (HasRoom n) (state_called o)
  state_called-Each none h = tt
  state_called-Each (some r) h = h

  state_after_layer-Each :
      (o : Option (Option Error × DrmHwcTwo W))
      → EachAfter (HasRoom n) o
      → EachIn (HasRoom n) (state_after_layer o)
  state_after_layer-Each none h = tt
  state_after_layer-Each (some (none, s)) h = tt
  state_after_layer-Each (some (some e, s)) h = h

  state_after_event-Each :
      {A : Type 0} (o : Option (DrmHwcTwo W × A))
      → EachNoted (HasRoom n) o
      → EachIn (HasRoom n) (state_after_event o)
  state_after_event-Each none h = tt
  state_after_event-Each (some r) h = h

  call_function-Each :
      (env : Surroundings W) (f : HwcFunction) (s : DrmHwcTwo W)
      → Each (HasRoom (needed_by (call env f) n)) s
      → EachIn (HasRoom n) (call_function env f s)
  unfolding call_function
  call_function-Each env create_virtual_display s each = each
  call_function-Each env destroy_virtual_display s each = each
  call_function-Each env get_max_virtual_display_count s each = each
  call_function-Each env (registering k cb) s each = register_callback-Each (HasRoom n) k cb s each
  call_function-Each env (display_hook h f) s each =
      state_called-Each (run_display h (display_function env f) s) (
        run_display-Each (HasRoom (needed f n)) (HasRoom n) (less_room f n)
          (HasRoom-Loads (needed f n)) (display_function env f) (display_function-HasRoom env f n) h
          s each)
  call_function-Each env (layer_hook h l f) s each =
      state_after_layer-Each (run_display h (layer_on env l f) s) (
        run_display-Each (HasRoom n) (HasRoom n) (λ d p. p) (HasRoom-Loads n) (layer_on env l f)
          (layer_on-HasRoom env l f n) h s each)

  clear_hwc_display-HasRoom :
      (pf : Platform W) (d : HwcDisplay W) → HasRoom n d → HasRoom n (clear_hwc_display pf d).1
  unfolding clear_hwc_display
  clear_hwc_display-HasRoom pf d h = record { numbered = h.numbered; room = h.room }

  handle-Each :
      (e : HwcEvent W) (s : DrmHwcTwo W)
      → Each (HasRoom (needed_by e n)) s
      → EachIn (HasRoom n) (handle e s)
  unfolding handle
  handle-Each (call env f) s each = call_function-Each env f s each
  handle-Each (hotplug pf i first again ids) s each =
      state_after_event-Each (handle_event pf i first again ids s) (
        handle_event-Each pf (HasRoom n) (HasRoom-Loads n)
          (λ answer d h.
            same_room n d _
              (SameLayers-SameHandles d _ (chose_preferred_config-SameLayers pf answer d)) h)
          (clear_hwc_display-HasRoom pf) i first again ids s each)

  init_hwc-HasRoom :
      (pf : Platform W) (setup : Setup) (answers : ℕ → Option ConnectorRes) (rv : ℤ)
      (s : DrmHwcTwo W)
      → s.displays ≡ []
      → n < 2 ^ 32
      → Each (HasRoom n) (init_hwc pf setup answers rv s).1
  unfolding new_display
  init_hwc-HasRoom pf setup answers rv s none_yet few =
      init_hwc-Each pf setup (HasRoom n) (HasRoom-Loads n)
        (λ h dev w. record {
          numbered = record { below = tt; distinct = λ k. omega arith };
          room = omega (arith, few);
        })
        (λ manager answer planes d h.
          same_room n d _
            (SameLayers-SameHandles d _ (init_display-SameLayers pf setup answer manager planes d))
            h)
        answers rv s (rw none_yet tt)

module _ {W : Type 0} where
  handle_all-Each :
      (es : List (HwcEvent W)) (s : DrmHwcTwo W)
      → Each (HasRoom (layers_made es)) s
      → EachIn (HasRoom 0) (handle_all es s)
  unfolding handle_all
  handle_all-Each [] s each = each
  handle_all-Each (e ∷ es) s each =
      let after = handle-Each (layers_made es) e s each in
      elim (Option-cases (handle e s)) [
        | inl thrown ↦ rw (thrown, handle_all) tt
        | inr (s', through) ↦
            let each' : EachIn (HasRoom (layers_made es)) (some s') =
              subst (EachIn (HasRoom (layers_made es))) through after in
            rw (through, handle_all) (handle_all-Each es s' each')
      ]

  -- When the device has been made and then used in any way, with functions of HWC2 and hotplug events in
  -- any order and whatever they answer, with fewer than 2^32 layers made, then on each display the
  -- layers have distinct handles, which are below the one that the next layer gets.
  pub lifetime-WellNumbered :
      (pf : Platform W) (setup : Setup) (answers : ℕ → Option ConnectorRes) (rv : ℤ)
      (s t : DrmHwcTwo W) (es : List (HwcEvent W))
      → s.displays ≡ []
      → layers_made es < 2 ^ 32
      → handle_all es (init_hwc pf setup answers rv s).1 ≡ some t
      → Each WellNumbered t
  lifetime-WellNumbered pf setup answers rv s t es none_yet few ended =
      All-imp (λ slot. HasRoom 0 slot.display) (λ slot. WellNumbered slot.display) t.displays
        (λ slot h. h.numbered)
        (subst (EachIn (HasRoom 0)) ended (
          handle_all-Each es (init_hwc pf setup answers rv s).1
            (init_hwc-HasRoom (layers_made es) pf setup answers rv s none_yet few)))
