-- ===== src/Hwc/Functions/Layers.antt =====
-- What the functions of HWC2 do to the handles of the layers of a display.
use platform_external_drm_hw.Base.{
  ℕ, ◌+◌, ◌<◌, ◌^◌, true, false, [], ◌∷◌, map, ◌≡◌, refl, ap, arith,
}
use platform_external_drm_hw.Hwc.Layer.{HwcLayer, accept_type_change, set_validated_type}
use platform_external_drm_hw.Hwc.CompositionType
use platform_external_drm_hw.Hwc.Display
use platform_external_drm_hw.Hwc.Display.{HwcDisplay, LayerMap, Platform, on_layer}
use platform_external_drm_hw.Hwc.Validate
use platform_external_drm_hw.Hwc.Validate.Outcome.{create_composition-Kept}
use platform_external_drm_hw.Hwc.Present
use platform_external_drm_hw.Hwc.Present.Handles.{
  handles, WellNumbered, create_layer-WellNumbered, destroy_layer-WellNumbered,
  validate_display-handles, present_display-handles, get_release_fences-handles,
}
use platform_external_drm_hw.Hwc.Config
use platform_external_drm_hw.Hwc.Config.Kept.{
  SameLayers, get_num_configs-SameLayers, set_active_config-SameLayers, set_power_mode-SameLayers,
}
use platform_external_drm_hw.Hwc.Hooks.{put_layer}
use platform_external_drm_hw.Hwc.Functions.{
  Surroundings, DisplayFunction, LayerFunction, display_function, layer_on,
}
use platform_external_drm_hw.Hwc.Functions.DisplayFunction.{
  accept_display_changes, create_layer, destroy_layer, get_active_config,
  get_changed_composition_types, get_client_target_support, get_color_modes, get_display_attribute,
  get_num_configs, get_display_configs, get_display_name, get_display_requests, get_doze_support,
  get_hdr_capabilities, get_release_fences, present_display, set_active_config, set_client_target,
  set_color_mode, set_color_transform, set_output_buffer, set_power_mode, set_vsync_enabled,
  validate_display,
}

-- The handles are distinct and below the counter, which can count `n` layers more.
pub record HasRoom {W : Type 0} (n : ℕ) (d : HwcDisplay W) : Type 0 where
  pub numbered : WellNumbered d
  pub room : d.layer_idx + n < 2 ^ 32

-- The handles and their counter are as before.
pub record SameHandles {W : Type 0} (d d' : HwcDisplay W) : Type 0 where
  pub same : handles d'.layers ≡ handles d.layers
  pub index : d'.layer_idx ≡ d.layer_idx

-- The room that a function needs to leave room for `n` layers.
abbrev pub needed : DisplayFunction → ℕ → ℕ
needed create_layer n = n + 1
needed _ n = n

handles-map : (f : HwcLayer → HwcLayer) (es : LayerMap) → handles (map (on_layer f) es) ≡ handles es
handles-map f [] = refl
handles-map f (e ∷ es) = ground (arith, handles-map f es)

handles-put : (h : ℕ) (l : HwcLayer) (es : LayerMap) → handles (put_layer h l es) ≡ handles es
unfolding put_layer
handles-put h l [] = refl
handles-put h l (e ∷ es) = ground (arith, handles-put h l es)

module _ {W : Type 0} where
  pub same_room : (n : ℕ) (d d' : HwcDisplay W) → SameHandles d d' → HasRoom n d → HasRoom n d'
  same_room n d d' same h = record {
    numbered = rw (same.same, same.index) h.numbered;
    room = rw same.index h.room;
  }

  pub SameLayers-SameHandles : (d d' : HwcDisplay W) → SameLayers d d' → SameHandles d d'
  SameLayers-SameHandles d d' same = record { same = ap handles same.layers; index = same.index }

module _ {W : Type 0} (env : Surroundings W) where
  validate_display-SameHandles :
      (d : HwcDisplay W) → SameHandles d (Validate.validate_display env.platform d).display
  unfolding Validate.validate_display
  validate_display-SameHandles d = record {
    same = validate_display-handles env.platform d;
    index =
        (create_composition-Kept env.platform true (record d {
          layers = map (on_layer (set_validated_type CompositionType.invalid)) d.layers;
        })).index;
  }

  present_display-SameHandles :
      (d : HwcDisplay W) → SameHandles d (Present.present_display env.platform d).display
  unfolding Present.present_display
  present_display-SameHandles d = record {
    same = present_display-handles env.platform d;
    index = ground (arith, (create_composition-Kept env.platform false d).index);
  }

  -- What a function leaves of the room for layers.
  pub display_function-HasRoom :
      (f : DisplayFunction) (n : ℕ) (d : HwcDisplay W)
      → HasRoom (needed f n) d
      → HasRoom n (display_function env f d).1
  unfolding display_function Display.accept_display_changes Config.set_client_target
      Config.set_color_mode Config.set_vsync_enabled Present.create_layer Present.destroy_layer
      Present.get_release_fences
  display_function-HasRoom accept_display_changes n d h =
      same_room n d _ (record { same = handles-map accept_type_change d.layers; index = refl }) h
  display_function-HasRoom create_layer n d h = record {
    numbered = (create_layer-WellNumbered d (omega (arith, h.room)) h.numbered).1;
    room = omega (arith, h.room);
  }
  display_function-HasRoom (destroy_layer l) n d h = record {
    numbered = (destroy_layer-WellNumbered l d h.numbered).1;
    room = h.room;
  }
  display_function-HasRoom get_num_configs n d h =
      same_room n d _ (SameLayers-SameHandles d _ (get_num_configs-SameLayers env.connector d)) h
  display_function-HasRoom (get_release_fences true room) n d h =
      same_room n d _ (record { same = get_release_fences-handles true room d; index = refl }) h
  display_function-HasRoom (get_release_fences false room) n d h = h
  display_function-HasRoom present_display n d h = same_room n d _ (present_display-SameHandles d) h
  display_function-HasRoom (set_active_config config) n d h =
      same_room n d _
        (SameLayers-SameHandles d _ (set_active_config-SameLayers env.platform config d)) h
  display_function-HasRoom (set_client_target target fence dataspace) n d h =
      same_room n d _ (record { same = refl; index = refl }) h
  display_function-HasRoom (set_color_mode mode) n d h = same_room n d _ (ground arith) h
  display_function-HasRoom (set_power_mode mode) n d h =
      same_room n d _ (SameLayers-SameHandles d _ (set_power_mode-SameLayers env.platform mode d)) h
  display_function-HasRoom (set_vsync_enabled enabled) n d h =
      same_room n d _ (record { same = refl; index = refl }) h
  display_function-HasRoom validate_display n d h =
      same_room n d _ (validate_display-SameHandles d) h
  display_function-HasRoom get_active_config n d h = h
  display_function-HasRoom (get_changed_composition_types layers types room) n d h = h
  display_function-HasRoom (get_client_target_support w l dataspace) n d h = h
  display_function-HasRoom (get_color_modes array) n d h = h
  display_function-HasRoom (get_display_attribute config attribute) n d h = h
  display_function-HasRoom (get_display_configs room) n d h = h
  display_function-HasRoom (get_display_name room) n d h = h
  display_function-HasRoom get_display_requests n d h = h
  display_function-HasRoom get_doze_support n d h = h
  display_function-HasRoom get_hdr_capabilities n d h = h
  display_function-HasRoom set_color_transform n d h = h
  display_function-HasRoom set_output_buffer n d h = h

  layer_on-SameHandles :
      (l : ℕ) (f : LayerFunction) (d : HwcDisplay W) → SameHandles d (layer_on env l f d).1
  unfolding layer_on
  layer_on-SameHandles l f d = record { same = grind (arith, handles-put); index = ground arith }

  pub layer_on-HasRoom :
      (l : ℕ) (f : LayerFunction) (n : ℕ) (d : HwcDisplay W)
      → HasRoom n d
      → HasRoom n (layer_on env l f d).1
  layer_on-HasRoom l f n d h = same_room n d _ (layer_on-SameHandles l f d) h
