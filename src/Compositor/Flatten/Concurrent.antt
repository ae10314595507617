-- ===== src/Compositor/Flatten/Concurrent.antt =====
-- `FlattenConcurrent`, `FlattenActiveComposition` and `Vsync` of drmdisplaycompositor.cpp: the frame that
-- is shown is written back by a CRTC that shows nothing, with a compositor made for it.
pub mod Ledger
use platform_external_drm_hw.Compositor.Flatten.{
  flatten_serial, Flattening, create_initialized_composition, writeback_layer, Flattener,
}
use platform_external_drm_hw.Layer.{init_from_layer, DrmHwcLayer, Importer, import_buffer}
use platform_external_drm_hw.Layer.DrmHwcBlending.{pre_mult}
use platform_external_drm_hw.Drm.Crtc.{same_id, DrmCrtc}
use platform_external_drm_hw.Composition.{
  set_layers, add_plane_disable, add_plane_composition, DrmDisplayComposition,
}
use platform_external_drm_hw.Planner.{layer_plane}
use platform_external_drm_hw.Compositor.{apply_frame, countdown_expired}
use platform_external_drm_hw.Base.{
  ℤ, nonzero, Bool, true, false, Option, none, some, List, ◌==◌, not, if◌then◌else◌, ok, einval, ℕ,
  ◌∷◌, negsuc, pos, ◌||◌, suc, ltb, [], length, ealready,
}
use platform_external_drm_hw.Kernel.{Kms}
use platform_external_drm_hw.Drm.Plane.{DrmPlane, type_primary, get_crtc_supported}
use platform_external_drm_hw.Drm.Connector.{DrmConnector, ConnectorRes}
use platform_external_drm_hw.Drm.Device.{get_crtc_for_display}
use platform_external_drm_hw.Framebuffer.{DrmFramebuffer}
use platform_external_drm_hw.Compositor.Request.{FloatOps}
use platform_external_drm_hw.Compositor.State.{System, OutFences, destroy_property_blob}
use platform_external_drm_hw.Compositor.Flatten.OnDisplay.{flatten_on_display}
use Prim.Native.Nat.{zero}

module _ {W : Type 0} (k : Kms W) where
  -- The destructor of a compositor that was initialized: its blobs are destroyed.
  unfoldable pub discard : System W → W
  unfolding destroy_property_blob
  discard sys =
      let (ret, w) = destroy_property_blob k sys.world sys.compositor.mode.blob_id in
      (destroy_property_blob k w sys.compositor.mode.old_blob_id).1

abbrev cons_copy : DrmHwcLayer → Option (List DrmHwcLayer) → Option (List DrmHwcLayer)
cons_copy l none = none
cons_copy l (some ls) = some (l ∷ ls)

abbrev is_inactive : Option DrmDisplayComposition → Bool
is_inactive none = true
is_inactive (some c) = false

-- `flatten_countdown_--`, on an `int` that stays far above the least one.
abbrev pub pred_ℤ : ℤ → ℤ
pred_ℤ (pos zero) = negsuc 0
pred_ℤ (pos (suc n)) = pos n
pred_ℤ (negsuc n) = negsuc (suc n)

-- The copies of the layers for another device; `none` when an import fails.
copy_layers : Importer → List DrmHwcLayer → Option (List DrmHwcLayer)
unfolding init_from_layer
copy_layers importer [] = some []
copy_layers importer (l ∷ ls) =
    let (ret, copy) = init_from_layer importer l in
    let rest = copy_layers importer ls in if nonzero ret then none else cons_copy copy rest

-- The loop over the planes of the device: the last primary plane of the CRTC carries the frame, the
-- planes that are not primary are disabled, and any other primary plane is left as it is.
unfoldable pub squash_last :
    DrmCrtc
    → List DrmPlane
    → Option DrmPlane
    → DrmDisplayComposition
    → Option DrmPlane × DrmDisplayComposition
unfolding add_plane_disable
squash_last crtc [] chosen comp = (chosen, comp)
squash_last crtc (p ∷ ps) chosen comp =
    let skipped = squash_last crtc ps chosen comp in
    let taken = squash_last crtc ps (some p) comp in
    let disabled = squash_last crtc ps chosen (add_plane_disable comp p) in
    if not (get_crtc_supported p crtc)
    then skipped
    else (if p.type == type_primary then taken else disabled)

-- `get_usable_handle` of a layer.
abbrev usable_handle : DrmHwcLayer → Option ℕ
usable_handle l = elim l.handle [ none ↦ l.sf_handle | some h ↦ some h ]

-- The other display: the code of its compositor's `Init`, the compositor, what its flattening needs,
-- what the kernel answers about the writeback connector, and whether it is on the same device.
pub record Elsewhere (W : Type 0) : Type 0 where
  pub init_ret : ℤ
  pub system : System W
  pub flattener : Flattener
  pub answer : Option ConnectorRes
  pub same_device : Bool

module _ {W : Type 0} (k : Kms W) (floats : FloatOps) (fences : OutFences) (fl : Flattener) where
  -- With the frame written into a layer, its show on this display.
  show_on : DrmCrtc → Importer → DrmHwcLayer → DrmDisplayComposition → System W → ℤ × System W
  unfolding squash_last writeback_layer import_buffer add_plane_composition apply_frame
  show_on crtc importer written comp sys =
      let (chosen, comp') = squash_last crtc sys.device.planes none comp in
      let (ret, layer) =
        import_buffer importer (record (writeback_layer floats 0 sys.compositor.mode.mode) {
          sf_handle = usable_handle written;
          blending = pre_mult;
        }) in
      let squashed =
        add_plane_composition (record comp' { layers = layer ∷ [] }) (layer_plane chosen crtc 0) in
      if nonzero ret then (ret, sys) else (ok, apply_frame k floats fences squashed ok true sys)

  -- With the layers copied.
  flatten_copies :
      DrmConnector
      → DrmCrtc
      → Importer
      → List DrmHwcLayer
      → DrmDisplayComposition
      → DrmDisplayComposition
      → Elsewhere W
      → System W
      → ℤ × System W
  unfolding set_layers flatten_on_display show_on discard
  flatten_copies conn crtc importer copies copy_comp comp other sys =
      let fresh : DrmFramebuffer = record { buffer = none; release_fence_fd = negsuc 0 } in
      let r =
        flatten_on_display k floats fences other.flattener other.answer conn
          sys.compositor.mode.mode fresh (set_layers copy_comp copies true).1
          (record other.system { world = sys.world }) in
      let back = record sys {
        world = r.system.world;
        device = if other.same_device then r.system.device else sys.device;
      } in
      let (ret, shown) = show_on crtc importer r.layer comp back in
      let left : System W → System W =
        λ s. record s { world = discard k (record r.system { world = s.world }) } in
      if nonzero r.ret then (r.ret, left back) else (ret, left shown)

  -- With the compositions made and the flattening due.
  flatten_due :
      DrmConnector
      → DrmCrtc
      → Importer
      → Option (List DrmHwcLayer)
      → DrmDisplayComposition
      → DrmDisplayComposition
      → Elsewhere W
      → System W
      → ℤ × System W
  unfolding flatten_copies
  flatten_due conn crtc importer none copy_comp comp other sys = (einval, sys)
  flatten_due conn crtc importer (some copies) copy_comp comp other sys =
      flatten_copies conn crtc importer copies copy_comp comp other sys

  concurrent_on :
      DrmConnector
      → Option DrmDisplayComposition
      → Option DrmDisplayComposition
      → Option Importer
      → Option Importer
      → Elsewhere W
      → System W
      → Option DrmDisplayComposition
      → ℤ × System W
  unfolding flatten_due copy_layers countdown_expired
  concurrent_on conn (some copy_comp) (some comp) (some copier) (some importer) other sys
        (some shown) =
      let going =
        flatten_due conn shown.crtc importer (copy_layers copier shown.layers) copy_comp comp other
          sys in
      if not (countdown_expired k floats fences sys.compositor) || ltb (length shown.layers) 2
      then (ealready, sys)
      else going
  concurrent_on conn _ _ _ _ other sys _ = (einval, sys)

  -- `FlattenConcurrent`, which its caller calls with an active composition. A compositor that has not
  -- committed has no blob to destroy.
  unfoldable pub flatten_concurrent : DrmConnector → Elsewhere W → System W → ℤ × System W
  unfolding concurrent_on create_initialized_composition get_crtc_for_display
  flatten_concurrent conn other sys =
      let crtc = get_crtc_for_display sys.device (some sys.compositor.display) in
      let its_crtc =
        get_crtc_for_display other.system.device (some other.system.compositor.display) in
      let going =
        concurrent_on conn
          (create_initialized_composition its_crtc other.flattener.importer other.flattener.planner)
          (create_initialized_composition crtc fl.importer fl.planner) other.flattener.importer
          fl.importer other sys sys.compositor.active_composition in
      if nonzero other.init_ret then (other.init_ret, sys) else going

  -- `FlattenActiveComposition`, on the writeback connector that the resource manager finds.
  unfoldable pub flatten_active_composition :
      Option DrmConnector → Elsewhere W → Flattening W → ℤ × Flattening W
  unfolding flatten_concurrent flatten_serial
  flatten_active_composition none other s = (einval, s)
  flatten_active_composition (some conn) other s =
      let serial = flatten_serial k floats fences fl conn s in
      let (ret, sys) = flatten_concurrent conn other s.system in
      if is_inactive s.system.compositor.active_composition
      then (einval, s)
      else (if same_id conn.display (some s.system.compositor.display)
          then serial
          else (ret, record s { system = sys }))

  -- `Vsync`: the countdown, and the flattening when it has run out.
  unfoldable pub vsync : Option DrmConnector → Elsewhere W → Flattening W → Flattening W
  unfolding flatten_active_composition countdown_expired
  vsync conn other s =
      let ticked = record s {
        system = record s.system {
          compositor = record s.system.compositor {
            flatten_countdown = pred_ℤ s.system.compositor.flatten_countdown;
          };
        };
      } in
      let flattened = (flatten_active_composition conn other ticked).1 in
      if countdown_expired k floats fences ticked.system.compositor then flattened else ticked
