-- ===== src/Compositor/Request.antt =====
-- The loop of `DrmDisplayCompositor::CommitFrame` that puts the planes of a composition into an atomic
-- request.
use platform_external_drm_hw.Base.{
  none, some, ℕ, ◌+◌, ◌-◌, ◌*◌, ◌%◌, ◌^◌, ℤ, pos, negsuc, nonzero, negative, of_bool, sub_ℕ, List,
  [], ◌∷◌, ◌==◌, ◌||◌, ltb, if◌then◌else◌, ok, not, ◌&&◌, get_elem?, Option,
}
use platform_external_drm_hw.Kernel.{Kms, AtomicEntry, add}
use platform_external_drm_hw.Drm.Property.{DrmProperty, is_immutable, range_min}
use platform_external_drm_hw.Drm.Plane.{DrmPlane}
use platform_external_drm_hw.Drm.Crtc.{DrmCrtc}
use platform_external_drm_hw.Planner.{
  k_disable, k_layer, PlaneUse, blend_of_layer, DrmCompositionPlane,
}
use platform_external_drm_hw.Layer.{DrmHwcLayer, DrmBo}
use platform_external_drm_hw.Layer.Transform.{rotation_of}

-- `uint64_t` of an `int`.
unfoldable pub to_u64 : ℤ → ℕ
to_u64 (pos n) = n % 2 ^ 64
to_u64 (negsuc n) = 2 ^ 64 - 1 - n % 2 ^ 64

-- `int` of a `uint32_t`.
unfoldable pub to_int32 : ℕ → ℤ
to_int32 n = let m = n % 2 ^ 32 in if ltb m (2 ^ 31) then pos m else negsuc (2 ^ 32 - 1 - m)

-- `x << 16` in 32 bits.
unfoldable pub shl_16 : ℤ → ℤ
unfolding to_int32
shl_16 (pos n) = to_int32 (n * 65536)
shl_16 (negsuc n) = to_int32 ((2 ^ 32 - 1 - n % 2 ^ 32) * 65536)

-- The difference of two ints; an overflow, which has no defined value in the source, is not modelled.
unfoldable pub sub_int : ℤ → ℤ → ℤ
sub_int (pos a) (pos b) = sub_ℕ a b
sub_int (pos a) (negsuc b) = pos (a + b + 1)
sub_int (negsuc a) (pos b) = negsuc (a + b)
sub_int (negsuc a) (negsuc b) = sub_ℕ b a

-- What the C++ does with floats: their difference, and their conversions.
pub record FloatOps : Type 0 where
  pub sub : ℕ → ℕ → ℕ
  pub to_int : ℕ → ℤ
  -- `n + 0.0f` of a `uint32_t`.
  pub of_uint : ℕ → ℕ
  -- `static_cast<uint16_t>(65535.0f * x + 0.5f)`.
  pub to_alpha : ℕ → ℕ

-- How the body of the loop goes on: with its next statement, with `continue`, or with `break`. A `fault`
-- is a read through a null plane.
pub data Flow : Type 0 where
  go continued broke fault : Flow

pub record Line : Type 0 where
  pub flow : Flow
  pub ret : ℤ
  pub entries : List AtomicEntry

abbrev pub entry : ℕ → DrmProperty → ℕ → AtomicEntry
entry object p value = record { object = object; property = p.id; value = value }

-- A statement runs only while the body has not left by `continue` or `break`.
abbrev pub then_do : (Line → Line) → Line → Line
then_do f s = elim s.flow [ go ↦ f s | _ ↦ s ]

module _ {W : Type 0} (k : Kms W) (w : W) where
  -- `ret = drmModeAtomicAddProperty(...) < 0; if (ret) break;`
  unfoldable pub add_or_break : AtomicEntry → Line → Line
  unfolding add
  add_or_break e = then_do λ s.
      let (code, es) = add k w e s.entries in
      record {
        flow = if negative code then broke else go;
        ret = of_bool (negative code);
        entries = es;
      }

  -- `ret = drmModeAtomicAddProperty(...); if (ret < 0) break;`
  unfoldable pub add_code_or_break : AtomicEntry → Line → Line
  unfolding add
  add_code_or_break e = then_do λ s.
      let (code, es) = add k w e s.entries in
      record { flow = if negative code then broke else go; ret = code; entries = es }

  -- `ret |= drmModeAtomicAddProperty(...) < 0;`
  unfoldable pub add_too : AtomicEntry → Line → Line
  unfolding add
  add_too e = then_do λ s.
      let (code, es) = add k w e s.entries in
      record s { ret = of_bool (nonzero s.ret || negative code); entries = es }

  unfoldable pub add_all : List AtomicEntry → Line → Line
  unfolding add_too
  add_all [] s = s
  add_all (e ∷ es) s = add_all es (add_too e s)

  -- `if (id) { ret = ... < 0; if (ret) break; }`
  unfoldable pub add_if_there : ℕ → DrmProperty → ℕ → Line → Line
  unfolding add_or_break
  add_if_there object p value s = if p.id == 0 then s else add_or_break (entry object p value) s

  -- `if (ret) break;`
  abbrev break_on_error : Line → Line
  break_on_error = then_do λ s. record s { flow = if nonzero s.ret then broke else go }

  -- The branch for a plane without a framebuffer; the second call is made only if the first succeeds.
  unfoldable pub disable_plane : DrmPlane → Line → Line
  unfolding add_or_break
  disable_plane p s =
      then_do (λ t. record t { flow = continued })
        (add_or_break (entry p.id p.fb_property 0) (add_or_break (entry p.id p.crtc_property 0) s))

  -- `ret = ...` of the first of the ten calls drops the code that stood there.
  abbrev drop_ret : Line → Line
  drop_ret = then_do λ s. record s { ret = ok }

  module _ (floats : FloatOps) where
    -- The ten properties of a plane that shows a framebuffer.
    abbrev pub frame_entries : DrmPlane → DrmCrtc → DrmHwcLayer → ℤ → List AtomicEntry
    frame_entries p crtc l fb_id =
        entry p.id p.crtc_property crtc.id
        ∷ entry p.id p.fb_property (to_u64 fb_id)
        ∷ entry p.id p.crtc_x_property (to_u64 l.display_frame.left)
        ∷ entry p.id p.crtc_y_property (to_u64 l.display_frame.top)
        ∷ entry p.id p.crtc_w_property (to_u64 (sub_int l.display_frame.right l.display_frame.left))
        ∷ entry p.id p.crtc_h_property (to_u64 (sub_int l.display_frame.bottom l.display_frame.top))
        ∷ entry p.id p.src_x_property (to_u64 (shl_16 (floats.to_int l.source_crop.left)))
        ∷ entry p.id p.src_y_property (to_u64 (shl_16 (floats.to_int l.source_crop.top)))
        ∷ entry p.id p.src_w_property
            (to_u64 (shl_16 (floats.to_int (floats.sub l.source_crop.right l.source_crop.left))))
        ∷ entry p.id p.src_h_property
            (to_u64 (shl_16 (floats.to_int (floats.sub l.source_crop.bottom l.source_crop.top))))
        ∷ []

    -- The end of the body, once `fb_id` is known not to be negative.
    unfoldable pub show_plane : DrmPlane → DrmCrtc → DrmHwcLayer → ℤ → Line → Line
    unfolding add_all add_if_there
    show_plane p crtc l fb_id s =
        let t = break_on_error (add_all (frame_entries p crtc l fb_id) (drop_ret s)) in
        let rotated = add_if_there p.id p.rotation_property (rotation_of l.transform) t in
        let faded = add_if_there p.id p.alpha_property l.alpha rotated in
        add_if_there p.id p.blend_property (blend_of_layer p.blend_property l.blending).0 faded

    -- `std::tie(blend, ret) = ...`, if the plane has the property.
    note_blend : DrmPlane → DrmHwcLayer → Line → Line
    note_blend p l s =
        if p.blend_property.id == 0
        then s
        else record s { ret = (blend_of_layer p.blend_property l.blending).1 }

    add_zpos : DrmPlane → ℕ → Line → Line
    add_zpos p i s =
        if not (p.zpos_property.id == 0) && not (is_immutable p.zpos_property)
        then add_or_break
            (entry p.id p.zpos_property ((i + (range_min p.zpos_property).1) % 2 ^ 64)) s
        else s

    add_fence : DrmPlane → ℤ → Line → Line
    add_fence p (negsuc n) s = s
    add_fence p (pos n) s =
        if p.in_fence_fd_property.id == 0
        then then_do (λ t. record t { flow = broke }) s
        else add_code_or_break (entry p.id p.in_fence_fd_property n) s

    unfoldable pub buffer_line : DrmPlane → DrmCrtc → ℕ → DrmHwcLayer → DrmBo → Line → Line
    unfolding note_blend add_zpos add_fence show_plane disable_plane add_or_break
    buffer_line p crtc i l bo s =
        let t = add_fence p l.acquire_fence (add_zpos p i (note_blend p l s)) in
        if negative (to_int32 bo.fb_id)
        then disable_plane p t
        else show_plane p crtc l (to_int32 bo.fb_id) t

    layer_line : DrmPlane → DrmCrtc → ℕ → Option DrmHwcLayer → Line → Line
    unfolding buffer_line
    layer_line p crtc i none s = record s { flow = broke }
    layer_line p crtc i (some l) s = elim l.buffer [
      | none ↦ record s { flow = broke }
      | some bo ↦ buffer_line p crtc i l bo s
    ]

    -- By the source layers: none ends the loop, two or more skip the plane.
    sources_line : List DrmHwcLayer → DrmPlane → DrmCrtc → List ℕ → Line → Line
    unfolding layer_line
    sources_line layers p crtc [] s = record s { flow = broke }
    sources_line layers p crtc (i ∷ []) s = layer_line p crtc i (get_elem? layers i) s
    sources_line layers p crtc (i ∷ j ∷ js) s = record s { flow = continued }

    use_line : PlaneUse → List DrmHwcLayer → DrmPlane → DrmCrtc → List ℕ → Line → Line
    unfolding sources_line disable_plane
    use_line k_disable layers p crtc sources s = disable_plane p s
    use_line k_layer layers p crtc sources s = sources_line layers p crtc sources s

    -- The body of the loop for one entry of the composition.
    unfoldable pub plane_line : List DrmHwcLayer → DrmCompositionPlane → Line → Line
    unfolding use_line
    plane_line layers c s = elim c.plane [
      | none ↦ record s { flow = fault }
      | some p ↦ elim c.crtc [
        | none ↦ record s { flow = fault }
        | some crtc ↦ use_line c.type layers p crtc c.source_layers s
      ]
    ]

    -- The next round starts after `continue` or at the end of the body.
    unfoldable pub plane_lines : List DrmHwcLayer → List DrmCompositionPlane → Line → Line
    unfolding plane_line
    plane_lines layers [] s = s
    plane_lines layers (c ∷ cs) s =
        let t = plane_line layers c s in
        let rest = plane_lines layers cs (record t { flow = go }) in
        elim t.flow [ go ↦ rest | continued ↦ rest | broke ↦ t | fault ↦ t ]
