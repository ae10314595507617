-- ===== src/Drm/Device/Binding.antt =====
-- Binding a connector takes no CRTC from another display.
use mathlib.Core.Option.{some-injective}
use platform_external_drm_hw.Base.{
  nonzero, ℕ, true, false, Option, none, some, List, [], ◌∷◌, ◌≡◌, refl, ◌≢◌, ◌==◌, arith, find_if,
  Bool-cases, inl, inr, ◌∙◌, subst, ap, sym,
}
use platform_external_drm_hw.Drm.Crtc.{DrmCrtc, DrmEncoder, can_bind, same_id}
use platform_external_drm_hw.Drm.Connector.{DrmConnector}
use platform_external_drm_hw.Drm.Device.{
  is_eagain, DrmDevice, crtc_at, set_crtc_display, bind, bindable, try_crtcs,
  try_encoder_for_display, create_display_pipe, try_encoders, try_current, current_bindable,
  bind_current, encoders_at, current_encoder,
}

-- To look up a CRTC after another one has been bound.
look_up-set_crtc_display :
    (i id : ℕ) (display : Option ℕ) (cs : List DrmCrtc)
    → i ≢ id
    → find_if (λ c. c.id == id) (set_crtc_display i display cs) ≡ find_if (λ c. c.id == id) cs
unfolding set_crtc_display
look_up-set_crtc_display i id display [] apart = refl
look_up-set_crtc_display i id display (c ∷ cs) apart =
    grind (arith, apart, look_up-set_crtc_display i id display cs apart)

module _ (id d : ℕ) (e : Option ℕ) (c : DrmCrtc) (shown : c.display ≡ some d)
    (other : some d ≢ e) where
  -- The CRTC, which shows the display `d`, is as it was.
  abbrev IsThere : DrmDevice → Type 0
  IsThere dev = crtc_at dev id ≡ some c

  not_bindable : (dev : DrmDevice) → IsThere dev → bindable dev e (crtc_at dev id) ≡ false
  unfolding bindable can_bind
  not_bindable dev there = grind (arith, there, shown, other)

  bind-IsThere :
      (i enc : ℕ) (dev : DrmDevice)
      → bindable dev e (crtc_at dev i) ≡ true
      → IsThere dev
      → IsThere (bind e i enc dev)
  unfolding bind crtc_at
  bind-IsThere i enc dev free there =
      look_up-set_crtc_display i id e dev.crtcs (λ same.
        grind (
          arith,
          free,
          same,
          not_bindable dev there,
          ap (λ j. bindable dev e (crtc_at dev j)) same,
        ))
      ∙ there

  try_crtcs-IsThere :
      (enc : DrmEncoder) (cs : List ℕ) (dev : DrmDevice)
      → IsThere dev
      → IsThere (try_crtcs e enc cs dev).1
  unfolding try_crtcs
  try_crtcs-IsThere enc [] dev there = there
  try_crtcs-IsThere enc (i ∷ is) dev there =
      let rest = try_crtcs-IsThere enc is dev there in
      elim (Bool-cases (same_id (some i) enc.crtc)) [
        | inl skipped ↦ rw skipped rest
        | inr tried ↦ rw tried (elim (Bool-cases (bindable dev e (crtc_at dev i))) [
          | inl free ↦ rw free (bind-IsThere i enc.id dev free there)
          | inr busy ↦ rw busy rest
        ])
      ]

  current-IsThere :
      (enc : DrmEncoder) (current : Option ℕ) (dev : DrmDevice)
      → current_bindable dev e current ≡ true
      → IsThere dev
      → IsThere (bind_current e enc current dev)
  unfolding bind_current current_bindable
  current-IsThere enc none dev free there = there
  current-IsThere enc (some i) dev free there = bind-IsThere i enc.id dev free there

  try_encoder-IsThere :
      (enc : DrmEncoder) (dev : DrmDevice)
      → IsThere dev
      → IsThere (try_encoder_for_display e enc dev).1
  unfolding try_encoder_for_display
  try_encoder-IsThere enc dev there = elim (Bool-cases (current_bindable dev e enc.crtc)) [
    | inl free ↦ rw free (current-IsThere enc enc.crtc dev free there)
    | inr busy ↦ rw busy (try_crtcs-IsThere enc enc.possible_crtcs dev there)
  ]

  try_encoders-IsThere :
      (conn : DrmConnector) (encs : List DrmEncoder) (dev : DrmDevice)
      → conn.display ≡ e
      → IsThere dev
      → IsThere (try_encoders conn encs dev).1
  unfolding try_encoders crtc_at
  try_encoders-IsThere conn [] dev its there = there
  try_encoders-IsThere conn (enc ∷ encs) dev its there =
      let dev' = (try_encoder_for_display conn.display enc dev).1 in
      let kept : IsThere dev' =
        subst (λ o. IsThere (try_encoder_for_display o enc dev).1) (sym its)
          (try_encoder-IsThere enc dev there) in
      let code = (try_encoder_for_display conn.display enc dev).0 in
      elim (Bool-cases (nonzero code)) [
        | inl refused ↦ rw refused (elim (Bool-cases (is_eagain code)) [
          | inl again ↦ rw again (try_encoders-IsThere conn encs dev' its kept)
          | inr final ↦ rw final kept
        ])
        | inr accepted ↦ rw accepted kept
      ]

  try_current-IsThere :
      (conn : DrmConnector) (enc : Option DrmEncoder) (dev : DrmDevice)
      → conn.display ≡ e
      → IsThere dev
      → IsThere (try_current conn enc dev).1
  unfolding try_current
  try_current-IsThere conn none dev its there = there
  try_current-IsThere conn (some enc) dev its there =
      subst (λ o. IsThere (try_encoder_for_display o enc dev).1) (sym its)
        (try_encoder-IsThere enc dev there)

  pub pipe-IsThere :
      (conn : DrmConnector) (dev : DrmDevice)
      → conn.display ≡ e
      → crtc_at dev id ≡ some c
      → crtc_at (create_display_pipe conn dev).1 id ≡ some c
  unfolding create_display_pipe
  pipe-IsThere conn dev its there =
      let dev' = (try_current conn (current_encoder dev conn) dev).1 in
      let kept = try_current-IsThere conn (current_encoder dev conn) dev its there in
      ground (
        arith,
        kept,
        try_encoders-IsThere conn (encoders_at dev' conn.possible_encoders) dev' its kept,
      )

module _ (id d e : ℕ) (c : DrmCrtc) (shown : c.display ≡ some d) (other : d ≢ e) where
  -- Making the pipe of a connector with one display, whether it succeeds or not, leaves a CRTC that
  -- has another display as it is.
  create_display_pipe-IsThere :
      (conn : DrmConnector) (dev : DrmDevice)
      → conn.display ≡ some e
      → crtc_at dev id ≡ some c
      → crtc_at (create_display_pipe conn dev).1 id ≡ some c
  create_display_pipe-IsThere =
      pipe-IsThere id d (some e) c shown (λ same. other (some-injective d e same))
