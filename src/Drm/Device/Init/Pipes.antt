-- ===== src/Drm/Device/Init/Pipes.antt =====
-- The displays of a device that `Init` has opened have a CRTC.
use platform_external_drm_hw.Base.{
  ℕ, true, false, Option, none, some, List, [], ◌∷◌, ◌≡◌, refl, sym, ◌∙◌, ap, subst, ◌==◌, arith,
  find_if, after_done, ◌≤◌, done, check, done-injective, checked, nonzero, Bool-cases, inl, inr,
  count_if, ◌≢◌,
}
use platform_external_drm_hw.Drm.Crtc.{DrmCrtc, DrmEncoder, same_id}
use platform_external_drm_hw.Drm.Connector.{DrmConnector, ConnectorRes}
use platform_external_drm_hw.Drm.Device.{
  is_eagain, DrmDevice, crtc_at, set_crtc_display, bind, bindable, try_crtcs,
  try_encoder_for_display, create_display_pipe, try_encoders, try_current, current_bindable,
  bind_current, encoders_at, current_encoder,
}
use platform_external_drm_hw.Drm.Device.Binding.{pipe-IsThere}
use platform_external_drm_hw.Drm.Device.Displays.{shows}
use platform_external_drm_hw.Drm.Device.Init.Kept.{create_display_pipe-displays}
use platform_external_drm_hw.Drm.Device.Writeback.Kept.{attach_for-crtcs}
use platform_external_drm_hw.Drm.Device.Writeback.{attach_for, crtc_of}
use platform_external_drm_hw.Drm.Device.Init.{make_pipes}

-- Some CRTC shows the display `d`, and is found by its id.
pub record Shown (d : ℕ) (dev : DrmDevice) : Type 0 where
  pub crtc : DrmCrtc
  pub there : crtc_at dev crtc.id ≡ some crtc
  pub shows : crtc.display ≡ some d

-- To look up a CRTC that has just been bound.
look_up-bound :
    (id : ℕ) (display : Option ℕ) (cs : List DrmCrtc) (c : DrmCrtc)
    → find_if (λ c. c.id == id) cs ≡ some c
    → find_if (λ c. c.id == id) (set_crtc_display id display cs)
      ≡ some (record c { display = display })
unfolding set_crtc_display
look_up-bound id display [] c e = grind (arith, e)
look_up-bound id display (x ∷ xs) c e = ground (arith, e, look_up-bound id display xs c)

found_id :
    (id : ℕ) (cs : List DrmCrtc) (c : DrmCrtc) → find_if (λ c. c.id == id) cs ≡ some c → c.id ≡ id
found_id id [] c e = grind (arith, e)
found_id id (x ∷ xs) c e = ground (arith, e, found_id id xs c)

bind-Shown :
    (d i enc : ℕ) (dev : DrmDevice) (o : Option DrmCrtc)
    → crtc_at dev i ≡ o
    → bindable dev (some d) o ≡ true
    → Shown d (bind (some d) i enc dev)
unfolding bind bindable crtc_at
bind-Shown d i enc dev none at free = grind (arith, free)
bind-Shown d i enc dev (some c) at free = record {
  crtc = record c { display = some d };
  there =
      ap (λ j. find_if (λ c. c.id == j) (set_crtc_display i (some d) dev.crtcs))
        (found_id i dev.crtcs c at)
      ∙ look_up-bound i (some d) dev.crtcs c at;
  shows = refl;
}

try_crtcs-Shown :
    (d : ℕ) (enc : DrmEncoder) (cs : List ℕ) (dev : DrmDevice)
    → nonzero (try_crtcs (some d) enc cs dev).0 ≡ false
    → Shown d (try_crtcs (some d) enc cs dev).1
unfolding try_crtcs
try_crtcs-Shown d enc [] dev = λ e. grind (arith, e)
try_crtcs-Shown d enc (i ∷ is) dev = elim (Bool-cases (same_id (some i) enc.crtc)) [
  | inl skipped ↦ rw skipped (try_crtcs-Shown d enc is dev)
  | inr tried ↦ rw tried (elim (Bool-cases (bindable dev (some d) (crtc_at dev i))) [
    | inl free ↦ rw free (λ _. bind-Shown d i enc.id dev (crtc_at dev i) refl free)
    | inr busy ↦ rw busy (try_crtcs-Shown d enc is dev)
  ])
]

current-Shown :
    (d : ℕ) (enc : DrmEncoder) (current : Option ℕ) (dev : DrmDevice)
    → current_bindable dev (some d) current ≡ true
    → Shown d (bind_current (some d) enc current dev)
unfolding bind_current current_bindable
current-Shown d enc none dev free = grind (arith, free)
current-Shown d enc (some i) dev free = bind-Shown d i enc.id dev (crtc_at dev i) refl free

try_encoder-Shown :
    (d : ℕ) (enc : DrmEncoder) (dev : DrmDevice)
    → nonzero (try_encoder_for_display (some d) enc dev).0 ≡ false
    → Shown d (try_encoder_for_display (some d) enc dev).1
unfolding try_encoder_for_display
try_encoder-Shown d enc dev = elim (Bool-cases (current_bindable dev (some d) enc.crtc)) [
  | inl free ↦ rw free (λ _. current-Shown d enc enc.crtc dev free)
  | inr busy ↦ rw busy (try_crtcs-Shown d enc enc.possible_crtcs dev)
]

-- The CRTCs alone matter.
same_crtcs-Shown : (d : ℕ) (a b : DrmDevice) → b.crtcs ≡ a.crtcs → Shown d a → Shown d b
same_crtcs-Shown d a b same s = record {
  crtc = s.crtc;
  there = unfold crtc_at in ap (λ cs. find_if (λ c. c.id == s.crtc.id) cs) same ∙ s.there;
  shows = s.shows;
}

try_encoders-Shown :
    (d : ℕ) (conn : DrmConnector) (encs : List DrmEncoder) (dev : DrmDevice)
    → conn.display ≡ some d
    → nonzero (try_encoders conn encs dev).0 ≡ false
    → Shown d (try_encoders conn encs dev).1
unfolding try_encoders
try_encoders-Shown d conn [] dev its = λ e. grind (arith, e)
try_encoders-Shown d conn (enc ∷ encs) dev its =
    let attempt = try_encoder_for_display conn.display enc dev in
    let shown : nonzero attempt.0 ≡ false → Shown d attempt.1 =
      subst
        (λ o.
          nonzero (try_encoder_for_display o enc dev).0 ≡ false
          → Shown d (try_encoder_for_display o enc dev).1)
        (sym its) (try_encoder-Shown d enc dev) in
    elim (Bool-cases (nonzero attempt.0)) [
      | inl refused ↦ rw refused (elim (Bool-cases (is_eagain attempt.0)) [
        | inl again ↦ rw again (try_encoders-Shown d conn encs attempt.1 its)
        | inr final ↦ rw final (λ e. grind (arith, e, refused))
      ])
      | inr accepted ↦ rw accepted (λ _. same_crtcs-Shown d attempt.1 _ refl (shown accepted))
    ]

try_current-Shown :
    (d : ℕ) (conn : DrmConnector) (enc : Option DrmEncoder) (dev : DrmDevice)
    → conn.display ≡ some d
    → nonzero (try_current conn enc dev).0 ≡ false
    → Shown d (try_current conn enc dev).1
unfolding try_current
try_current-Shown d conn none dev its = λ e. grind (arith, e)
try_current-Shown d conn (some enc) dev its =
    subst
      (λ o.
        nonzero (try_encoder_for_display o enc dev).0 ≡ false
        → Shown d (try_encoder_for_display o enc dev).1)
      (sym its) (try_encoder-Shown d enc dev)

create_display_pipe-Shown :
    (d : ℕ) (conn : DrmConnector) (dev : DrmDevice)
    → conn.display ≡ some d
    → nonzero (create_display_pipe conn dev).0 ≡ false
    → Shown d (create_display_pipe conn dev).1
unfolding create_display_pipe
create_display_pipe-Shown d conn dev its =
    let attempt = try_current conn (current_encoder dev conn) dev in
    elim (Bool-cases (nonzero attempt.0)) [
      | inl refused ↦ rw refused (elim (Bool-cases (is_eagain attempt.0)) [
        | inl again ↦
            rw again (
              try_encoders-Shown d conn (encoders_at attempt.1 conn.possible_encoders) attempt.1
                its)
        | inr final ↦ rw final (λ e. grind (arith, e, refused))
      ])
      | inr accepted ↦
          rw accepted (λ _. try_current-Shown d conn (current_encoder dev conn) dev its accepted)
    ]

same_display : (o : Option ℕ) (d : ℕ) → same_id o (some d) ≡ true → o ≡ some d
same_display none d e = grind (arith, e)
same_display (some a) d e = grind (arith, e)

other_display : (o : Option ℕ) (d : ℕ) → same_id o (some d) ≡ false → some d ≢ o
other_display none d e same = grind (arith, e, same)
other_display (some a) d e same = grind (arith, e, same)

-- A pipe that is made keeps the displays that have a CRTC.
create_display_pipe-keeps :
    (d : ℕ) (conn : DrmConnector) (dev : DrmDevice)
    → nonzero (create_display_pipe conn dev).0 ≡ false
    → Shown d dev
    → Shown d (create_display_pipe conn dev).1
create_display_pipe-keeps d conn dev made s = elim (Bool-cases (same_id conn.display (some d))) [
  | inl its ↦ create_display_pipe-Shown d conn dev (same_display conn.display d its) made
  | inr others ↦ record {
    crtc = s.crtc;
    there =
        pipe-IsThere s.crtc.id d conn.display s.crtc s.shows (other_display conn.display d others)
          conn dev refl s.there;
    shows = s.shows;
  }
]

-- The loop over the connectors: what it has passed stays, and no display gets lost.
make_pipes-keeps :
    (d : ℕ) (modes : ℕ → Option ConnectorRes) (cs : List DrmConnector) (dev out : DrmDevice)
    → make_pipes modes cs dev ≡ done out
    → Shown d dev
    → Shown d out
unfolding make_pipes
make_pipes-keeps d modes [] dev out e s = subst (Shown d) (done-injective dev out e) s
make_pipes-keeps d modes (c ∷ cs) dev out e s =
    after_done (check (create_display_pipe c dev)) _ out e λ piped made rest.
      let m = checked (create_display_pipe c dev) piped made in
      let next = attach_for modes (crtc_of piped c.id) piped in
      let kept : Shown d piped =
        subst (Shown d) (sym m.1) (create_display_pipe-keeps d c dev m.0 s) in
      make_pipes-keeps d modes cs next out rest
        (same_crtcs-Shown d piped next (attach_for-crtcs modes (crtc_of piped c.id) piped).0 kept)

pub make_pipes-displays :
    (modes : ℕ → Option ConnectorRes) (cs : List DrmConnector) (dev out : DrmDevice)
    → make_pipes modes cs dev ≡ done out
    → out.displays ≡ dev.displays
unfolding make_pipes
make_pipes-displays modes [] dev out e = ap (λ x. x.displays) (sym (done-injective dev out e))
make_pipes-displays modes (c ∷ cs) dev out e =
    after_done (check (create_display_pipe c dev)) _ out e λ piped made rest.
      make_pipes-displays modes cs (attach_for modes (crtc_of piped c.id) piped) out rest
      ∙ (attach_for-crtcs modes (crtc_of piped c.id) piped).1
      ∙ ap (λ x. x.displays) (checked (create_display_pipe c dev) piped made).1
      ∙ create_display_pipe-displays c dev

pub make_pipes-Shown :
    (d : ℕ) (modes : ℕ → Option ConnectorRes) (cs : List DrmConnector) (dev out : DrmDevice)
    → make_pipes modes cs dev ≡ done out
    → (1 ≤ count_if (shows d) cs)
    → Shown d out
unfolding make_pipes
make_pipes-Shown d modes [] dev out e some_one = grind arith
make_pipes-Shown d modes (c ∷ cs) dev out e some_one =
    after_done (check (create_display_pipe c dev)) _ out e λ piped made rest.
      let m = checked (create_display_pipe c dev) piped made in
      let next = attach_for modes (crtc_of piped c.id) piped in
      elim (Bool-cases (shows d c)) [
        | inl its ↦ make_pipes-keeps d modes cs next out rest (
            same_crtcs-Shown d piped next (attach_for-crtcs modes (crtc_of piped c.id) piped).0 (
              subst (Shown d) (sym m.1)
                (create_display_pipe-Shown d c dev (same_display c.display d its) m.0)))
        | inr others ↦ make_pipes-Shown d modes cs next out rest (grind arith)
      ]
