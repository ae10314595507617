-- ===== src/Composition/Coverage.antt =====
-- What `Plan` and the loops behind it do with the planes of a display.
use platform_external_drm_hw.Base.{
  ℕ, ◌+◌, ◌-◌, ◌≤◌, Bool, true, false, Option, none, some, List, [], ◌∷◌, ◌++◌, ◌==◌, ◌≡◌, refl,
  ◌&&◌, not, if◌then◌else◌, All, keep, count_if, count_if-append, count_if-keep-le, count_if-and,
  count_if-and_zero, arith, ◌∙◌, sym, All-imp, ok,
}
use mathlib.Core.List.{append_assoc, append-nil}
use platform_external_drm_hw.Drm.Plane.{DrmPlane, type_primary, get_crtc_supported}
use platform_external_drm_hw.Planner.{DrmCompositionPlane, provision_planes, get_usable_planes}
use platform_external_drm_hw.Planner.Counts.{
  used_planes, used_planes-append, count-provision_planes-le,
}
use platform_external_drm_hw.Composition.{
  DrmDisplayComposition, Pools, erase_plane, take_from, take_planes, add_plane_disable,
  disable_planes, indexed, frame, Planned, plan,
}

abbrev pub has_id : ℕ → DrmPlane → Bool
has_id k p = p.id == k

abbrev pub is_primary : DrmPlane → Bool
is_primary p = p.type == type_primary

abbrev pub is_overlay : DrmPlane → Bool
is_overlay p = not (p.type == type_primary)

-- The pools of `HwcDisplay::Init` and `FlattenOnDisplay`: the primary planes, and others.
pub record AreSplit (pools : Pools) : Type 0 where
  pub primaries : All (λ p. is_primary p ≡ true) pools.primary
  pub overlays : All (λ p. is_primary p ≡ false) pools.overlay

count-erase_plane :
    (k id : ℕ) (ps : List DrmPlane)
    → count_if (has_id k) (erase_plane id ps) ≡ count_if (has_id k) ps - (if id == k then 1 else 0)
unfolding erase_plane
count-erase_plane k id [] = ground arith
count-erase_plane k id (p ∷ ps) = ground (arith, count-erase_plane k id ps)

abbrev pub listed : Option DrmPlane → List DrmPlane
listed none = []
listed (some p) = p ∷ []

count-used_cons :
    (t : DrmPlane → Bool) (c : DrmCompositionPlane) (cs : List DrmCompositionPlane)
    → count_if t (used_planes (c ∷ cs)) ≡ count_if t (listed c.plane) + count_if t (used_planes cs)
count-used_cons t c cs = ground arith

abbrev primary_id : ℕ → DrmPlane → Bool
primary_id k p = is_primary p && has_id k p

abbrev overlay_id : ℕ → DrmPlane → Bool
overlay_id k p = is_overlay p && has_id k p

count-take_from :
    (k : ℕ) (o : Option DrmPlane) (pools : Pools)
    → (count_if (has_id k) (take_from o pools).primary
        ≡ count_if (has_id k) pools.primary - count_if (primary_id k) (listed o))
      × (count_if (has_id k) (take_from o pools).overlay
          ≡ count_if (has_id k) pools.overlay - count_if (overlay_id k) (listed o))
unfolding take_from
count-take_from k none pools = (omega arith, omega arith)
count-take_from k (some p) pools =
    ground (arith, count-erase_plane k p.id pools.primary, count-erase_plane k p.id pools.overlay)

-- Each pool loses the planes of its kind that the plan names.
count-take_planes :
    (k : ℕ) (cs : List DrmCompositionPlane) (pools : Pools)
    → (count_if (has_id k) (take_planes cs pools).1.primary
        ≡ count_if (has_id k) pools.primary - count_if (primary_id k) (used_planes cs))
      × (count_if (has_id k) (take_planes cs pools).1.overlay
          ≡ count_if (has_id k) pools.overlay - count_if (overlay_id k) (used_planes cs))
unfolding take_planes
count-take_planes k [] pools = (omega arith, omega arith)
count-take_planes k (c ∷ cs) pools =
    let (primaries, overlays) = count-take_planes k cs (take_from c.plane pools) in
    let (primary_loss, overlay_loss) = count-take_from k c.plane pools in
    (
      omega (arith, count-used_cons (primary_id k) c cs),
      omega (arith, count-used_cons (overlay_id k) c cs),
    )

used-take_planes :
    (cs : List DrmCompositionPlane) (pools : Pools)
    → used_planes (take_planes cs pools).0 ≡ used_planes cs
unfolding take_planes
used-take_planes [] pools = refl
used-take_planes (c ∷ cs) pools = ground (arith, used-take_planes cs (take_from c.plane pools))

used-disable_planes :
    (c : DrmDisplayComposition) (ps : List DrmPlane)
    → used_planes (disable_planes c ps).composition_planes ≡ used_planes c.composition_planes ++ ps
unfolding disable_planes
used-disable_planes c [] = sym (append-nil _)
used-disable_planes c (p ∷ ps) =
    used-disable_planes (add_plane_disable c p) ps
    ∙ rw (add_plane_disable, used_planes-append c.composition_planes)
        (append_assoc (used_planes c.composition_planes) (p ∷ []) ps)

count-by_kind :
    (k : ℕ) (ps : List DrmPlane)
    → count_if (has_id k) ps ≡ count_if (primary_id k) ps + count_if (overlay_id k) ps
count-by_kind k [] = omega arith
count-by_kind k (p ∷ ps) = ground (arith, count-by_kind k ps)

abbrev plan_of : DrmDisplayComposition → Pools → List DrmCompositionPlane
plan_of c pools =
    (provision_planes c.planner (indexed 0 c.layers) c.crtc pools.primary pools.overlay).1

module _ (c : DrmDisplayComposition) (pools : Pools) (split : AreSplit pools) (k : ℕ) where
  planned_primaries :
      count_if (primary_id k) (used_planes (plan_of c pools)) ≤ count_if (has_id k) pools.primary
  unfolding get_usable_planes
  planned_primaries = omega (
    arith,
    count-provision_planes-le (primary_id k) c.planner (indexed 0 c.layers) c.crtc pools.primary
        pools.overlay,
    count_if-append (primary_id k) (keep (λ p. get_crtc_supported p c.crtc) pools.primary)
        (keep (λ p. get_crtc_supported p c.crtc) pools.overlay),
    count_if-keep-le (primary_id k) (λ p. get_crtc_supported p c.crtc) pools.primary,
    count_if-keep-le (primary_id k) (λ p. get_crtc_supported p c.crtc) pools.overlay,
    count_if-and (has_id k) is_primary pools.primary split.primaries,
    count_if-and_zero (has_id k) is_primary pools.overlay split.overlays,
  )

  planned_overlays :
      count_if (overlay_id k) (used_planes (plan_of c pools)) ≤ count_if (has_id k) pools.overlay
  unfolding get_usable_planes
  planned_overlays = omega (
    arith,
    count-provision_planes-le (overlay_id k) c.planner (indexed 0 c.layers) c.crtc pools.primary
        pools.overlay,
    count_if-append (overlay_id k) (keep (λ p. get_crtc_supported p c.crtc) pools.primary)
        (keep (λ p. get_crtc_supported p c.crtc) pools.overlay),
    count_if-keep-le (overlay_id k) (λ p. get_crtc_supported p c.crtc) pools.primary,
    count_if-keep-le (overlay_id k) (λ p. get_crtc_supported p c.crtc) pools.overlay,
    count_if-and (has_id k) is_overlay pools.overlay (
        All-imp (λ p. is_primary p ≡ false) (λ p. is_overlay p ≡ true) pools.overlay (λ p e. rw e)
          split.overlays),
    count_if-and_zero (has_id k) is_overlay pools.primary (
        All-imp (λ p. is_primary p ≡ true) (λ p. is_overlay p ≡ false) pools.primary (λ p e. rw e)
          split.primaries),
  )

plan_frame :
    (c : DrmDisplayComposition) (pools : Pools)
    → c.type ≡ frame
    → (plan c pools).ret ≡ ok
    → (plan c pools).composition.composition_planes ≡ (take_planes (plan_of c pools) pools).0
      × (plan c pools).pools ≡ (take_planes (plan_of c pools) pools).1
unfolding plan
plan_frame c pools t e = ground arith

-- The composition that a planned frame becomes once the planes left in the pools are disabled.
abbrev pub finished : Planned → DrmDisplayComposition
finished r = disable_planes (disable_planes r.composition r.pools.primary) r.pools.overlay

-- After a successful `Plan` of a frame and the loops that disable what is left, every plane of the two
-- pools stands in the composition, each as often as in the pools: none is forgotten, none is used twice
-- and no other plane is touched. The pools are split into primary planes and others.
pub finished-covers :
    (c : DrmDisplayComposition) (pools : Pools)
    → AreSplit pools
    → c.type ≡ frame
    → (plan c pools).ret ≡ ok
    → (k : ℕ)
    → count_if (has_id k) (used_planes (finished (plan c pools)).composition_planes)
      ≡ count_if (has_id k) pools.primary + count_if (has_id k) pools.overlay
finished-covers c pools split t e k =
    let (planes, left) = plan_frame c pools t e in
    rw (used-disable_planes, used-disable_planes, planes, left, used-take_planes)
      (omega (
        arith,
        count_if-append (has_id k) (used_planes (plan_of c pools))
            (take_planes (plan_of c pools) pools).1.primary,
        count_if-append (has_id k)
            (used_planes (plan_of c pools) ++ (take_planes (plan_of c pools) pools).1.primary)
            (take_planes (plan_of c pools) pools).1.overlay,
        count-take_planes k (plan_of c pools) pools,
        count-by_kind k (used_planes (plan_of c pools)),
        planned_primaries c pools split k,
        planned_overlays c pools split k,
      ))
