-- ===== src/Handles/Owner/Balanced.antt =====
-- Every resource leaves its owners as often as it came to them.
use platform_external_drm_hw.Base.{
  ℕ, ◌+◌, ℤ, Bool, true, false, List, [], ◌∷◌, ◌≡◌, arith, count_if, count_if-append,
}
use platform_external_drm_hw.Layer.{DrmBo}
use platform_external_drm_hw.Handles.{buffer_import, copy_buffer_handle}
use platform_external_drm_hw.Handles.Owner.{
  Owner, OwnerClass, OwnerOf, ResourceOf, AnswerOf, owner_of, unique_fd, hwc_buffer, native_handle,
  fds, buffers, handles, Pair, OwnerCall, takes, moves, clears, gives, owner_step, owner_life,
  brought, brought_by,
}

-- The laws, for the resources that a test finds.
pub record IsOwner {S R Q : Type 0} (o : Owner S R Q) (p : R → Bool) : Type 0 where
  pub taken :
      (q : Q) (s : S)
      → count_if p (o.take q s).0 + count_if p (o.holds (o.take q s).1)
        ≡ count_if p (o.came q) + count_if p (o.holds s)
  pub moved :
      (l r : S)
      → count_if p (o.move l r).0
          + (count_if p (o.holds (o.move l r).1) + count_if p (o.holds (o.move l r).2))
        ≡ count_if p (o.holds l) + count_if p (o.holds r)
  pub cleared :
      (s : S)
      → count_if p (o.clear s).0 + count_if p (o.holds (o.clear s).1) ≡ count_if p (o.holds s)
  pub destroyed : (s : S) → count_if p (o.destroy s) ≡ count_if p (o.holds s)
  pub given :
      (s : S) → count_if p (o.give s).0 + count_if p (o.holds (o.give s).1) ≡ count_if p (o.holds s)

module _ {S R Q : Type 0} (o : Owner S R Q) (p : R → Bool) where
  abbrev pub held : Pair S → ℕ
  held s = count_if p (o.holds s.left) + count_if p (o.holds s.right)

  owner_step-balanced :
      (c : OwnerCall Q) (s : Pair S)
      → IsOwner o p
      → count_if p (owner_step o c s).out
          + (count_if p (owner_step o c s).up + held (owner_step o c s).owners)
        ≡ count_if p (brought_by o c) + held s
  unfolding owner_step
  owner_step-balanced (takes true q) s laws = omega (arith, laws.taken q s.left)
  owner_step-balanced (takes false q) s laws = omega (arith, laws.taken q s.right)
  owner_step-balanced (moves true) s laws = omega (arith, laws.moved s.left s.right)
  owner_step-balanced (moves false) s laws = omega (arith, laws.moved s.right s.left)
  owner_step-balanced (clears true) s laws = omega (arith, laws.cleared s.left)
  owner_step-balanced (clears false) s laws = omega (arith, laws.cleared s.right)
  owner_step-balanced (gives true) s laws = omega (arith, laws.given s.left)
  owner_step-balanced (gives false) s laws = omega (arith, laws.given s.right)

  -- Over any calls and the destructors.
  owner_life-balanced :
      (cs : List (OwnerCall Q)) (s : Pair S)
      → IsOwner o p
      → count_if p (owner_life o cs s).0 + count_if p (owner_life o cs s).1
        ≡ count_if p (brought o cs) + held s
  unfolding owner_life
  owner_life-balanced [] s laws = omega (
    arith,
    count_if-append p (o.destroy s.right) (o.destroy s.left),
    laws.destroyed s.left,
    laws.destroyed s.right,
  )
  owner_life-balanced (c ∷ cs) s laws =
      let r = owner_step o c s in
      omega (
        arith,
        owner_step-balanced c s laws,
        owner_life-balanced cs r.owners laws,
        count_if-append p r.out (owner_life o cs r.owners).0,
        count_if-append p r.up (owner_life o cs r.owners).1,
        count_if-append p (brought_by o c) (brought o cs),
      )

fds-IsOwner : (p : ℤ → Bool) → IsOwner fds p
unfolding fds
fds-IsOwner p = record {
  taken = λ q s. omega arith;
  moved = λ l r. omega arith;
  cleared = λ s. omega arith;
  destroyed = λ s. omega arith;
  given = λ s. omega arith;
}

buffers-IsOwner : (p : ℕ × DrmBo → Bool) → IsOwner buffers p
unfolding buffers buffer_import
buffers-IsOwner p = record {
  taken = λ q s. ground arith;
  moved = λ l r. omega arith;
  cleared = λ s. omega arith;
  destroyed = λ s. omega arith;
  given = λ s. omega arith;
}

handles-IsOwner : (p : ℕ → Bool) → IsOwner handles p
unfolding handles copy_buffer_handle
handles-IsOwner p = record {
  taken = λ q s. ground arith;
  moved = λ l r. omega arith;
  cleared = λ s. omega arith;
  destroyed = λ s. omega arith;
  given = λ s. omega arith;
}

owner_of-IsOwner : (k : OwnerClass) (p : ResourceOf k → Bool) → IsOwner (owner_of k) p
unfolding owner_of
owner_of-IsOwner unique_fd p = fds-IsOwner p
owner_of-IsOwner hwc_buffer p = buffers-IsOwner p
owner_of-IsOwner native_handle p = handles-IsOwner p

-- Of two UniqueFd, two DrmHwcBuffer or two DrmHwcNativeHandle, any calls and moves between them, and then the destructors, hand out or give up each resource as often as it came in or was held before.
pub owners-balanced :
    (k : OwnerClass) (p : ResourceOf k → Bool) (cs : List (OwnerCall (AnswerOf k)))
    (s : Pair (OwnerOf k))
    → count_if p (owner_life (owner_of k) cs s).0 + count_if p (owner_life (owner_of k) cs s).1
      ≡ count_if p (brought (owner_of k) cs)
        + (count_if p ((owner_of k).holds s.left) + count_if p ((owner_of k).holds s.right))
owners-balanced k p cs s = owner_life-balanced (owner_of k) p cs s (owner_of-IsOwner k p)
