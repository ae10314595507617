-- ===== src/Handles/Owner.antt =====
-- The owners of autofd.h and drmhwcomposer.h have the same operations: what they have in common, and the
-- three of them.
pub mod Balanced
use platform_external_drm_hw.Base.{
  ℕ, ℤ, nonzero, Bool, true, false, Option, List, [], ◌∷◌, ◌++◌, if◌then◌else◌,
}
use platform_external_drm_hw.Layer.{DrmBo}
use platform_external_drm_hw.Handles.{
  UniqueFd, close_if_open, fd_release, fd_set, fd_close, fd_move, fd_destroy, DrmHwcBuffer,
  released_by, clear_buffer, buffer_import, buffer_move, buffer_moved, freed, copy_buffer_handle,
  clear_handle_copy, handle_move, handle_moved,
}

-- An owner `S` of resources `R`. What it takes is the answer `Q` of a call that makes one or fails; an
-- operation gives back the resources that it gives up, and the owner after it.
pub record Owner (S R Q : Type 0) : Type 0 where
  pub holds : S → List R
  pub came : Q → List R
  pub take : Q → S → List R × S
  -- The move assignment: left side and right side.
  pub move : S → S → List R × S × S
  pub clear : S → List R × S
  pub destroy : S → List R
  -- The owner gives its resource to somebody else: to the caller, or to a new owner that is made of it.
  pub give : S → List R × S

unfoldable pub fds : Owner UniqueFd ℤ ℤ
unfolding fd_release fd_set fd_close fd_move fd_destroy
fds = record {
  holds = λ u. close_if_open u.fd;
  came = close_if_open;
  take = fd_set;
  move = fd_move;
  clear = fd_close;
  destroy = fd_destroy;
  give = λ u. (close_if_open (fd_release u).0, (fd_release u).1);
}

-- The resource is the buffer object with its importer.
unfoldable pub buffers : Owner DrmHwcBuffer (ℕ × DrmBo) (ℕ × (ℤ × DrmBo))
unfolding buffer_import buffer_move buffer_moved clear_buffer
buffers = record {
  holds = λ b. released_by b.importer b.bo;
  came = λ q. if nonzero q.1.0 then [] else (q.0, q.1.1) ∷ [];
  take = λ q b. ((buffer_import q.0 q.1 b).1, (buffer_import q.0 q.1 b).2);
  move = buffer_move;
  clear = clear_buffer;
  destroy = λ b. (clear_buffer b).0;
  give = λ b. (released_by b.importer b.bo, (buffer_moved b).1);
}

unfoldable pub handles : Owner (Option ℕ) ℕ (ℤ × ℕ)
unfolding copy_buffer_handle handle_move handle_moved clear_handle_copy
handles = record {
  holds = freed;
  came = λ q. if nonzero q.0 then [] else q.1 ∷ [];
  take = λ q h. ((copy_buffer_handle q h).1, (copy_buffer_handle q h).2);
  move = handle_move;
  clear = clear_handle_copy;
  destroy = λ h. (clear_handle_copy h).0;
  give = λ h. (freed (handle_moved h).0, (handle_moved h).1);
}

-- The classes, what they own, and the answers that they take.
pub data OwnerClass : Type 0 where
  unique_fd hwc_buffer native_handle : OwnerClass

abbrev pub OwnerOf : OwnerClass → Type 0
OwnerOf unique_fd = UniqueFd
OwnerOf hwc_buffer = DrmHwcBuffer
OwnerOf native_handle = Option ℕ

abbrev pub ResourceOf : OwnerClass → Type 0
ResourceOf unique_fd = ℤ
ResourceOf hwc_buffer = ℕ × DrmBo
ResourceOf native_handle = ℕ

abbrev pub AnswerOf : OwnerClass → Type 0
AnswerOf unique_fd = ℤ
AnswerOf hwc_buffer = ℕ × (ℤ × DrmBo)
AnswerOf native_handle = ℤ × ℕ

unfoldable pub owner_of : (k : OwnerClass) → Owner (OwnerOf k) (ResourceOf k) (AnswerOf k)
unfolding fds buffers handles
owner_of unique_fd = fds
owner_of hwc_buffer = buffers
owner_of native_handle = handles

-- Two owners, and the calls of the one on the left (`true`) or on the right.
pub record Pair (S : Type 0) : Type 0 where
  pub left : S
  pub right : S

pub data OwnerCall (Q : Type 0) : Type 0 where
  takes : Bool → Q → OwnerCall Q
  moves : Bool → OwnerCall Q
  clears : Bool → OwnerCall Q
  gives : Bool → OwnerCall Q

-- What a call hands out, what it gives up, and the owners after it.
pub record Outcome (S R : Type 0) : Type 0 where
  pub out : List R
  pub up : List R
  pub owners : Pair S

module _ {S R Q : Type 0} (o : Owner S R Q) where
  unfoldable pub owner_step : OwnerCall Q → Pair S → Outcome S R
  owner_step (takes true q) s =
      let (up, l) = o.take q s.left in
      record { out = []; up = up; owners = record { left = l; right = s.right } }
  owner_step (takes false q) s =
      let (up, r) = o.take q s.right in
      record { out = []; up = up; owners = record { left = s.left; right = r } }
  owner_step (moves true) s =
      let (up, l, r) = o.move s.left s.right in
      record { out = []; up = up; owners = record { left = l; right = r } }
  owner_step (moves false) s =
      let (up, r, l) = o.move s.right s.left in
      record { out = []; up = up; owners = record { left = l; right = r } }
  owner_step (clears true) s =
      let (up, l) = o.clear s.left in
      record { out = []; up = up; owners = record { left = l; right = s.right } }
  owner_step (clears false) s =
      let (up, r) = o.clear s.right in
      record { out = []; up = up; owners = record { left = s.left; right = r } }
  owner_step (gives true) s =
      let (out, l) = o.give s.left in
      record { out = out; up = []; owners = record { left = l; right = s.right } }
  owner_step (gives false) s =
      let (out, r) = o.give s.right in
      record { out = out; up = []; owners = record { left = s.left; right = r } }

  -- The calls in a row, and then the destructors: what is handed out, and what is given up.
  unfoldable pub owner_life : List (OwnerCall Q) → Pair S → List R × List R
  unfolding owner_step
  owner_life [] s = ([], o.destroy s.right ++ o.destroy s.left)
  owner_life (c ∷ cs) s =
      let r = owner_step c s in let (out, up) = owner_life cs r.owners in (r.out ++ out, r.up ++ up)

  -- What the calls bring in.
  abbrev pub brought_by : OwnerCall Q → List R
  brought_by (takes side q) = o.came q
  brought_by c = []

  abbrev pub brought : List (OwnerCall Q) → List R
  brought [] = []
  brought (c ∷ cs) = brought_by c ++ brought cs
