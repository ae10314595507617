-- ===== src/Handles.antt =====
-- What owns a resource: autofd.h, autolock.cpp and autolock.h, and the buffers and handles of hwcutils.cpp
-- and drmhwcomposer.h. An operation gives back the new state with what it has given up.
pub mod Owner
use platform_external_drm_hw.Base.{
  ℕ, ℤ, negsuc, nonzero, negative, Bool, true, false, Option, none, some, List, [], ◌∷◌,
  if◌then◌else◌, ok, einval,
}
use platform_external_drm_hw.Layer.{DrmBo}

-- `UniqueFd`: the descriptor, -1 for none.
pub record UniqueFd : Type 0 where
  pub fd : ℤ

abbrev pub no_fd : UniqueFd
no_fd = record { fd = negsuc 0 }

-- `if (fd_ >= 0) close(fd_)`: the descriptors closed.
abbrev pub close_if_open : ℤ → List ℤ
close_if_open fd = if negative fd then [] else fd ∷ []

unfoldable pub fd_release : UniqueFd → ℤ × UniqueFd
fd_release u = (u.fd, no_fd)

unfoldable pub fd_set : ℤ → UniqueFd → List ℤ × UniqueFd
fd_set fd u = (close_if_open u.fd, record { fd = fd })

unfoldable pub fd_close : UniqueFd → List ℤ × UniqueFd
fd_close u = (close_if_open u.fd, no_fd)

-- The move assignment: the descriptors closed, the left side and the right side.
unfoldable pub fd_move : UniqueFd → UniqueFd → List ℤ × UniqueFd × UniqueFd
unfolding fd_release fd_set
fd_move u rhs =
    let (fd, rhs') = fd_release rhs in let (closed, u') = fd_set fd u in (closed, u', rhs')

-- The destructor.
unfoldable pub fd_destroy : UniqueFd → List ℤ
fd_destroy u = close_if_open u.fd

-- `AutoLock`, as whether it holds the mutex; `ret` is the code of the call of pthread.
unfoldable pub auto_lock : ℤ → Bool → ℤ × Bool
auto_lock ret true = (einval, true)
auto_lock ret false = if nonzero ret then (ret, false) else (ok, true)

unfoldable pub auto_unlock : ℤ → Bool → ℤ × Bool
auto_unlock ret false = (einval, false)
auto_unlock ret true = if nonzero ret then (ret, true) else (ok, false)

-- `DrmHwcBuffer`: the buffer object with the number of its importer, if there is one.
pub record DrmHwcBuffer : Type 0 where
  pub bo : DrmBo
  pub importer : Option ℕ

-- The buffer objects that importers are asked to release.
abbrev pub released_by : Option ℕ → DrmBo → List (ℕ × DrmBo)
released_by none bo = []
released_by (some i) bo = (i, bo) ∷ []

unfoldable pub clear_buffer : DrmHwcBuffer → List (ℕ × DrmBo) × DrmHwcBuffer
clear_buffer b = (released_by b.importer b.bo, record b { importer = none })

-- `ImportBuffer`, on the answer of the importer `i`.
unfoldable pub buffer_import : ℕ → ℤ × DrmBo → DrmHwcBuffer → ℤ × List (ℕ × DrmBo) × DrmHwcBuffer
buffer_import i (ret, bo) b =
    if nonzero ret
    then (ret, [], b)
    else (ok, released_by b.importer b.bo, record { bo = bo; importer = some i })

-- The move assignment.
unfoldable pub buffer_move :
    DrmHwcBuffer → DrmHwcBuffer → List (ℕ × DrmBo) × DrmHwcBuffer × DrmHwcBuffer
buffer_move b rhs = (
  released_by b.importer b.bo,
  record { bo = rhs.bo; importer = rhs.importer },
  record rhs { importer = none },
)

-- The move constructor: the new buffer, and what is left of the old one.
unfoldable pub buffer_moved : DrmHwcBuffer → DrmHwcBuffer × DrmHwcBuffer
buffer_moved rhs = (rhs, record rhs { importer = none })

-- `DrmHwcNativeHandle`: the handle, and the handles freed.
abbrev pub freed : Option ℕ → List ℕ
freed none = []
freed (some h) = h ∷ []

-- `CopyBufferHandle`, on the answer of the platform's `importBuffer`.
unfoldable pub copy_buffer_handle : ℤ × ℕ → Option ℕ → ℤ × List ℕ × Option ℕ
copy_buffer_handle (ret, copy) h = if nonzero ret then (ret, [], h) else (ok, freed h, some copy)

unfoldable pub clear_handle_copy : Option ℕ → List ℕ × Option ℕ
clear_handle_copy h = (freed h, none)

-- The move constructor: the new handle, and what is left of the old one.
unfoldable pub handle_moved : Option ℕ → Option ℕ × Option ℕ
handle_moved rhs = (rhs, none)

-- The move assignment: the handles freed, the left side and the right side.
unfoldable pub handle_move : Option ℕ → Option ℕ → List ℕ × Option ℕ × Option ℕ
handle_move h rhs = (freed h, rhs, none)

-- `OutputFd`: the cell that it points to, with the descriptor in it, if it points to one.
pub record OutputFd : Type 0 where
  pub cell : Option ℤ

abbrev pub no_output : OutputFd
no_output = record { cell = none }

-- The move: what is moved to, and what is left behind.
unfoldable pub output_move : OutputFd → OutputFd × OutputFd
output_move rhs = (rhs, no_output)

-- `Set`: the descriptors closed, and the result; `none` where there is no cell to write to.
unfoldable pub output_set : ℤ → OutputFd → Option (List ℤ × ℤ × OutputFd)
output_set fd o = elim o.cell [
  | none ↦ none
  | some old ↦ some (close_if_open old, fd, record { cell = some fd })
]
