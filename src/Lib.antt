-- ===== src/Lib.antt =====
-- A model of drm_hwcomposer, the HWC2 composer of Android on top of Linux KMS. Android hands layers to
-- a display (`DrmHwcTwo::HwcDisplay`), asks it to validate them, that is to say which layers go to a
-- hardware plane and which are drawn by the client, and to present them. The display turns the layers
-- into a composition, a planner lays the layers on planes, and the compositor puts the composition
-- into one atomic request of the kernel, as a test or as a commit.
--
-- The files, and the sources they follow:
--   Drm/Property   drmproperty.cpp: a property of a kernel object.
--   Drm/Mode       drmmode.cpp: a display mode and its kernel form.
--   Drm/Crtc       drmcrtc.cpp and drmencoder.cpp.
--   Drm/Plane      drmplane.cpp, and DrmDevice::GetProperty.
--   Drm/Connector  drmconnector.cpp: types, and the list of modes (Modes).
--   Drm/Objects    the Init of CRTCs and connectors, and the clones of encoders.
--   Drm/Device     drmdevice.cpp: lookups, the numbering of displays (Displays), the binding of
--                  connectors, encoders and CRTCs (Binding), the writeback connectors
--                  (Writeback), and Init (Init).
--   Resources      resourcemanager.cpp: the devices, and which of them has a display.
--   Importers      platformdrmgeneric.cpp, platformminigbm.cpp and the importer of platformhisi.cpp
--                  (Hisi): their start (Start), and the import and the release of buffers.
--   Worker         worker.cpp and worker.h: the thread and its owner as a step relation.
--   Events         drmeventlistener.cpp: the messages of the kernel, and the loop that waits for them.
--   Layer          drmhwcomposer.h and hwcutils.cpp: a layer, its buffer and its transform.
--   Handles        autofd.h, autolock.cpp, and the owners of buffers and handles of hwcutils.cpp and
--                  drmhwcomposer.h, with what they have in common (Owner).
--   Planner        platform.cpp, platform.h and PlanStageHiSi of platformhisi.cpp.
--   Composition    drmdisplaycomposition.cpp, and the dumps (Dump).
--   Kernel         the calls of libdrm, as a record of functions on a world `W`.
--   Compositor     drmdisplaycompositor.cpp: Request is the loop of CommitFrame that fills the request,
--                  Commit the rest of CommitFrame, State the state, Flatten the flattening of a
--                  frame into one buffer, Blobs the mode blobs over the life of a compositor.
--   Framebuffer    drmframebuffer.h: the buffers for that.
--   Vsync          vsyncworker.cpp: the switch, the phase of the synthetic vblank, one run of the
--                  thread (Routine), and its steps between the calls of others (Routine/Thread).
--   Hwc            drmhwctwo.cpp: Layer, Display (CreateComposition), Validate (ValidateDisplay),
--                  Present (layers and PresentDisplay), Config (modes, power, client target), Hooks
--                  (calls about a layer), Device (the device with its displays, callbacks and hotplug),
--                  Queries (the calls that only answer) and Functions (the table of hooks, and runs
--                  of the whole device).
--   Examples       concrete devices and displays.
--
-- A function of the source is a definition with its name in lower case, `CommitFrame` is
-- `commit_frame`. It takes the state it works on and gives it back with the result; error codes are
-- integers (`ok`, `einval`, ...), as the source returns them. Objects of the device refer to one
-- another by id. Maps are lists by rising key. An `int` display of -1 is `none`.
--
-- Every loop of the source runs over a list and is structural recursion, but for two: the search for
-- numbered devices of the resource manager takes fuel, of which the number of the first device that
-- does not open and one more is enough, and the thread of a worker is a step relation. Calls in any
-- order, of one compositor or of the whole device, are lists or relations of steps. Integers
-- keep their wrap-around where the source can reach it: the counters of modes, layers and frames, the
-- 16.16 source coordinates, the sizes of the planes that platformhisi.cpp lays out, and the plane count
-- of ValidateDisplay that goes down from 0.
--
-- libdrm, gralloc, `dup` and `sync_merge`, and the arithmetic on floats are parameters: the records
-- `Kms`, `Importer`, `Os` and `FloatOps`; a law of them is a hypothesis where it is used. But for the
-- threads of Worker and Vsync, locks are left out: each operation runs under the lock of its object.
-- The array for the out fence is a parameter, since CommitFrame reads it unset where no commit filled it.
--
-- Not modelled: `Composite` and other members that nothing defines or calls, the functions that only
-- give out a field, which are the fields of the records, and the tests.
pub mod Base
pub mod Drm
pub mod Layer
pub mod Planner
pub mod Composition
pub mod Kernel
pub mod Vsync
pub mod Handles
pub mod Framebuffer
pub mod Compositor
pub mod Worker
pub mod Importers
pub mod Events
pub mod Resources
pub mod Hwc
mod Examples
