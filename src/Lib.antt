-- ===== src/Lib.antt =====
-- ihs_wl_server: a Wayland server that runs inside a Flutter shell. A compositor thread accepts
-- clients; each of the app's platform views shows one client toplevel, whose surfaces are handed to
-- the shell as layers of dma-bufs; the shell reports what was shown, and the reports answer the
-- clients. The modules here model the server's own logic, one for each part, and prove what the parts
-- promise each other. Paths are from the repository's root.
--
-- The parts, and how they meet:
--   Lifecycle   src/thread.rs: start, stop, send, bind_socket. The app reaches the compositor thread
--               by its channel only.
--   Abi         src/lib.rs: the C entry points, which check their arguments and enqueue a command.
--   Params      src/params.rs: a view's creation parameters. Params.Codec is `Reader` and
--               `decode_map`; Params.Values and Params.Roundtrip are about it.
--   Link        src/view.rs: the platform-view factory and callbacks. Link.Threads has the lock that a
--               submit (src/submit.rs) and a dispose share, as the steps of their threads.
--   Scanout     src/scanout.rs and src/handlers/dmabuf.rs: the surfaces that were hinted at a plane's
--               formats, and the feedback that they were told.
--   Binding     src/state.rs (try_bind_view, bind_waiting_views, unbind_view), src/handlers/xdg.rs,
--               src/handlers/activation.rs: which view shows which toplevel. Binding.Requests has the
--               commands and requests that change it; its calls into other parts are `Effect`s.
--   Dialogs     src/dialogs.rs: the windows of a view, and the active one (sync_states in
--               src/state.rs, refresh_keyboard_focus in src/input.rs). It reads Binding's state.
--   Windows     src/state.rs (configure_view, sync_states, the view commands) and src/handlers/xdg.rs
--               (window requests): what each window is told. It reads Binding's state and Dialogs' focus.
--   Submit      src/submit.rs: Submit.Holds is `Holds`, Submit.Planes is `frame_for` and
--               `close_frame`, Submit.Views is `submit_tree` and `clear_view` for one view, and
--               Submit.Scenes the whole of it, with the build of the scene and `retire_key`.
--   Caps        src/caps.rs: the formats that the shell imports, and what else it offers.
--   Tree        src/tree.rs: the buffer transforms (Tree.Orientation), and the surfaces of a view's
--               trees as the layers that the shell draws (Tree.Build), each staged in its ring.
--   Buffers     src/buffers.rs: buffer ids, and the views that a buffer is retired in.
--   Staging     src/staging.rs: the ring of dma-bufs that shared-memory surfaces are copied into,
--               and (Staging.Copy) the copy of the damage, to the byte.
--   Timing      src/timing.rs: Timing.Clock is `FrameClock`, Timing.Taken is `Taken`, and
--               Timing.Frames is `Frame` and `Frames`, one view's submitted frames.
--   Pacing      src/pacing.rs: the clock that releases what the shell does not report; its state has
--               each view's Timing.Frames. Pacing.Clock is `on_tick`.
--   Input       src/input.rs: pointer and touch events, and in Input.Keys the keys and the view that has
--               them. The seat's devices are interfaces (PointerHandle, KeyboardHandle) with laws.
--   Readiness   src/handlers/compositor.rs, and the clients of src/state.rs: commits that wait until
--               their buffer is ready. Readiness.Watched puts the event loop beside the server's state.
--   Prelude     tests, lists, maps and machine words that the parts share.
--   Tests       concrete runs.
--
-- State and operations: a struct is a record, an enum a data type, and an operation a function from the
-- state to the new state, what it told clients or other parts, and what it returns. A HashMap is an
-- association list, and so is the BTreeMap of toplevels, whose ids only grow (IsSorted). Object ids,
-- strings that are only compared, clients, surfaces and fds are numbers. Time is an input of each
-- operation that reads the clock, and so is what the system answers: an fstat, a dup, an event source
-- that is not taken, a failed copy.
--
-- Integers are natural numbers, and i32 coordinates are ℤ of Prelude.Int, whose sums wrap. Where the
-- source wraps or saturates, the model does (the buffer id, the hold key, the vblank arithmetic); what
-- it leaves to overflow checks is bounded by a hypothesis (HasRoom of Timing.Clock.Target, the length
-- bound of Buffers.Ids). A view's frame seqs and the uids of staging slots, u64s that count up by one,
-- are taken not to reach 2^64. Window offsets are not negative, since they are clamped to 0. Loops are
-- structural recursion on their list or count. The only fuel is MAX_DEPTH's, 16 parents, which is the
-- source's own bound.
--
-- Parameters: the commit timers of the protocol library (Timers of Pacing), window sizes, the rounding
-- of a requested size, UTF-8 validity of a configured name, and the bind answers of a socket name are
-- arguments; so are the feedback builder of Scanout, the order in which a surface tree is walked, and in
-- Tree.Build the operations on rectangles of f64. f64 is its bits in Params and its sign and finiteness
-- in Abi.
--
-- Not modelled: the allocators of src/staging.rs, the fit of a client in its view (f64), popups, the
-- cursor, buffer imports (src/gbm_buffer.rs, src/vendor_gbm.rs, src/egl_display.rs),
-- the rest of src/handlers, logging and the bindings: for the most part I/O, driver calls and float
-- arithmetic.
pub mod Prelude
pub mod Timing
pub mod Buffers
pub mod Tree
pub mod Staging
pub mod Submit
pub mod Binding
pub mod Dialogs
pub mod Pacing
pub mod Params
pub mod Lifecycle
pub mod Abi
pub mod Caps
pub mod Readiness
pub mod Input
pub mod Windows
pub mod Link
pub mod Scanout
pub mod Tests
