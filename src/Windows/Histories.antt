-- ===== src/Windows/Histories.antt =====
-- What the clients of src/state.rs know of their windows, over any history.
use ihs_wl_server.Prelude.{ℕ, refl, false, List, [], ◌∷◌, Option, none, All, inl}
use ihs_wl_server.Binding.{Server}
use ihs_wl_server.Windows.{Surface, Look, Windows, Layout, configure_view, sync_states, sizes_of}
use ihs_wl_server.Windows.Commands.{
  view_resized, view_state, view_capabilities, view_request_size, answer, Request, maximize,
  unmaximize, minimize, request_fullscreen, unfullscreen, window_request, initial_configure,
  first_configure,
}
use ihs_wl_server.Windows.Told.{
  IsTold, All-modify, configure_view-IsTold, sync_each-IsTold, answer-IsTold, Configures-IsTold,
  first_configure-IsTold, view_resized-Configures, view_state-Configures,
  view_capabilities-Configures, view_request_size-Configures,
}

-- What happens to the windows. The server binds and unbinds them as it likes.
pub data Op : Type 0 where
  resizes : (view : ℕ) → ℕ × ℕ → Op
  grants : (view state : ℕ) → Op
  handles : (view capabilities : ℕ) → Op
  asks_size : (view : ℕ) → Option (ℕ × ℕ) → Op
  configures : (view : ℕ) → Op
  syncs : Op
  requests : (toplevel : ℕ) → Request → Op
  commits : (toplevel : ℕ) → Op
  rebinds : Server → List (ℕ × Look) → Op
  adds : (toplevel version : ℕ) → Op

abbrev pub new_surface : ℕ → Surface
new_surface version = record {
  version = version;
  configured = false;
  pending = record { size = none; states = []; capabilities = [] };
  told = none;
}

unfoldable pub step : Layout → Op → Windows → Windows
step lay (resizes v size) st = (view_resized lay v size st).0
step lay (grants v state) st = view_state lay v state st
step lay (handles v c) st = view_capabilities lay v c st
step lay (asks_size v size) st = (view_request_size lay v size st).0
step lay (configures v) st = configure_view lay v st
step lay syncs st = sync_states lay st
step lay (requests t r) st = (window_request t r st).0
step lay (commits t) st = initial_configure t st
step lay (rebinds s looks) st = record st { server = s; looks = looks }
step lay (adds t version) st = record st { surfaces = (t, new_surface version) ∷ st.surfaces }

unfoldable pub run : Layout → List Op → Windows → Windows
run lay [] st = st
run lay (o ∷ os) st = run lay os (step lay o st)

pub step-IsTold :
    (lay : Layout) (o : Op) (st : Windows)
    → All IsTold st.surfaces
    → All IsTold (step lay o st).surfaces
unfolding step sync_states window_request initial_configure
step-IsTold lay (resizes v size) st h =
    Configures-IsTold lay st (view_resized lay v size st).0 (view_resized-Configures lay v st size)
      h
step-IsTold lay (grants v state) st h =
    Configures-IsTold lay st (view_state lay v state st) (view_state-Configures lay v st state) h
step-IsTold lay (handles v c) st h =
    Configures-IsTold lay st (view_capabilities lay v c st)
      (view_capabilities-Configures lay v st c) h
step-IsTold lay (asks_size v size) st h =
    Configures-IsTold lay st (view_request_size lay v size st).0
      (view_request_size-Configures lay v st size) h
step-IsTold lay (configures v) st h = configure_view-IsTold lay v st h
step-IsTold lay syncs st h =
    sync_each-IsTold (sizes_of lay st) st.server st.server.toplevels st.surfaces h
step-IsTold lay (requests t minimize) st h = h
step-IsTold lay (requests t maximize) st h = All-modify t answer st.surfaces answer-IsTold h
step-IsTold lay (requests t unmaximize) st h = All-modify t answer st.surfaces answer-IsTold h
step-IsTold lay (requests t request_fullscreen) st h =
    All-modify t answer st.surfaces answer-IsTold h
step-IsTold lay (requests t unfullscreen) st h = All-modify t answer st.surfaces answer-IsTold h
step-IsTold lay (commits t) st h = All-modify t first_configure st.surfaces first_configure-IsTold h
step-IsTold lay (rebinds s looks) st h = h
step-IsTold lay (adds t version) st h = (inl refl, h)

-- Over any history, what is pending was sent.
pub run-IsTold :
    (lay : Layout) (os : List Op) (st : Windows)
    → All IsTold st.surfaces
    → All IsTold (run lay os st).surfaces
unfolding run
run-IsTold lay [] st h = h
run-IsTold lay (o ∷ os) st h = run-IsTold lay os (step lay o st) (step-IsTold lay o st h)
