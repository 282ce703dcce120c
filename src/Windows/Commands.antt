-- ===== src/Windows/Commands.antt =====
-- The view commands of src/state.rs that change what a window is told, and the window requests of
-- src/handlers/xdg.rs.
use ihs_wl_server.Prelude.{
  ℕ, List, [], ◌∷◌, Option, none, some, if◌then◌else◌, lookup, modify, is_some,
}
use ihs_wl_server.Windows.{
  Surface, Look, Windows, Layout, Effect, send_close, post, has_bit, size_eq, send_configure,
  configure_view, refit_view,
}

abbrev pub change_look : ℕ → (Look → Look) → Windows → Windows
change_look v f st = record st { looks = modify v f st.looks }

unfoldable pub view_resized : Layout → ℕ → ℕ × ℕ → Windows → Windows × List Effect
view_resized lay v size st = elim (lookup v st.looks) [
  | none ↦ (st, [])
  | some l ↦
      let st' = change_look v (λ (l : Look). record l { size = some size }) st in
      (configure_view lay v st', if is_some l.requested then refit_view v st' else [])
]

unfoldable pub view_close : ℕ → Windows → List Effect
view_close v st = elim (lookup v st.server.views) [
  | none ↦ []
  | some e ↦ elim e.toplevel [
    | none ↦ []
    | some t ↦ if is_some (lookup t st.server.toplevels) then send_close t ∷ [] else []
  ]
]

unfoldable pub view_state : Layout → ℕ → ℕ → Windows → Windows
view_state lay v state st = elim (lookup v st.looks) [
  | none ↦ st
  | some l ↦
      configure_view lay v (change_look v (λ (l : Look). record l { window_state = state }) st)
]

unfoldable pub view_capabilities : Layout → ℕ → ℕ → Windows → Windows
view_capabilities lay v capabilities st = elim (lookup v st.looks) [
  | none ↦ st
  | some l ↦
      configure_view lay v
        (change_look v (λ (l : Look). record l { capabilities = capabilities }) st)
]

unfoldable pub view_request_size : Layout → ℕ → Option (ℕ × ℕ) → Windows → Windows × List Effect
view_request_size lay v size st = elim (lookup v st.looks) [
  | none ↦ (st, [])
  | some l ↦
      let st' = change_look v (λ (l : Look). record l { requested = size }) st in
      if size_eq l.requested size then (st, []) else (configure_view lay v st', refit_view v st')
]

-- The window requests, with the capability that each needs and its event's number.
pub data Request : Type 0 where
  maximize unmaximize minimize request_fullscreen unfullscreen : Request

unfoldable pub capability_of : Request → ℕ
capability_of maximize = 1
capability_of unmaximize = 1
capability_of minimize = 2
capability_of request_fullscreen = 4
capability_of unfullscreen = 4

unfoldable pub event_of : Request → ℕ
event_of maximize = 3
event_of unmaximize = 4
event_of minimize = 5
event_of request_fullscreen = 6
event_of unfullscreen = 7

unfoldable pub view_handling : ℕ → (capability : ℕ) → Windows → Option ℕ
view_handling t capability st = elim (lookup t st.server.toplevels) [
  | none ↦ none
  | some e ↦ elim e.view [
    | none ↦ none
    | some v ↦ elim (lookup v st.looks) [
      | none ↦ none
      | some l ↦ if has_bit l.capabilities capability then some v else none
    ]
  ]
]

unfoldable pub post_request : ℕ → Request → Windows → List Effect
post_request t r st = elim (view_handling t (capability_of r) st) [
  | none ↦ []
  | some v ↦ post (event_of r) v ∷ []
]

abbrev pub answer : Surface → Surface
answer s = if s.configured then send_configure s else s

-- All but a minimize are answered by a configure.
unfoldable pub window_request : ℕ → Request → Windows → Windows × List Effect
window_request t minimize st = (st, post_request t minimize st)
window_request t r st = (record st { surfaces = modify t answer st.surfaces }, post_request t r st)

abbrev pub first_configure : Surface → Surface
first_configure s = if s.configured then s else send_configure s

-- The first commit's configure: `toplevel_commit`.
unfoldable pub initial_configure : ℕ → Windows → Windows
initial_configure t st = record st { surfaces = modify t first_configure st.surfaces }
