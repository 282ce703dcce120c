-- ===== src/Dialogs.antt =====
-- src/dialogs.rs: the windows of a view, its toplevel and the dialogs over it, and which of them is
-- active and has the keyboard (src/state.rs, src/input.rs). Sizes are what clients committed: inputs.
-- Offsets are not negative, since `clamp` starts at 0, so they are numbers; i32 is not left.
pub mod Active
pub mod Layout
use ihs_wl_server.Prelude.{
  ℕ, ◌+◌, ◌-◌, ◌/◌, min, Bool, true, false, not, ◌&&◌, ◌||◌, List, [], ◌∷◌, ◌++◌, Option, none,
  some, ◌==◌, leb, if◌then◌else◌, lookup, is_some,
}
use ihs_wl_server.Binding.{View, Toplevel, Server, option_eq}
use ihs_wl_server.Binding.Requests.{root_from, max_depth, bound_view_of}

pub record Window : Type 0 where
  pub toplevel : ℕ
  pub x : ℕ
  pub y : ℕ

-- What the windows' sizes are, and the view's client size once it is known.
pub record Sizes : Type 0 where
  pub window : ℕ → ℕ × ℕ
  pub client : ℕ → Option (ℕ × ℕ)

-- `(at + (parent - size) / 2).clamp(0, (bound - size).max(0))`: division goes towards 0.
unfoldable pub centered : (at parent size bound : ℕ) → ℕ
centered at parent size bound =
    min (if leb size parent then at + (parent - size) / 2 else at - (size - parent) / 2)
      (bound - size)

unfoldable pub find_window : ℕ → List Window → Option Window
find_window t [] = none
find_window t (w ∷ ws) = if w.toplevel == t then some w else find_window t ws

unfoldable pub over : Sizes → ℕ × ℕ → Window → ℕ → Window
unfolding centered
over sizes bounds parent t = record {
  toplevel = t;
  x = centered parent.x (sizes.window parent.toplevel).0 (sizes.window t).0 bounds.0;
  y = centered parent.y (sizes.window parent.toplevel).1 (sizes.window t).1 bounds.1;
}

-- One toplevel's turn: a mapped dialog of the view joins the windows, if its parent is among them.
unfoldable pub join :
    Sizes → ℕ × ℕ → ℕ → List (ℕ × Toplevel) → ℕ → Toplevel → List Window → List Window
join sizes bounds root all t e ws = elim e.parent [
  | none ↦ ws
  | some p ↦
      if not e.mapped || not (root_from max_depth t all == root)
      then ws
      else elim (find_window p ws) [ none ↦ ws | some w ↦ ws ++ over sizes bounds w t ∷ [] ]
]

unfoldable pub join_all :
    Sizes → ℕ × ℕ → ℕ → List (ℕ × Toplevel) → List (ℕ × Toplevel) → List Window → List Window
join_all sizes bounds root all [] ws = ws
join_all sizes bounds root all ((t, e) ∷ ts) ws =
    join_all sizes bounds root all ts (join sizes bounds root all t e ws)

-- `view_root`: the toplevel that the view shows, if it is still there.
unfoldable pub view_root : ℕ → Server → Option ℕ
view_root v s = elim (lookup v s.views) [
  | none ↦ none
  | some e ↦ elim e.toplevel [
    | none ↦ none
    | some t ↦ if is_some (lookup t s.toplevels) then some t else none
  ]
]

abbrev pub bounds_of : Sizes → ℕ → ℕ → ℕ × ℕ
bounds_of sizes v root = elim (sizes.client v) [ none ↦ sizes.window root | some b ↦ b ]

abbrev pub windows_from : Sizes → ℕ → Server → Option ℕ → List Window
windows_from sizes v s none = []
windows_from sizes v s (some root) =
    join_all sizes (bounds_of sizes v root) root s.toplevels s.toplevels
      (record { toplevel = root; x = 0; y = 0 } ∷ [])

unfoldable pub view_windows : Sizes → ℕ → Server → List Window
view_windows sizes v s = windows_from sizes v s (view_root v s)

abbrev pub last : List Window → Option ℕ
last [] = none
last (w ∷ []) = some w.toplevel
last (w ∷ u ∷ ws) = last (u ∷ ws)

-- The topmost.
unfoldable pub focus_window : Sizes → ℕ → Server → Option ℕ
focus_window sizes v s = last (view_windows sizes v s)

abbrev pub is_suspended : Option View → Bool
is_suspended none = true
is_suspended (some e) = e.suspended

unfoldable pub view_activated : ℕ → Server → Bool
view_activated v s = option_eq s.focused (some v) && not (is_suspended (lookup v s.views))

-- The states that `sync_states` gives a toplevel: activated, and suspended.
unfoldable pub states_of : Sizes → ℕ → Server → Bool × Bool
states_of sizes t s = elim (bound_view_of t s) [
  | none ↦ (false, false)
  | some v ↦ elim (lookup v s.views) [
    | none ↦ (false, false)
    | some e ↦ (view_activated v s && option_eq (focus_window sizes v s) (some t), e.suspended)
  ]
]

-- Where `refresh_keyboard_focus` points the keyboard.
unfoldable pub keyboard_target : Sizes → Server → Option ℕ
keyboard_target sizes s = elim s.focused [
  | none ↦ none
  | some v ↦ if is_suspended (lookup v s.views) then none else focus_window sizes v s
]
