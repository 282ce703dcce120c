-- ===== src/Windows/Changes.antt =====
-- The view commands of src/state.rs reach the client: the change is in the state that its window is set to,
-- and that state was sent.
use ihs_wl_server.Prelude.{ℕ, Bool, true, false, Option, some, if◌then◌else◌}
use ihs_wl_server.Windows.{Look, Windows, size_eq}
use ihs_wl_server.Windows.Histories.{Op, resizes, grants, handles, asks_size}

-- What the app or the shell says of a view.
pub data Change : Type 0 where
  size : ℕ × ℕ → Change
  state capabilities : ℕ → Change
  request : Option (ℕ × ℕ) → Change

abbrev pub op : ℕ → Change → Op
op v (size s) = resizes v s
op v (state s) = grants v s
op v (capabilities c) = handles v c
op v (request s) = asks_size v s

abbrev pub changed : Change → Look → Look
changed (size s) l = record l { size = some s }
changed (state s) l = record l { window_state = s }
changed (capabilities c) l = record l { capabilities = c }
changed (request s) l = record l { requested = s }

-- A size that was asked for already is no news.
abbrev pub is_new : Change → Look → Bool
is_new (request s) l = if size_eq l.requested s then false else true
is_new _ l = true
