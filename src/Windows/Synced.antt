-- ===== src/Windows/Synced.antt =====
-- The states that sync_states of src/state.rs sets.
use ihs_wl_server.Prelude.{ℕ, ◌≡◌, Bool, true, List, some, lookup, contains, arith}
use ihs_wl_server.Binding.{View, Server}
use ihs_wl_server.Binding.Requests.{bound_view_of}
use ihs_wl_server.Dialogs.{Sizes, states_of}
use ihs_wl_server.Windows.{activated, suspended, Pending, Surface, Windows, send_configure, refresh}

pub refresh-pending : (f : Pending → Pending) (s : Surface) → (refresh f s).pending ≡ f s.pending
unfolding refresh send_configure
refresh-pending f s = ground arith

-- The pending state has these two states as given.
abbrev pub HasStates : Bool × Bool → Surface → Type 0
HasStates (active, hidden) s =
    (contains s.pending.states activated ≡ active) × (contains s.pending.states suspended ≡ hidden)

module _ (sizes : Sizes) (sv : Server) where
  abbrev Synced : ℕ → List (ℕ × Surface) → Type 0
  Synced t m = (s : Surface) × (lookup t m ≡ some s) × HasStates (states_of sizes t sv) s

-- The view that shows the toplevel, or the toplevel that it is a dialog of, is out of the scene.
abbrev pub IsHidden : ℕ → Server → Type 0
IsHidden t sv =
    (v : ℕ) × (e : View) × (bound_view_of t sv ≡ some v)
    × (lookup v sv.views ≡ some e)
    × (e.suspended ≡ true)
