-- ===== src/Windows.antt =====
-- What the clients' windows are told: configure_view, sync_states and the view commands of src/state.rs,
-- and the window requests of src/handlers/xdg.rs. A toplevel's pending state is the protocol library's, as
-- the code sets it: the size, the set of states by their xdg_toplevel values, and the capabilities. The
-- rounding of a physical size to a logical one (f64) is given.
pub mod States
pub mod Commands
pub mod Told
pub mod Histories
pub mod Synced
pub mod Configured
pub mod Changes
use ihs_wl_server.Prelude.{
  ℕ, ◌+◌, ◌/◌, ◌%◌, max, Bool, true, false, not, ◌&&◌, ◌||◌, List, [], ◌∷◌, ◌++◌, Option, none,
  some, ◌==◌, leb, if◌then◌else◌, lookup, insert, modify, is_some, contains, retain,
}
use ihs_wl_server.Binding.{View, Toplevel, Server, option_eq}
use ihs_wl_server.Dialogs.{Sizes, focus_window, view_activated, states_of}

abbrev pub maximized : ℕ
maximized = 1

abbrev pub fullscreen : ℕ
fullscreen = 2

abbrev pub activated : ℕ
activated = 4

abbrev pub tiled_left : ℕ
tiled_left = 5

abbrev pub tiled_right : ℕ
tiled_right = 6

abbrev pub tiled_top : ℕ
tiled_top = 7

abbrev pub tiled_bottom : ℕ
tiled_bottom = 8

abbrev pub suspended : ℕ
suspended = 9

pub record Pending : Type 0 where
  pub size : Option (ℕ × ℕ)
  pub states : List ℕ
  pub capabilities : List ℕ

-- A toplevel's surface: its version, whether its initial configure was sent, and what it was last sent.
pub record Surface : Type 0 where
  pub version : ℕ
  pub configured : Bool
  pub pending : Pending
  pub told : Option Pending

-- `ViewEntry`, as far as its size and its window state go.
pub record Look : Type 0 where
  pub size : Option (ℕ × ℕ)
  pub requested : Option (ℕ × ℕ)
  pub capabilities : ℕ
  pub window_state : ℕ
  pub seq : ℕ
  pub cleared : Bool

pub record Windows : Type 0 where
  pub server : Server
  pub looks : List (ℕ × Look)
  pub surfaces : List (ℕ × Surface)

-- The size of each toplevel's window, and a view's size in logical pixels.
pub record Layout : Type 0 where
  pub window : (toplevel : ℕ) → ℕ × ℕ
  pub logical : (view : ℕ) → ℕ × ℕ → ℕ × ℕ

pub data Effect : Type 0 where
  submit_view : (view : ℕ) → Effect
  send_close : (toplevel : ℕ) → Effect
  post : (event view : ℕ) → Effect

abbrev pub client_size_of : Layout → ℕ → Look → Option (ℕ × ℕ)
client_size_of lay v l = elim l.requested [
  | some r ↦ some r
  | none ↦ elim l.size [ none ↦ none | some s ↦ some (lay.logical v s) ]
]

abbrev pub client_size : Layout → Windows → ℕ → Option (ℕ × ℕ)
client_size lay st v = elim (lookup v st.looks) [ none ↦ none | some l ↦ client_size_of lay v l ]

abbrev pub sizes_of : Layout → Windows → Sizes
sizes_of lay st = record { window = lay.window; client = client_size lay st }

unfoldable pub set_state : ℕ → Bool → List ℕ → List ℕ
set_state state true states = if contains states state then states else states ++ state ∷ []
set_state state false states = retain (λ s. not (s == state)) states

abbrev pub has_bit : ℕ → ℕ → Bool
has_bit mask bit = (mask / bit) % 2 == 1

-- Maximize, minimize and fullscreen, by their xdg_toplevel values.
unfoldable pub wm_capabilities : ℕ → List ℕ
wm_capabilities mask =
    (if has_bit mask 1 then 2 ∷ [] else [])
    ++ (if has_bit mask 2 then 4 ∷ [] else [])
    ++ (if has_bit mask 4 then 3 ∷ [] else [])

abbrev pub list_eq : List ℕ → List ℕ → Bool
list_eq [] [] = true
list_eq [] (b ∷ bs) = false
list_eq (a ∷ xs) [] = false
list_eq (a ∷ xs) (b ∷ bs) = a == b && list_eq xs bs

abbrev pub size_eq : Option (ℕ × ℕ) → Option (ℕ × ℕ) → Bool
size_eq none none = true
size_eq none (some b) = false
size_eq (some a) none = false
size_eq (some (w, h)) (some (x, y)) = w == x && h == y

abbrev pub pending_eq : Pending → Pending → Bool
pending_eq p q =
    size_eq p.size q.size && list_eq p.states q.states && list_eq p.capabilities q.capabilities

unfoldable pub send_configure : Surface → Surface
send_configure s = record s { told = some s.pending; configured = true }

-- A change of the pending state is sent, once the initial configure was.
unfoldable pub refresh : (Pending → Pending) → Surface → Surface
unfolding send_configure
refresh f s =
    let changed = record s { pending = f s.pending } in
    if s.configured && not (pending_eq s.pending (f s.pending))
    then send_configure changed
    else changed

-- What `configure_view` asks of the toplevel.
pub record Wanted : Type 0 where
  pub size : ℕ × ℕ
  pub capabilities : ℕ
  pub window_state : ℕ
  pub activated : Bool
  pub suspended : Bool

-- A client older than xdg-shell v2 knows no tiles.
unfoldable pub want : Wanted → (version : ℕ) → Pending → Pending
want w version p =
    let full = has_bit w.window_state 2 in
    let tiled = leb 2 version in
    record {
      size = some (max w.size.0 1, max w.size.1 1);
      capabilities = wm_capabilities w.capabilities;
      states = set_state suspended w.suspended (
          set_state activated w.activated (
            set_state fullscreen full (
              set_state maximized (has_bit w.window_state 1 || (not tiled && not full)) (
                set_state tiled_bottom tiled (
                  set_state tiled_top tiled
                    (set_state tiled_right tiled (set_state tiled_left tiled p.states)))))));
    }

unfoldable pub wanted_of : Layout → Windows → ℕ → View → (toplevel : ℕ) → ℕ × ℕ → Look → Wanted
wanted_of lay st v e t size l = record {
  size = size;
  capabilities = l.capabilities;
  window_state = l.window_state;
  activated =
      view_activated v st.server && option_eq (focus_window (sizes_of lay st) v st.server) (some t);
  suspended = e.suspended;
}

abbrev pub configure_shown :
    Layout → ℕ → Windows → View → Look → Option ℕ → Option (ℕ × ℕ) → Windows
configure_shown lay v st e l none size = st
configure_shown lay v st e l (some t) none = st
configure_shown lay v st e l (some t) (some size) =
    if is_some (lookup t st.server.toplevels)
    then record st {
      surfaces =
          modify t (λ (s : Surface). refresh (want (wanted_of lay st v e t size l) s.version) s)
            st.surfaces;
    }
    else st

unfoldable pub configure_view : Layout → ℕ → Windows → Windows
configure_view lay v st = elim (lookup v st.server.views) [
  | none ↦ st
  | some e ↦ elim (lookup v st.looks) [
    | none ↦ st
    | some l ↦ configure_shown lay v st e l e.toplevel (client_size_of lay v l)
  ]
]

-- The activated and the suspended state of one toplevel.
unfoldable pub sync_pending : Bool × Bool → Pending → Pending
sync_pending (active, hidden) p = record p {
  states = set_state suspended hidden (set_state activated active p.states);
}

unfoldable pub sync_each :
    Sizes → Server → List (ℕ × Toplevel) → List (ℕ × Surface) → List (ℕ × Surface)
sync_each sizes s [] m = m
sync_each sizes s ((t, e) ∷ ts) m =
    sync_each sizes s ts (modify t (refresh (sync_pending (states_of sizes t s))) m)

unfoldable pub sync_states : Layout → Windows → Windows
sync_states lay st = record st {
  surfaces = sync_each (sizes_of lay st) st.server st.server.toplevels st.surfaces;
}

abbrev pub is_shown : Option Look → Bool
is_shown none = false
is_shown (some l) = not (l.seq == 0) && not l.cleared

unfoldable pub refit_view : ℕ → Windows → List Effect
refit_view v st = if is_shown (lookup v st.looks) then submit_view v ∷ [] else []
