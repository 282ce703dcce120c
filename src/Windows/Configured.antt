-- ===== src/Windows/Configured.antt =====
-- The state that configure_view of src/state.rs sets.
use mathlib.Core.Path.{subst}
use ihs_wl_server.Prelude.{
  Bool, List, Option, none, ◌↔◌, ◌⊎◌, ==_iff, ℕ, ◌≡◌, refl, sym, ap, ◌∙◌, max, true, not, ◌&&◌,
  ◌||◌, some, ◌==◌, ==_refl, if◌then◌else◌, leb, lookup, modify, lookup-modify, is_some, contains,
  arith,
}
use ihs_wl_server.Binding.{View, option_eq}
use ihs_wl_server.Dialogs.{focus_window, view_activated}
use ihs_wl_server.Windows.{
  maximized, fullscreen, activated, tiled_left, tiled_right, tiled_top, tiled_bottom, suspended,
  Pending, Surface, Look, Windows, Layout, sizes_of, client_size_of, set_state, has_bit,
  wm_capabilities, refresh, Wanted, want, wanted_of, configure_shown, configure_view,
}
use ihs_wl_server.Windows.States.{contains-set_state}
use ihs_wl_server.Windows.Synced.{refresh-pending}

-- The buttons of a window, by their xdg_toplevel values, exactly as the app handles them: maximize (2),
-- minimize (4) and fullscreen (3) by its bits 1, 2 and 4.
abbrev pub HasButtons : ℕ → List ℕ → Type 0
HasButtons mask buttons =
    (contains buttons 2 ≡ has_bit mask 1)
    × (contains buttons 4 ≡ has_bit mask 2)
    × (contains buttons 3 ≡ has_bit mask 4)
    × ((b : ℕ) → contains buttons b ≡ true → (b ≡ 2) ⊎ (b ≡ 3) ⊎ (b ≡ 4))

-- What a client's toplevel `t` is to be, shown in the view `v` that is `e` and `l`, at a size.
abbrev pub IsWanted : Layout → Windows → ℕ → View → ℕ → Look → ℕ × ℕ → ℕ → Pending → Type 0
IsWanted lay st v e t l size version p =
    let tiled = leb 2 version in
    let full = has_bit l.window_state 2 in
    (p.size ≡ some (max size.0 1, max size.1 1))
    × HasButtons l.capabilities p.capabilities
    × (contains p.states tiled_left ≡ tiled)
    × (contains p.states tiled_right ≡ tiled)
    × (contains p.states tiled_top ≡ tiled)
    × (contains p.states tiled_bottom ≡ tiled)
    × (contains p.states fullscreen ≡ full)
    × (contains p.states maximized ≡ (has_bit l.window_state 1 || (not tiled && not full)))
    × ((contains p.states activated ≡ true) ↔ (
        (view_activated v st.server ≡ true)
        × (focus_window (sizes_of lay st) v st.server ≡ some t)))
    × (contains p.states suspended ≡ e.suspended)

wm_capabilities-HasButtons : (mask : ℕ) → HasButtons mask (wm_capabilities mask)
unfolding wm_capabilities
wm_capabilities-HasButtons mask = (
  ground arith,
  ground arith,
  ground arith,
  λ b h. ground (arith, h, ==_iff 2 b, ==_iff 3 b, ==_iff 4 b),
)

module _ (w : Wanted) (version : ℕ) (p : Pending) where
  want-state :
      (x : ℕ)
      → contains (want w version p).states x ≡ (
          if suspended == x
          then w.suspended
          else if activated == x
          then w.activated
          else if fullscreen == x
          then has_bit w.window_state 2
          else if maximized == x
          then has_bit w.window_state 1 || (not (leb 2 version) && not (has_bit w.window_state 2))
          else if tiled_bottom == x
          then leb 2 version
          else if tiled_top == x
          then leb 2 version
          else if tiled_right == x
          then leb 2 version
          else if tiled_left == x
          then leb 2 version
          else contains p.states x)
  unfolding want
  want-state x =
      let full = has_bit w.window_state 2 in
      let tiled = leb 2 version in
      let big = has_bit w.window_state 1 || (not tiled && not full) in
      let left = set_state tiled_left tiled p.states in
      let right = set_state tiled_right tiled left in
      let top = set_state tiled_top tiled right in
      let bottom = set_state tiled_bottom tiled top in
      let large = set_state maximized big bottom in
      let filled = set_state fullscreen full large in
      let active = set_state activated w.activated filled in
      simp (
        contains-set_state suspended x w.suspended active,
        contains-set_state activated x w.activated filled,
        contains-set_state fullscreen x full large,
        contains-set_state maximized x big bottom,
        contains-set_state tiled_bottom x tiled top,
        contains-set_state tiled_top x tiled right,
        contains-set_state tiled_right x tiled left,
        contains-set_state tiled_left x tiled p.states,
      )

option_eq_iff : (o : Option ℕ) (n : ℕ) → (option_eq o (some n) ≡ true) ↔ (o ≡ some n)
option_eq_iff none n = (λ e. absurd (cc), λ e. absurd (cc))
option_eq_iff (some m) n = ground (arith, ==_iff m n)

both_iff : (a b : Bool) → ((a && b) ≡ true) ↔ ((a ≡ true) × (b ≡ true))
both_iff a b = (λ e. (ground (arith, e), ground (arith, e)), λ e. ground (arith, e))

want-IsWanted :
    (lay : Layout) (st : Windows) (v t : ℕ) (e : View) (l : Look) (size : ℕ × ℕ) (version : ℕ)
    (p : Pending)
    → IsWanted lay st v e t l size version (want (wanted_of lay st v e t size l) version p)
unfolding want wanted_of
want-IsWanted lay st v t e l size version p =
    let w = wanted_of lay st v e t size l in
    let active = want-state w version p activated in
    let focus = focus_window (sizes_of lay st) v st.server in
    let both = both_iff (view_activated v st.server) (option_eq focus (some t)) in
    let here = option_eq_iff focus t in
    (
      refl,
      wm_capabilities-HasButtons l.capabilities,
      want-state w version p tiled_left,
      want-state w version p tiled_right,
      want-state w version p tiled_top,
      want-state w version p tiled_bottom,
      want-state w version p fullscreen,
      want-state w version p maximized,
      (
        λ a. let (b, c) = both.0 (sym active ∙ a) in (b, here.0 c),
        λ (b, c). active ∙ both.1 (b, here.1 c),
      ),
      want-state w version p suspended,
    )

-- A view that shows a toplevel and knows its size: the toplevel is set to that size, at least 1 by 1, with
-- exactly the buttons that the app handles. It is a tile, or from an older client maximized if nothing else
-- fills the view; it is fullscreen or maximized as the app grants; active exactly if its view is and it is
-- that view's focused window; and suspended as its view is.
pub configure_view-IsWanted :
    (lay : Layout) (v t : ℕ) (st : Windows) (e : View) (l : Look) (size : ℕ × ℕ) (s : Surface)
    → lookup v st.server.views ≡ some e
    → e.toplevel ≡ some t
    → lookup v st.looks ≡ some l
    → client_size_of lay v l ≡ some size
    → is_some (lookup t st.server.toplevels) ≡ true
    → lookup t st.surfaces ≡ some s
    → (s' : Surface) × (lookup t (configure_view lay v st).surfaces ≡ some s')
      × IsWanted lay st v e t l size s.version s'.pending
unfolding configure_view
configure_view-IsWanted lay v t st e l size s a b c d there f =
    let w = wanted_of lay st v e t size l in
    let g = λ (u : Surface). refresh (want w u.version) u in
    let eq : configure_view lay v st ≡ record st { surfaces = modify t g st.surfaces } =
      ground (arith, a, c)
      ∙ ap (λ o. configure_shown lay v st e l o (client_size_of lay v l)) b
      ∙ ap (configure_shown lay v st e l (some t)) d
      ∙ ground (arith, there) in
    (
      g s,
      ap (λ (u : Windows). lookup t u.surfaces) eq
          ∙ ground (arith, f, lookup-modify t t g st.surfaces, ==_refl t),
      subst (IsWanted lay st v e t l size s.version) (sym (refresh-pending (want w s.version) s))
          (want-IsWanted lay st v t e l size s.version s.pending),
    )
