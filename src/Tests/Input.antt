-- ===== src/Tests/Input.antt =====
-- Runs of src/input.rs, with a pointer and a keyboard that meet the interfaces' laws.
use ihs_wl_server.Prelude.{
  ℕ, ◌+◌, ◌-◌, ◌≡◌, ◌⊎◌, refl, Bool, true, false, not, List, [], ◌∷◌, ◌++◌, Option, none, some,
  ◌==◌, if◌then◌else◌, arith,
}
use ihs_wl_server.Binding.{no_server, option_eq}
use ihs_wl_server.Dialogs.{Sizes}
use ihs_wl_server.Input.{
  PointerHandle, IsLawful, Space, PointerEvent, Devices, pointer_input, press, refocus,
  surface_under,
}
use ihs_wl_server.Input.Keys
use ihs_wl_server.Input.Keys.{
  Filter, forward, intercept, KeyboardHandle, without, Seat, focus_input, key_input, release_each,
  moved_focus, refresh_keyboard_focus,
}
use ihs_wl_server.Input.Settled.{run_input, run_input_settles}
use ihs_wl_server.Input.Follows.{IsMoved, unless_none, focus_input_follows}

-- A pointer whose focus stays while a button is held.
record Mouse : Type 0 where
  pub focus : Option ℕ
  pub at : ℕ
  pub held : ℕ

abbrev mouse : PointerHandle Mouse ℕ ℕ
mouse = record {
  motion = λ f at time p. record p { focus = if p.held == 0 then f else p.focus; at = at };
  button = λ b pressed time p. record p { held = if pressed then p.held + 1 else p.held - 1 };
  axis = λ a p. p;
  frame = λ p. p;
  current_focus = λ p. p.focus;
  current_location = λ p. p.at;
  is_grabbed = λ p. not (p.held == 0);
}

mouse-IsLawful : IsLawful mouse
mouse-IsLawful = record {
  motion_free = λ f at time p e. ground (arith, e);
  axis_focus = λ a p. refl;
  axis_grab = λ a p. refl;
  frame_focus = λ p. refl;
  frame_grab = λ p. refl;
}

-- View 7 shows surface 30 from 10 on.
abbrev space : Space ℕ ℕ
space = record {
  trees = λ view. if view == 7 then (30, 10) ∷ [] else [];
  under_tree = λ root at start. if at == start then some root else none;
  bound_view_of = λ s. if s == 30 then some 7 else none;
  to_client = λ view x y. x;
  scaled = λ view d. d;
  is_zero = λ d. d == 0;
  same_point = λ a b. a == b;
}

abbrev event : (kind pressed : ℕ) → PointerEvent ℕ
event kind pressed = record {
  kind = kind;
  button = 272;
  x = 10;
  y = 0;
  pressed = pressed;
  axis_source = 0;
  axis_x = 0;
  axis_y = 0;
  value120_x = 0;
  value120_y = 0;
  time_us = 5000;
}

abbrev at_rest : Devices Mouse
at_rest = record { pointer = record { focus = none; at = 0; held = 0 }; left = false }

abbrev clicked : List (Space ℕ ℕ × ℕ × PointerEvent ℕ)
clicked = (space, 7, event 0 0) ∷ (space, 7, event 3 1) ∷ (space, 7, event 1 0) ∷ []

-- The click keeps the surface when the pointer leaves, until it is released.
keeps_click : (run_input mouse mouse-IsLawful clicked at_rest).pointer.focus ≡ some 30
unfolding run_input pointer_input press refocus surface_under
keeps_click = refl

abbrev released : List (Space ℕ ℕ × ℕ × PointerEvent ℕ)
released = clicked ++ (space, 7, event 3 0) ∷ []

run_input_settles_example :
    mouse.current_focus (run_input mouse mouse-IsLawful released at_rest).pointer ≡ none
unfolding run_input pointer_input press refocus surface_under
run_input_settles_example =
    run_input_settles mouse mouse-IsLawful released at_rest (λ l g. refl) refl refl

abbrev held_outside : Devices Mouse
held_outside = record { pointer = record { focus = some 30; at = 10; held = 1 }; left = true }

record Board : Type 0 where
  pub down : List ℕ
  pub focus : Option ℕ
  pub told : List (ℕ × Bool)

abbrev tell : Filter → ℕ → Bool → List (ℕ × Bool) → List (ℕ × Bool)
tell forward key pressed told = told ++ (key, pressed) ∷ []
tell intercept key pressed told = told

abbrev board : KeyboardHandle Board
board = record {
  input = λ key pressed time f k. record k {
    down = if pressed then k.down ++ key ∷ [] else without key k.down;
    told = tell f key pressed k.told;
  };
  set_focus = λ f k. record k { focus = f };
  pressed_keys = λ k. k.down;
  current_focus = λ k. k.focus;
  is_grabbed = λ k. false;
  sent = λ k. k.told;
}

board-IsLawful : Keys.IsLawful board
board-IsLawful = record {
  release = λ key time f k. refl;
  intercepted = λ key time pressed k. refl;
  focused = λ f k e. refl;
  focus_keys = λ f k. refl;
  focus_sent = λ f k. refl;
}

-- View 7 shows toplevel 1, and shift is held while it loses the focus.
abbrev shift_held : Seat Board
shift_held = record {
  server = record no_server {
    views =
        (
          7,
          record {
            params = record { token = none; app_id = none; sandbox_app_id = none };
            toplevel = some 1;
            suspended = false;
          },
        )
        ∷ [];
    focused = some 7;
  };
  keyboard = some (record { down = 50 ∷ []; focus = some 1; told = (50, true) ∷ [] });
}

abbrev sizes : Sizes
sizes = record { window = λ t. (800, 600); client = λ v. none }

focus_input_follows_example :
    let d' = (focus_input board sizes 7 false shift_held).0 in
    let had = option_eq shift_held.server.focused (some 7) in
    ((had ≡ false) × (d' ≡ shift_held))
    ⊎ ((had ≡ not false)
        × (d'.server ≡ record shift_held.server { focused = unless_none false 7 })
        × IsMoved board board-IsLawful sizes (unless_none false 7) shift_held d'.keyboard)
focus_input_follows_example = focus_input_follows board board-IsLawful sizes 7 false shift_held
