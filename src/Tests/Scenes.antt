-- ===== src/Tests/Scenes.antt =====
-- Runs of src/dialogs.rs: a dialog over a toplevel.
use ihs_wl_server.Prelude.{
  ◌≡◌, refl, true, false, [], ◌∷◌, none, some, arith, All, ◌==◌, if◌then◌else◌,
}
use ihs_wl_server.Binding.{View, Toplevel, Server}
use ihs_wl_server.Binding.Consistent.{IsConsistent}
use ihs_wl_server.Dialogs.{
  Sizes, view_windows, view_root, bounds_of, centered, join_all, join, find_window, over,
}
use ihs_wl_server.Dialogs.Layout.{IsPlaced, view_windows-IsPlaced}
use ihs_wl_server.Binding.Requests.{root_from}

abbrev sizes : Sizes
sizes = record {
  window = λ t. if t == 1 then (800, 600) else (301, 200);
  client = λ v. some (800, 600);
}

abbrev pub view : View
view = record {
  params = record { token = none; app_id = none; sandbox_app_id = none };
  toplevel = some 1;
  suspended = false;
}

abbrev pub main_window : Toplevel
main_window = record {
  mapped = true;
  view = some 5;
  token = none;
  parent = none;
  app_id = 1;
  sandbox = none;
}

abbrev pub about : Toplevel
about = record {
  mapped = true;
  view = none;
  token = none;
  parent = some 1;
  app_id = 1;
  sandbox = none;
}

abbrev pub scene : Server
scene = record {
  views = (5, view) ∷ [];
  toplevels = (1, main_window) ∷ (2, about) ∷ [];
  next_id = 2;
  focused = some 5;
  issued = [];
}

pub scene-IsConsistent : IsConsistent scene
scene-IsConsistent = record {
  forth = λ v t p. ground arith;
  back = λ v t p. ground arith;
  ids = (omega arith, (omega arith, omega arith));
  allowed = λ v t e w a c p. ground arith;
}

shows_main : view_root 5 scene ≡ some 1
unfolding view_root
shows_main = refl

view_windows-IsPlaced_example :
    All (IsPlaced sizes (bounds_of sizes 5 1) 1 scene.toplevels) (view_windows sizes 5 scene)
view_windows-IsPlaced_example = view_windows-IsPlaced sizes 5 1 scene shows_main

windows :
    view_windows sizes 5 scene
    ≡ record { toplevel = 1; x = 0; y = 0 } ∷ record { toplevel = 2; x = 249; y = 200 } ∷ []
unfolding view_windows view_root join_all join root_from find_window over centered
windows = refl
