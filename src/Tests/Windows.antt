-- ===== src/Tests/Windows.antt =====
-- Runs of src/state.rs: a dialog over a toplevel, and what both are told.
use ihs_wl_server.Prelude.{◌≡◌, refl, false, List, [], ◌∷◌, none, some, ◌==◌, if◌then◌else◌, lookup}
use ihs_wl_server.Windows.{Surface, Look, Windows, Layout, configure_view}
use ihs_wl_server.Windows.Changes.{capabilities}
use ihs_wl_server.Windows.Commands.{maximize, minimize}
use ihs_wl_server.Windows.Histories.{
  Op, resizes, grants, handles, asks_size, syncs, requests, commits, new_surface,
}
use ihs_wl_server.Windows.Configured.{IsWanted, configure_view-IsWanted}
use ihs_wl_server.Tests.Scenes.{scene, view}

abbrev layout : Layout
layout = record { window = λ t. if t == 1 then (800, 600) else (301, 200); logical = λ v s. s }

abbrev look : Look
look = record {
  size = some (800, 600);
  requested = none;
  capabilities = 5;
  window_state = 1;
  seq = 3;
  cleared = false;
}

abbrev windows : Windows
windows = record {
  server = scene;
  looks = (5, look) ∷ [];
  surfaces = (1, new_surface 6) ∷ (2, new_surface 1) ∷ [];
}

abbrev ops : List Op
ops =
    commits 1
    ∷ syncs
    ∷ resizes 5 (640, 480)
    ∷ requests 1 maximize
    ∷ grants 5 3
    ∷ commits 2
    ∷ syncs
    ∷ handles 5 2
    ∷ asks_size 5 (some (320, 240))
    ∷ requests 2 minimize
    ∷ []

-- A first commit, then other buttons.
abbrev opening : List Op
opening = commits 1 ∷ handles 5 2 ∷ []

configure_view-IsWanted_example :
    (s' : Surface) × (lookup 1 (configure_view layout 5 windows).surfaces ≡ some s')
    × IsWanted layout windows 5 view 1 look (800, 600) 6 s'.pending
configure_view-IsWanted_example =
    configure_view-IsWanted layout 5 1 windows view look (800, 600) (new_surface 6) refl refl refl
      refl refl refl
