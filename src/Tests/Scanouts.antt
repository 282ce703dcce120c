-- ===== src/Tests/Scanouts.antt =====
-- A run of src/scanout.rs: a surface is hinted, asks, and leaves its view.
use ihs_wl_server.Prelude.{
  ℕ, ◌+◌, ◌*◌, ◌≡◌, refl, List, [], ◌∷◌, Option, none, some, false, contains, length, ltb,
}
use ihs_wl_server.Caps.{FormatModifier, offers}
use ihs_wl_server.Scanout.{
  Host, Hint, layer_surface, hinted_feedback, global, tranche_feedback, forget_each, cached,
  scanout_feedback, hint_surface, scanout_hint, forget_scanout, new_surface_feedback,
}
use ihs_wl_server.Scanout.Coherent.{IsCoherent}
use ihs_wl_server.Scanout.Runs.{
  Event, hints, leaves, asks, destroyed, step, run, run-IsCoherent, scanout_hint_tranche,
}

abbrev linear : FormatModifier
linear = record { fourcc = 875713112; modifier = 0 }

abbrev tiled : FormatModifier
tiled = record { fourcc = 875713112; modifier = 5 }

-- Feedback that counts what it offers.
abbrev host : Host ℕ
host = record {
  caps = record { formats = linear ∷ []; render_device = some 57984; egl_images = none };
  known = λ code. ltb 0 code;
  builder = λ main offered. some (length offered);
  tranched = λ main offered dev tranche. some (length offered + 100 * dev + 10 * length tranche);
}

abbrev hint : Hint
hint = record { layer_id = 7; dev = 3; formats = tiled ∷ linear ∷ [] }

-- The view's root, and its subsurface that is layer 7.
abbrev trees : List (List (ℕ × Option ℕ))
trees = ((20, none) ∷ (21, some 7) ∷ []) ∷ ((22, some 8) ∷ []) ∷ []

abbrev history : List Event
history = asks 21 ∷ hints 1 hint trees ∷ asks 20 ∷ []

tells_tranche : (run host history).told ≡ (20, 1) ∷ (21, 311) ∷ []
unfolding run step scanout_hint hint_surface scanout_feedback cached global tranche_feedback offers
    layer_surface hinted_feedback new_surface_feedback
tells_tranche = refl

tells_default : (run host (leaves 1 ∷ history)).told ≡ (20, 1) ∷ (21, 1) ∷ []
unfolding run step scanout_hint hint_surface scanout_feedback cached global tranche_feedback offers
    layer_surface hinted_feedback new_surface_feedback forget_scanout forget_each
tells_default = refl

default_is : global host ≡ some 1
unfolding global
default_is = refl

found : layer_surface trees 7 ≡ some 21
unfolding layer_surface
found = refl

run-IsCoherent_example : IsCoherent host 57984 1 (run host (destroyed 20 ∷ leaves 1 ∷ history))
run-IsCoherent_example =
    run-IsCoherent host 57984 1 refl default_is (destroyed 20 ∷ leaves 1 ∷ history)

alive : contains (run host history).gone 21 ≡ false
unfolding run step scanout_hint hint_surface scanout_feedback global layer_surface
    new_surface_feedback
alive = refl

scanout_hint_tranche_example :
    hinted_feedback 21 (scanout_hint host 2 hint trees (run host history))
    ≡ tranche_feedback host 57984 3 (linear ∷ [])
unfolding offers
scanout_hint_tranche_example =
    scanout_hint_tranche host 57984 1 refl default_is history 2 hint trees tiled (linear ∷ []) 21 21
      refl found alive
