-- ===== src/Tests/Buffers.antt =====
-- A run of src/buffers.rs: a buffer shown in two views, one of which goes away.
use ihs_wl_server.Prelude.{◌≡◌, refl, List, [], ◌∷◌, none, some, arith}
use ihs_wl_server.Buffers.{
  client, staged, find, id_for, destroyed, forget_view, put, key_eq, note_shown, next_id,
}
use ihs_wl_server.Buffers.Shown.{
  Use, submitted, view_gone, run, shows, shown_since, shows-run, retired_in, destroyed_lem,
}
use ihs_wl_server.Buffers.Ids.{IsValid, run-IsValid}

abbrev uses : List Use
uses = view_gone 8 ∷ submitted (client 5) 8 ∷ submitted (staged 5) 9 ∷ submitted (client 5) 7 ∷ []

shows-run_example : shows (run uses) (client 5) 7 ≡ shown_since uses (client 5) 7
shows-run_example = shows-run uses (client 5) 7

destroyed_lem_example :
    (retired_in (destroyed (run uses) (client 5)).1 8 ≡ shown_since uses (client 5) 8)
    × (find (client 5) (destroyed (run uses) (client 5)).0.by_buffer ≡ none)
destroyed_lem_example = destroyed_lem uses (client 5) 8

retired : (destroyed (run uses) (client 5)).1 ≡ some (1, 7 ∷ [])
unfolding run destroyed find forget_view id_for put key_eq note_shown next_id
retired = refl

run-IsValid_example : IsValid (run uses)
run-IsValid_example = run-IsValid uses (omega arith)
