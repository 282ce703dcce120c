-- ===== src/Tests/Trees.antt =====
-- A run of src/tree.rs: a root with a dma-buf, a surface whose buffer is staged, one whose buffer cannot be
-- shown and one that is not mapped.
use ihs_wl_server.Prelude.{
  ℕ, ◌+◌, ◌-◌, ◌≤◌, ◌≡◌, refl, true, false, List, [], ◌∷◌, Option, none, some, arith, length, map,
  count, ==_iff, take, ◌⊎◌, All,
}
use ihs_wl_server.Prelude.Int.{ℤ, pos, negsuc, wrap_i32}
use ihs_wl_server.Buffers.{client, staged, key_eq, BufferIds, find, destroyed}
use ihs_wl_server.Submit
use ihs_wl_server.Submit.Holds.{no_holds}
use ihs_wl_server.Submit.Views.{image, Answer}
use ihs_wl_server.Submit.Scenes.{Views, layer_of, retire_key, submit_scene}
use ihs_wl_server.Submit.Scenes.Reported.{Reports}
use ihs_wl_server.Submit.Scenes.Renewed.{IsRenewed, AllShown}
use ihs_wl_server.Submit.Scenes.Retired.{submit_scene-retires}
use ihs_wl_server.Staging.{
  Ring, Request, empty, stage, refit, fill, free_slot, refill, grow, add_slot, write_slot,
}
use ihs_wl_server.Staging.Bounds.{IsValid, handed_out}
use ihs_wl_server.Tree.Orientation.{r90, after_y_flip, transform_value}
use ihs_wl_server.Tree.Build.{
  Geometry, Picture, Buffer, View, Surface, LayerSpec, find_content, spec, visit, build_tree,
  build_trees, build,
}
use ihs_wl_server.Tree.Visited.{in_rings, drawn, all_surfaces, HasValidRings}
use ihs_wl_server.Tree.Scene.{build_slots}

-- Where the part shown starts, in rows.
abbrev geometry : Geometry ℕ
geometry = record {
  to_buffer = λ scale transform size src. src;
  mirror = λ height src. height - src;
  contains_rect = λ r s. false;
}

abbrev picture : Picture
picture = record { content = image; y_inverted = false; height = 64 }

abbrev buffer : Buffer
buffer = record {
  id = 5;
  size = (64, 64);
  dmabuf = some (record { content = image; y_inverted = true; height = 64 });
  egl = none;
  source = none;
  slot = λ u. picture;
}

abbrev request : Request
request = record {
  width = 8;
  height = 8;
  fourcc = 875713112;
  commit = 2;
  allocates = true;
  copies = true;
}

abbrev view : ℤ × ℤ → View ℕ
view at = record { offset = at; size = (pos 64, pos 64); src = 10 }

abbrev surface : Option (View ℕ) → Option Buffer → Surface ℕ
surface v b = record {
  view = v;
  buffer = b;
  scale = 1;
  transform = r90;
  opaque_regions = none;
  generation = 3;
  ring = empty;
  layer_id = none;
}

-- A ring of another size, whose slot is retired.
abbrev old : Ring
old = record {
  width = 64;
  height = 32;
  fourcc = some 875713112;
  slots = record { uid = 1; commit = some 1; clones = 1 } ∷ [];
  newest = some 0;
}

abbrev trees : List (List (Surface ℕ × (ℤ × ℤ)))
trees =
    ((surface (some (view (pos 0, pos 0))) (some buffer), (pos 2, pos 3))
      ∷ (
        record (surface (some (view (negsuc 4, pos 6)))
            (some (record buffer { dmabuf = none; source = some request }))) { ring = old },
        (pos 2, pos 3),
      )
      ∷ [])
    ∷ ((
      surface (some (view (pos 0, pos 0))) (some (record buffer { dmabuf = none })),
      (pos 0, pos 0),
    )
        ∷ (surface none none, (pos 0, pos 0))
        ∷ [])
    ∷ []

old-IsValid : IsValid old
old-IsValid = record { size = omega arith; newest = λ i h. ground arith }

empty-IsValid : IsValid empty
empty-IsValid = record { size = omega arith; newest = λ i h. cc }

valid : HasValidRings (all_surfaces trees)
valid = (empty-IsValid, (old-IsValid, (empty-IsValid, (empty-IsValid, tt))))

once : (u : ℕ) → in_rings u (all_surfaces trees) ≤ handed_out u 0 1
once u = ground (arith, ==_iff 1 u)

build_slots_example :
    let (after, built) = build geometry trees 1 10 in
    HasValidRings after
    × ((u : ℕ) → in_rings u after + count u built.retired ≤ handed_out u 0 built.next_uid)
    × ((u : ℕ) → drawn u built.layers + count u built.retired ≤ 1)
    × (length built.layers + built.skipped ≡ 3)
build_slots_example = build_slots geometry trees 1 10 valid once

abbrev looks : LayerSpec ℕ → ℕ × ℕ × ℕ
looks l = (l.layer_id, l.transform, l.src)

draws :
    let built = (build geometry trees 1 10).1 in
    (map looks built.layers ≡ (10, 7, 54) ∷ (11, 1, 10) ∷ [])
    × (built.skipped ≡ 1)
    × (built.retired ≡ 1 ∷ [])
    × (built.next_uid ≡ 2)
unfolding build build_trees build_tree visit spec find_content after_y_flip transform_value wrap_i32
    stage refit fill refill grow add_slot write_slot free_slot
draws = (refl, refl, refl, refl)

dropped : 1 ≤ count 1 (build geometry trees 1 10).1.retired
unfolding build build_trees build_tree visit spec find_content stage refit fill refill grow add_slot
    write_slot free_slot
dropped = omega arith

-- The dropped slot was shown in view 2 under id 3.
abbrev ids : BufferIds
ids = record { last = 3; by_buffer = (staged 1, record { id = 3; views = 2 ∷ [] }) ∷ [] }

abbrev views : Views
views = record { here = 2 ∷ []; linked = λ v. true }

abbrev answer : Answer
answer = record { linked = true; accepted = true; fences = none ∷ some (some 40) ∷ [] }

abbrev shown_before : Submit.Views.View
shown_before = record { seq = 1; cleared = false; holds = no_holds }

had_id : find (staged 1) ids.by_buffer ≡ some (record { id = 3; views = 2 ∷ [] })
unfolding find key_eq
had_id = refl

-- The client's buffer 9 is gone too.
submit_scene-retires_example :
    let r = submit_scene geometry 16 2 views answer (9 ∷ []) trees 1 10 ids shown_before in
    Reports (record { view = 2; buffer_id = 3; told = true }) r.1
    × (find (staged 1) r.2.ids.by_buffer ≡ none)
    × All (λ b. IsRenewed 3 (find (client b) r.2.ids.by_buffer)) (9 ∷ [])
    × ((r.2.result ≡ none)
        ⊎ AllShown 2 r.2.ids (take 16 (map layer_of (build geometry trees 1 10).1.layers)))
submit_scene-retires_example =
    submit_scene-retires geometry 16 2 views answer (9 ∷ []) trees 1 10 ids shown_before 1 2
      (record { id = 3; views = 2 ∷ [] }) valid once dropped had_id refl refl (omega arith)

told_once :
    (retire_key views (staged 1) ids).1 ≡ record { view = 2; buffer_id = 3; told = true } ∷ []
unfolding retire_key destroyed find key_eq
told_once = refl
