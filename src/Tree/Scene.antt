-- ===== src/Tree/Scene.antt =====
-- The staging slots of a scene that src/tree.rs builds: who draws them, and which are retired.
use ihs_wl_server.Prelude.{ℕ, ◌+◌, ◌≤◌, ◌≡◌, List, [], length, count, arith}
use ihs_wl_server.Prelude.Int.{ℤ}
use ihs_wl_server.Staging.Bounds.{handed_out}
use ihs_wl_server.Tree.Build.{Geometry, Surface, Built, build_trees, build}
use ihs_wl_server.Tree.Visited.{
  in_rings, drawn, showing, all_surfaces, HasValidRings, build_trees-Visits,
}

handed_out-once :
    (u before after : ℕ)
    → before ≤ after
    → handed_out u 0 before + handed_out u before after ≡ handed_out u 0 after
handed_out-once u before after h = ground (arith, h)

handed_out_le : (u n : ℕ) → handed_out u 0 n ≤ 1
handed_out_le u n = ground arith

-- The rings of the scene's surfaces are valid, and each uid on them was handed out and is there once.
-- Then so it is after `build`, with the uids that are to be retired: none of those is on a ring any more;
-- no two layers draw the same slot, and none draws one that is retired; and each surface that is mapped
-- and has a buffer is a layer or was counted as skipped.
pub build_slots :
    {Src : Type 0} (geometry : Geometry Src) (trees : List (List (Surface Src × (ℤ × ℤ))))
    (next_uid next_layer : ℕ)
    → HasValidRings (all_surfaces trees)
    → ((u : ℕ) → in_rings u (all_surfaces trees) ≤ handed_out u 0 next_uid)
    → let (after, built) = build geometry trees next_uid next_layer in
      HasValidRings after
      × ((u : ℕ) → in_rings u after + count u built.retired ≤ handed_out u 0 built.next_uid)
      × ((u : ℕ) → drawn u built.layers + count u built.retired ≤ 1)
      × (length built.layers + built.skipped ≡ showing (all_surfaces trees))
unfolding build
build_slots {Src} geometry trees next_uid next_layer valid once =
    let start : Built Src = record {
      layers = [];
      skipped = 0;
      retired = [];
      next_uid = next_uid;
      next_layer = next_layer;
    } in
    let (after, built) = build_trees geometry trees start in
    let visits = λ (u : ℕ). build_trees-Visits geometry trees u start valid in
    let here : (u : ℕ) → in_rings u after + count u built.retired ≤ handed_out u 0 built.next_uid =
      λ u. omega (
        arith,
        (visits u).uids_new,
        once u,
        handed_out-once u next_uid built.next_uid (visits u).next_grows,
      ) in
    let drawn_once : (u : ℕ) → drawn u built.layers + count u built.retired ≤ 1 =
      λ u. omega (arith, here u, (visits u).on_rings, handed_out_le u built.next_uid) in
    let counted : length built.layers + built.skipped ≡ showing (all_surfaces trees) =
      omega (arith, (visits 0).counted) in
    ((visits 0).valid, here, drawn_once, counted)
