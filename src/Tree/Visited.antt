-- ===== src/Tree/Visited.antt =====
-- The surfaces that src/tree.rs visits: their staging rings, and the layers that draw a slot.
use ihs_wl_server.Prelude.{
  ℕ, ◌+◌, ◌≤◌, ◌≡◌, refl, List, [], ◌∷◌, ◌++◌, Option, none, some, length, All, All-append, count,
  count-append, length-append, arith,
}
use ihs_wl_server.Prelude.Int.{ℤ}
use ihs_wl_server.Staging.Bounds.{IsValid, uids, handed_out}
use ihs_wl_server.Tree.Build.{
  Geometry, Buffer, View, Surface, LayerSpec, Built, Shown, Found, find_content, layer_id, spec,
  add, visit_shown, visit, build_tree, build_trees,
}
use ihs_wl_server.Tree.Found.{key_is, shown_is, Finds, find_content-Finds}

module _ {Src : Type 0} where
  -- How many slots with the uid the surfaces' rings have, and how many layers draw one.
  abbrev pub in_rings : ℕ → List (Surface Src) → ℕ
  in_rings u [] = 0
  in_rings u (s ∷ ss) = count u (uids s.ring) + in_rings u ss

  abbrev pub drawn : ℕ → List (LayerSpec Src) → ℕ
  drawn u [] = 0
  drawn u (l ∷ ls) = key_is u l.key + drawn u ls

  abbrev has_content : Option (View Src) → Option Buffer → ℕ
  has_content none b = 0
  has_content (some v) none = 0
  has_content (some v) (some b) = 1

  -- The surfaces that are mapped and have a buffer.
  abbrev pub showing : List (Surface Src) → ℕ
  showing [] = 0
  showing (s ∷ ss) = has_content s.view s.buffer + showing ss

  drawn-append :
      (u : ℕ) (ls ms : List (LayerSpec Src)) → drawn u (ls ++ ms) ≡ drawn u ls + drawn u ms
  drawn-append u [] ms = omega arith
  drawn-append u (l ∷ ls) ms = omega (arith, drawn-append u ls ms)

  in_rings-append :
      (u : ℕ) (ss ts : List (Surface Src)) → in_rings u (ss ++ ts) ≡ in_rings u ss + in_rings u ts
  in_rings-append u [] ts = omega arith
  in_rings-append u (s ∷ ss) ts = omega (arith, in_rings-append u ss ts)

  showing-append : (ss ts : List (Surface Src)) → showing (ss ++ ts) ≡ showing ss + showing ts
  showing-append [] ts = omega arith
  showing-append (s ∷ ss) ts = omega (arith, showing-append ss ts)

  -- What surfaces were visited, in any number: their rings stay valid; a uid is on one of them or retired
  -- as before, or was handed out since; a layer draws a slot of them; and each surface that has something
  -- to show is a layer or is counted.
  pub record Visits (u : ℕ) (ss : List (Surface Src)) (b : Built Src) (ts : List (Surface Src))
      (c : Built Src) : Type 0 where
    pub valid : All (λ (s : Surface Src). IsValid s.ring) ts
    pub uids_new :
        in_rings u ts + count u c.retired
        ≤ in_rings u ss + count u b.retired + handed_out u b.next_uid c.next_uid
    pub next_grows : b.next_uid ≤ c.next_uid
    pub on_rings : drawn u c.layers ≤ drawn u b.layers + in_rings u ts
    pub counted : length c.layers + c.skipped ≡ length b.layers + b.skipped + showing ss

  none-Visits : (u : ℕ) (b : Built Src) → Visits u [] b [] b
  none-Visits u b = record {
    valid = tt;
    uids_new = omega arith;
    next_grows = omega arith;
    on_rings = omega arith;
    counted = omega arith;
  }

  then-Visits :
      (u : ℕ) (ss ss' : List (Surface Src)) (b : Built Src) (ts ts' : List (Surface Src))
      (c d : Built Src)
      → Visits u ss b ts c
      → Visits u ss' c ts' d
      → Visits u (ss ++ ss') b (ts ++ ts') d
  then-Visits u ss ss' b ts ts' c d first second = record {
    valid = All-append (λ (s : Surface Src). IsValid s.ring) ts ts' first.valid second.valid;
    uids_new = ground (
      arith,
      in_rings-append u ss ss',
      in_rings-append u ts ts',
      first.uids_new,
      second.uids_new,
      first.next_grows,
      second.next_grows,
    );
    next_grows = omega (arith, first.next_grows, second.next_grows);
    on_rings = omega (arith, in_rings-append u ts ts', first.on_rings, second.on_rings);
    counted = omega (arith, showing-append ss ss', first.counted, second.counted);
  }

  add-Visits :
      (geometry : Geometry Src) (s : Surface Src) (v : View Src) (b : Buffer) (at : ℤ × ℤ) (u : ℕ)
      (built : Built Src) (f : Found) (o : Option Shown)
      → has_content s.view s.buffer ≡ 1
      → shown_is u o ≤ count u (uids f.ring)
      → Finds u built.next_uid s.ring f
      → let after =
          add geometry
            (record s { ring = f.ring })
            v
            b
            at
            o
            (record built { retired = built.retired ++ f.retired; next_uid = f.next_uid }) in
        Visits u (s ∷ []) built (after.0 ∷ []) after.1
  unfolding spec
  add-Visits geometry s v b at u built f none has on_ring finds = record {
    valid = (finds.valid, tt);
    uids_new = omega (arith, count-append u built.retired f.retired, finds.uids_new);
    next_grows = finds.next_grows;
    on_rings = omega arith;
    counted = omega (arith, has);
  }
  add-Visits geometry s v b at u built f (some shown) has on_ring finds =
      let layer =
        spec geometry (record s { ring = f.ring }) v b at shown
          (layer_id s.layer_id built.next_layer).0 in
      record {
        valid = (finds.valid, tt);
        uids_new = omega (arith, count-append u built.retired f.retired, finds.uids_new);
        next_grows = finds.next_grows;
        on_rings = omega (arith, drawn-append u built.layers (layer ∷ []), on_ring);
        counted = omega (arith, has, length-append built.layers (layer ∷ []));
      }

  nothing-Visits :
      (s : Surface Src) (u : ℕ) (built : Built Src)
      → IsValid s.ring
      → has_content s.view s.buffer ≡ 0
      → Visits u (s ∷ []) built (s ∷ []) built
  nothing-Visits s u built valid has = record {
    valid = (valid, tt);
    uids_new = omega arith;
    next_grows = omega arith;
    on_rings = omega arith;
    counted = omega (arith, has);
  }

  visit_shown-Visits :
      (geometry : Geometry Src) (v : Option (View Src)) (b : Option Buffer) (s : Surface Src)
      (at : ℤ × ℤ) (u : ℕ) (built : Built Src)
      → IsValid s.ring
      → has_content s.view s.buffer ≡ has_content v b
      → let after = visit_shown geometry v b s at built in
        Visits u (s ∷ []) built (after.0 ∷ []) after.1
  visit_shown-Visits geometry none b s at u built valid has = nothing-Visits s u built valid has
  visit_shown-Visits geometry (some v) none s at u built valid has =
      nothing-Visits s u built valid has
  visit_shown-Visits geometry (some v) (some b) s at u built valid has =
      let finds = find_content-Finds b built.next_uid s.ring u valid in
      add-Visits geometry s v b at u built (find_content b built.next_uid s.ring)
        (find_content b built.next_uid s.ring).shown has finds.on_ring finds

  abbrev pub surfaces : List (Surface Src × (ℤ × ℤ)) → List (Surface Src)
  surfaces [] = []
  surfaces ((s, at) ∷ rest) = s ∷ surfaces rest

  abbrev pub all_surfaces : List (List (Surface Src × (ℤ × ℤ))) → List (Surface Src)
  all_surfaces [] = []
  all_surfaces (tree ∷ trees) = surfaces tree ++ all_surfaces trees

  abbrev pub HasValidRings : List (Surface Src) → Type 0
  HasValidRings = All λ (s : Surface Src). IsValid s.ring

  build_tree-Visits :
      (geometry : Geometry Src) (tree : List (Surface Src × (ℤ × ℤ))) (u : ℕ) (built : Built Src)
      → HasValidRings (surfaces tree)
      → let after = build_tree geometry tree built in Visits u (surfaces tree) built after.0 after.1
  unfolding build_tree visit
  build_tree-Visits geometry [] u built valid = none-Visits u built
  build_tree-Visits geometry ((s, at) ∷ rest) u built (valid, valids) =
      let one = visit geometry s at built in
      let after = build_tree geometry rest one.1 in
      then-Visits u (s ∷ []) (surfaces rest) built (one.0 ∷ []) after.0 one.1 after.1
        (visit_shown-Visits geometry s.view s.buffer s at u built valid refl)
        (build_tree-Visits geometry rest u one.1 valids)

  split_valid :
      (ss ts : List (Surface Src)) → HasValidRings (ss ++ ts) → HasValidRings ss × HasValidRings ts
  split_valid [] ts valid = (tt, valid)
  split_valid (s ∷ ss) ts (valid, valids) =
      let (left, right) = split_valid ss ts valids in ((valid, left), right)

  pub build_trees-Visits :
      (geometry : Geometry Src) (trees : List (List (Surface Src × (ℤ × ℤ)))) (u : ℕ)
      (built : Built Src)
      → HasValidRings (all_surfaces trees)
      → let after = build_trees geometry trees built in
        Visits u (all_surfaces trees) built after.0 after.1
  unfolding build_trees
  build_trees-Visits geometry [] u built valid = none-Visits u built
  build_trees-Visits geometry (tree ∷ trees) u built valid =
      let (first, others) = split_valid (surfaces tree) (all_surfaces trees) valid in
      let one = build_tree geometry tree built in
      let after = build_trees geometry trees one.1 in
      then-Visits u (surfaces tree) (all_surfaces trees) built one.0 after.0 one.1 after.1
        (build_tree-Visits geometry tree u built first)
        (build_trees-Visits geometry trees u one.1 others)
