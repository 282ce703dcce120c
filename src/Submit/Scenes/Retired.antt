-- ===== src/Submit/Scenes/Retired.antt =====
-- The staging slots that a submit of src/submit.rs retires.
use mathlib.Core.Path.{subst}
use ihs_wl_server.Prelude.{
  ℕ, zero, suc, ◌+◌, ◌<◌, ◌≤◌, ◌⊎◌, All, u32_mod, ==_refl, ◌≡◌, refl, sym, inl, inr, true, false,
  List, [], ◌∷◌, ◌++◌, map, take, none, some, count, contains, arith, Option-cases,
}
use ihs_wl_server.Prelude.Int.{ℤ}
use ihs_wl_server.Buffers.{
  Entry, BufferKey, client, staged, key_eq, BufferIds, find, note_shown, next_id, id_for,
}
use ihs_wl_server.Buffers.Maps.{find-put}
use ihs_wl_server.Staging.Bounds.{handed_out}
use ihs_wl_server.Submit.Planes.{Plane, frame_for}
use ihs_wl_server.Submit.Views.{Layer, View, Answer, prepare_all, submit_tree}
use ihs_wl_server.Submit.Views.Fds.{Content-cases, Outcome-cases}
use ihs_wl_server.Submit.Scenes.{Views, retire_keys, layer_of, retire_gone, submit_scene}
use ihs_wl_server.Submit.Scenes.Reported.{
  retire_keys-last, retire_keys-gone, named_client, Reports, retire_keys-Reports, named_in,
}
use ihs_wl_server.Submit.Scenes.Renewed.{
  IsRenewed, AllShown, hand_over_if-ids, submit_tree-AllShown, submit_tree-IsRenewed,
}
use ihs_wl_server.Tree.Build.{Geometry, Surface, LayerSpec, build}
use ihs_wl_server.Tree.Found.{key_is}
use ihs_wl_server.Tree.Visited.{in_rings, drawn, all_surfaces, HasValidRings}
use ihs_wl_server.Tree.Scene.{build_slots}

-- No id is kept for the slot's buffer.
abbrev pub HasNoId : ℕ → BufferIds → Type 0
HasNoId u ids = find (staged u) ids.by_buffer ≡ none

other_key : (u : ℕ) (k : BufferKey) → key_is u k ≡ 0 → key_eq k (staged u) ≡ false
unfolding key_eq
other_key u (client b) h = refl
other_key u (staged v) h = ground (arith, h)

abbrev drawn_by : ℕ → List Layer → ℕ
drawn_by u [] = 0
drawn_by u (l ∷ ls) = key_is u l.key + drawn_by u ls

drawn_by-take : (u n : ℕ) (ls : List Layer) → drawn_by u (take n ls) ≤ drawn_by u ls
drawn_by-take u zero ls = omega arith
drawn_by-take u (suc n) [] = omega arith
drawn_by-take u (suc n) (l ∷ ls) = omega (arith, drawn_by-take u n ls)

drawn_by-map :
    {Src : Type 0} (u : ℕ) (ls : List (LayerSpec Src)) → drawn_by u (map layer_of ls) ≡ drawn u ls
drawn_by-map u [] = refl
drawn_by-map u (l ∷ ls) = omega (arith, drawn_by-map u ls)

-- An id is only handed out to the buffer of a layer.
id_for-other :
    (u : ℕ) (ids : BufferIds) (k : BufferKey) (view : ℕ)
    → key_is u k ≡ 0
    → HasNoId u ids
    → HasNoId u (id_for ids k view).0
unfolding id_for
id_for-other u ids k view other h =
    let differs : key_eq k (staged u) ≡ false = other_key u k other in
    elim (Option-cases (find k ids.by_buffer)) [
      | inl e ↦ ground (
        arith,
        e,
        h,
        differs,
        find-put k (staged u) (note_shown view (record { id = next_id ids.last; views = [] }))
            ids.by_buffer,
      )
      | inr (d, e) ↦
          ground (arith, e, h, differs, find-put k (staged u) (note_shown view d) ids.by_buffer)
    ]

prepare_all-kept :
    (u view : ℕ) (ids : BufferIds) (done : List (List Plane)) (ls : List Layer)
    → drawn_by u ls ≡ 0
    → HasNoId u ids
    → HasNoId u (prepare_all view ids done ls).ids
unfolding prepare_all
prepare_all-kept u view ids done [] none_drawn h = h
prepare_all-kept u view ids done (l ∷ ls) none_drawn h =
    let ids' = (id_for ids l.key view).0 in
    let h' = id_for-other u ids l.key view (omega (arith, none_drawn)) h in
    let rest = λ (more : List (List Plane)).
      prepare_all-kept u view ids' more ls (omega (arith, none_drawn)) h' in
    elim (Content-cases l.content) [
      | inl e ↦ ground (arith, e, rest (done ++ [] ∷ []))
      | inr (ps, e) ↦ elim (Outcome-cases (frame_for ps).outcome) [
        | inl (planes, f) ↦ ground (arith, e, f, rest (done ++ planes ∷ []))
        | inr (fds, f) ↦ ground (arith, e, f, h')
      ]
    ]

submit_tree-kept :
    (u max_layers view : ℕ) (a : Answer) (ids : BufferIds) (ls : List Layer) (v : View)
    → drawn_by u ls ≡ 0
    → HasNoId u ids
    → HasNoId u (submit_tree max_layers view a ids ls v).ids
unfolding submit_tree
submit_tree-kept u max_layers view a ids [] v none_drawn h = h
submit_tree-kept u max_layers view a ids (l ∷ ls) v none_drawn h =
    let specs = take max_layers (l ∷ ls) in
    let p = prepare_all view ids [] specs in
    subst (HasNoId u) (sym (hand_over_if-ids a v specs p p.frames)) (
      prepare_all-kept u view ids [] specs
        (omega (arith, drawn_by-take u max_layers (l ∷ ls), none_drawn)) h)

All-contained : (P : ℕ → Type 0) (bs : List ℕ) → ((b : ℕ) → contains bs b ≡ true → P b) → All P bs
All-contained P [] h = tt
All-contained P (b ∷ bs) h =
    (h b (ground (arith, ==_refl b)), All-contained P bs λ x e. h x (ground (arith, e)))

-- The rings of the scene's surfaces are valid, and each uid on them was handed out and is there once. The
-- scene's build drops a staging slot whose buffer has an id, and the ids are short of their wrap. Then,
-- whatever the shell answers, each view that there is and that showed the buffer is reported to have it
-- retired, which the shell is told if the view is linked; and the slot has no id after the submit, since
-- none of the layers draws it. A client's buffer that was found gone has no id either, or if its number
-- is drawn again, one that is newer than all before the submit. And if the shell took the frame, each
-- layer in it has an id that is still kept, noted as shown in the view.
pub submit_scene-retires :
    {Src : Type 0} (geometry : Geometry Src) (max_layers view : ℕ) (vs : Views) (a : Answer)
    (reaped : List ℕ) (trees : List (List (Surface Src × (ℤ × ℤ)))) (next_uid next_layer : ℕ)
    (ids : BufferIds) (v : View) (u w : ℕ) (e : Entry)
    → HasValidRings (all_surfaces trees)
    → ((x : ℕ) → in_rings x (all_surfaces trees) ≤ handed_out x 0 next_uid)
    → 1 ≤ count u (build geometry trees next_uid next_layer).1.retired
    → find (staged u) ids.by_buffer ≡ some e
    → contains e.views w ≡ true
    → contains vs.here w ≡ true
    → ids.last + max_layers < u32_mod
    → let r = submit_scene geometry max_layers view vs a reaped trees next_uid next_layer ids v in
      let layers = map layer_of (build geometry trees next_uid next_layer).1.layers in
      Reports (record { view = w; buffer_id = e.id; told = vs.linked w }) r.1
      × (find (staged u) r.2.ids.by_buffer ≡ none)
      × All (λ b. IsRenewed ids.last (find (client b) r.2.ids.by_buffer)) reaped
      × ((r.2.result ≡ none) ⊎ AllShown view r.2.ids (take max_layers layers))
unfolding submit_scene retire_gone
submit_scene-retires geometry max_layers view vs a reaped trees next_uid next_layer ids v u w e
      valid once dropped has_id shown there room =
    let built = (build geometry trees next_uid next_layer).1 in
    let slots = build_slots geometry trees next_uid next_layer valid once in
    let keys = map client reaped ++ map staged built.retired in
    let ids' = (retire_keys vs keys ids).0 in
    let layers = map layer_of built.layers in
    let named = named_in built.retired u (map client reaped) dropped in
    (
      retire_keys-Reports vs keys u w e ids named has_id shown there,
      submit_tree-kept u max_layers view a ids' layers v
          (omega (arith, slots.2 u, dropped, drawn_by-map u built.layers))
          (retire_keys-gone vs keys (staged u) ids named),
      All-contained _ reaped (λ b here.
          submit_tree-IsRenewed ids.last max_layers view a ids' layers v (client b)
            (sym (retire_keys-last vs keys ids)) room
            (retire_keys-gone vs keys (client b) ids
              (named_client reaped b (map staged built.retired) here))),
      submit_tree-AllShown max_layers view a ids' layers v,
    )
