-- ===== src/Submit/Scenes.antt =====
-- The whole of `submit_tree` in src/submit.rs: the scene is built (src/tree.rs), the buffers that are gone
-- are retired in the views that showed them, and the layers go to the shell.
pub mod Reported
pub mod Renewed
pub mod Retired
use ihs_wl_server.Prelude.{
  ℕ, ◌+◌, Bool, List, [], ◌∷◌, ◌++◌, map, Option, none, some, if◌then◌else◌, retain, contains,
}
use ihs_wl_server.Prelude.Int.{ℤ}
use ihs_wl_server.Buffers.{BufferKey, client, staged, BufferIds, destroyed}
use ihs_wl_server.Submit.Views.{Layer, View, Answer, Submitted, submit_tree}
use ihs_wl_server.Tree.Build.{Geometry, Surface, LayerSpec, Built, build}

-- The views that there are, and which of them are still linked to the shell.
pub record Views : Type 0 where
  pub here : List ℕ
  pub linked : ℕ → Bool

-- A view's buffer is reported retired, and the shell is told where the view is linked.
pub record Retirement : Type 0 where
  pub view : ℕ
  pub buffer_id : ℕ
  pub told : Bool

abbrev pub retire_in : Views → Option (ℕ × List ℕ) → List Retirement
retire_in vs none = []
retire_in vs (some (id, views)) =
    map (λ (v : ℕ). record { view = v; buffer_id = id; told = vs.linked v })
      (retain (contains vs.here) views)

unfoldable pub retire_key : Views → BufferKey → BufferIds → BufferIds × List Retirement
retire_key vs key ids = let (ids', shown) = destroyed ids key in (ids', retire_in vs shown)

unfoldable pub retire_keys : Views → List BufferKey → BufferIds → BufferIds × List Retirement
retire_keys vs [] ids = (ids, [])
retire_keys vs (k ∷ ks) ids =
    let one = retire_key vs k ids in let rest = retire_keys vs ks one.0 in (rest.0, one.1 ++ rest.1)

abbrev pub layer_of : {Src : Type 0} → LayerSpec Src → Layer
layer_of l = record {
  key = l.key;
  held = l.held;
  layer_id = l.layer_id;
  generation = l.generation;
  content = l.content;
}

-- `reaped` are the client's buffers that the EGL imports found gone.
unfoldable pub retire_gone :
    {Src : Type 0} → Views → (reaped : List ℕ) → Built Src → BufferIds → BufferIds × List Retirement
retire_gone vs reaped built ids = retire_keys vs (map client reaped ++ map staged built.retired) ids

module _ {Src : Type 0} (geometry : Geometry Src) (max_layers view : ℕ) (vs : Views) (a : Answer)
    (reaped : List ℕ) where
  unfoldable pub submit_scene :
      List (List (Surface Src × (ℤ × ℤ)))
      → (next_uid next_layer : ℕ) → BufferIds
      → View
      → List (Surface Src) × List Retirement × Submitted
  submit_scene trees next_uid next_layer ids v =
      let (after, built) = build geometry trees next_uid next_layer in
      let (ids', retirements) = retire_gone vs reaped built ids in
      (after, retirements, submit_tree max_layers view a ids' (map layer_of built.layers) v)
