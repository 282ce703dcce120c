-- ===== src/Tree/Build.antt =====
-- `build` of src/tree.rs: the surfaces of a view's trees, as the layers that the shell draws. The walk over a
-- tree is smithay's: what it visits, and where, is given, and `descend` is what it asks of a surface. The
-- part of the buffer that is shown is a rectangle of f64, of any type, with the operations on it.
use ihs_wl_server.Prelude.{
  ℕ, ◌+◌, ◌%◌, u32_mod, Bool, false, List, [], ◌∷◌, ◌++◌, Option, none, some, if◌then◌else◌, any,
}
use ihs_wl_server.Prelude.Int.{ℤ, pos, ◌+ℤ◌, wrap_i32}
use ihs_wl_server.Buffers.{BufferKey}
use ihs_wl_server.Submit.Holds.{Held}
use ihs_wl_server.Submit.Views.{Content}
use ihs_wl_server.Staging.{Ring, Request, Staged, stage}
use ihs_wl_server.Staging.Copy.{Rect}
use ihs_wl_server.Tree.Orientation.{Transform, transform_value, after_y_flip}

-- `to_buffer` takes the scale, the transform and the buffer's size, `mirror` the buffer's height.
pub record Geometry (Src : Type 0) : Type 0 where
  pub to_buffer : (scale : ℕ) → Transform → ℕ × ℕ → Src → Src
  pub mirror : (height : ℕ) → Src → Src
  pub contains_rect : Rect → Rect → Bool

-- What is drawn, whether its rows are stored bottom first, and how many there are.
pub record Picture : Type 0 where
  pub content : Content
  pub y_inverted : Bool
  pub height : ℕ

-- A buffer: its object, its size, what the dma-buf and EGL imports make of it, what it is staged from, and
-- the dma-buf of each staging slot.
pub record Buffer : Type 0 where
  pub id : ℕ
  pub size : ℕ × ℕ
  pub dmabuf : Option Picture
  pub egl : Option Picture
  pub source : Option Request
  pub slot : ℕ → Picture

-- Where a mapped surface's content is: its offset from its parent, its size, and the part shown.
pub record View (Src : Type 0) : Type 0 where
  pub offset : ℤ × ℤ
  pub size : ℤ × ℤ
  pub src : Src

-- The state of a surface, as far as it is read; with its staging ring, and its layer id if it had one.
pub record Surface (Src : Type 0) : Type 0 where
  pub view : Option (View Src)
  pub buffer : Option Buffer
  pub scale : ℕ
  pub transform : Transform
  pub opaque_regions : Option (List Rect)
  pub generation : ℕ
  pub ring : Ring
  pub layer_id : Option ℕ

pub record LayerSpec (Src : Type 0) : Type 0 where
  pub layer_id : ℕ
  pub held : Held
  pub key : BufferKey
  pub content : Content
  pub src : Src
  pub dst : Rect
  pub transform : ℕ
  pub opaque : Bool
  pub generation : ℕ

-- `Built`, with the counters of staging slots and of layer ids.
pub record Built (Src : Type 0) : Type 0 where
  pub layers : List (LayerSpec Src)
  pub skipped : ℕ
  pub retired : List ℕ
  pub next_uid : ℕ
  pub next_layer : ℕ

abbrev pub moved : ℤ × ℤ → ℤ × ℤ → ℤ × ℤ
moved (x, y) (dx, dy) = (wrap_i32 (x +ℤ dx), wrap_i32 (y +ℤ dy))

-- What a surface shows: the picture, what holds its buffer, and the key of its buffer id.
pub record Shown : Type 0 where
  pub picture : Picture
  pub held : Held
  pub key : BufferKey

-- What was found to show, the ring after it, the uids to retire, and the counter of slots.
pub record Found : Type 0 where
  pub shown : Option Shown
  pub ring : Ring
  pub retired : List ℕ
  pub next_uid : ℕ

abbrev pub staged_as : (slot : ℕ → Picture) → Option Staged → Option Shown
staged_as slot none = none
staged_as slot (some s) =
    some (record { picture = slot s.uid; held = Held.staged s.uid; key = BufferKey.staged s.uid })

-- The client's own buffer, as a dma-buf or an EGL image; else it is staged.
abbrev pub import : Option Picture → Option Picture → Option Picture
import (some p) egl = some p
import none egl = egl

abbrev pub stage_source : (slot : ℕ → Picture) → Option Request → (next_uid : ℕ) → Ring → Found
stage_source slot none next ring = record {
  shown = none;
  ring = ring;
  retired = [];
  next_uid = next;
}
stage_source slot (some q) next ring =
    let o = stage q next ring in
    record {
      shown = staged_as slot o.staged;
      ring = o.ring;
      retired = o.retired;
      next_uid = o.next_uid;
    }

unfoldable pub find_content : Buffer → (next_uid : ℕ) → Ring → Found
find_content b next ring = elim (import b.dmabuf b.egl) [
  | some p ↦ record {
    shown = some (record { picture = p; held = Held.client b.id; key = BufferKey.client b.id });
    ring = ring;
    retired = [];
    next_uid = next;
  }
  | none ↦ stage_source b.slot b.source next ring
]

-- The surface's layer id, handed out when it is first asked for. The counter is a u32.
abbrev pub layer_id : Option ℕ → (next : ℕ) → ℕ × ℕ
layer_id none next = (next, (next + 1) % u32_mod)
layer_id (some i) next = (i, next)

module _ {Src : Type 0} (geometry : Geometry Src) where
  -- Whether the walk goes on to the surface's children, and where they are.
  unfoldable pub descend : Surface Src → ℤ × ℤ → Option (ℤ × ℤ)
  descend s at = elim s.view [ none ↦ none | some v ↦ some (moved at v.offset) ]

  abbrev pub is_opaque : Option (List Rect) → Rect → Bool
  is_opaque none whole = false
  is_opaque (some regions) whole = any (λ r. geometry.contains_rect r whole) regions

  unfoldable pub spec :
      Surface Src → View Src → Buffer → ℤ × ℤ → Shown → (layer : ℕ) → LayerSpec Src
  spec s v b at shown layer =
      let src = geometry.to_buffer s.scale s.transform b.size v.src in
      let place = moved at v.offset in
      record {
        layer_id = layer;
        held = shown.held;
        key = shown.key;
        content = shown.picture.content;
        src = if shown.picture.y_inverted then geometry.mirror shown.picture.height src else src;
        dst = record { x = place.0; y = place.1; w = v.size.0; h = v.size.1 };
        transform =
            transform_value
              (if shown.picture.y_inverted then after_y_flip s.transform else s.transform);
        opaque =
            is_opaque s.opaque_regions
              (record { x = pos 0; y = pos 0; w = v.size.0; h = v.size.1 });
        generation = s.generation;
      }

  -- The surface is a layer, or it is counted as skipped.
  abbrev pub add :
      Surface Src → View Src → Buffer → ℤ × ℤ → Option Shown → Built Src → Surface Src × Built Src
  add s v b at none built = (s, record built { skipped = built.skipped + 1 })
  add s v b at (some shown) built =
      let (i, next) = layer_id s.layer_id built.next_layer in
      (
        record s { layer_id = some i },
        record built { layers = built.layers ++ spec s v b at shown i ∷ []; next_layer = next },
      )

  -- A surface that is not mapped, or has no buffer, is passed over.
  abbrev pub visit_shown :
      Option (View Src) → Option Buffer → Surface Src → ℤ × ℤ → Built Src → Surface Src × Built Src
  visit_shown none b s at built = (s, built)
  visit_shown (some v) none s at built = (s, built)
  visit_shown (some v) (some b) s at built =
      let found = find_content b built.next_uid s.ring in
      add (record s { ring = found.ring }) v b at found.shown
        (record built { retired = built.retired ++ found.retired; next_uid = found.next_uid })

  unfoldable pub visit : Surface Src → ℤ × ℤ → Built Src → Surface Src × Built Src
  visit s at built = visit_shown s.view s.buffer s at built

  -- A tree, as the walk visits its surfaces, each where the walk says.
  unfoldable pub build_tree :
      List (Surface Src × (ℤ × ℤ)) → Built Src → List (Surface Src) × Built Src
  build_tree [] built = ([], built)
  build_tree ((s, at) ∷ rest) built =
      let one = visit s at built in let after = build_tree rest one.1 in (one.0 ∷ after.0, after.1)

  unfoldable pub build_trees :
      List (List (Surface Src × (ℤ × ℤ))) → Built Src → List (Surface Src) × Built Src
  build_trees [] built = ([], built)
  build_trees (tree ∷ trees) built =
      let one = build_tree tree built in
      let after = build_trees trees one.1 in (one.0 ++ after.0, after.1)

  -- The trees one after the other, bottom to top, with the counters as they stand.
  unfoldable pub build :
      List (List (Surface Src × (ℤ × ℤ)))
      → (next_uid next_layer : ℕ) → List (Surface Src) × Built Src
  build trees next_uid next_layer = build_trees trees (record {
    layers = [];
    skipped = 0;
    retired = [];
    next_uid = next_uid;
    next_layer = next_layer;
  })
