-- ===== src/Submit/Views.antt =====
-- `submit_tree` and `clear_view` of src/submit.rs, for one view. The layers that the tree's surfaces
-- were built into, and the most that the shell takes, are given, and so is what the shell answers:
-- whether the view is still linked to it, whether it accepts, and a fence for each layer, or none.
pub mod Fds
pub mod Seqs
use ihs_wl_server.Prelude.{
  ℕ, suc, ◌+◌, Bool, true, false, not, ◌&&◌, ◌||◌, List, [], ◌∷◌, ◌++◌, map, Option, none, some,
  ◌==◌, if◌then◌else◌, take,
}
use ihs_wl_server.Buffers.{BufferKey, BufferIds, id_for}
use ihs_wl_server.Submit.Holds.{Held, Holds, hold_fenced, hold_unfenced}
use ihs_wl_server.Submit.Planes.{PlaneIn, Plane, close_frame, Outcome, frame, failed, frame_for}

pub data Content : Type 0 where
  dmabuf : List PlaneIn → Content
  image : Content

-- `LayerSpec`, without its geometry.
pub record Layer : Type 0 where
  pub key : BufferKey
  pub held : Held
  pub layer_id : ℕ
  pub generation : ℕ
  pub content : Content

-- `ViewEntry`, as far as a submit reads and writes it.
pub record View : Type 0 where
  pub seq : ℕ
  pub cleared : Bool
  pub holds : Holds

-- A fence: none where the shell gave none, else what the event loop answers to its source.
pub record Answer : Type 0 where
  pub linked : Bool
  pub accepted : Bool
  pub fences : List (Option (Option ℕ))

abbrev pub close_all : List (List Plane) → List ℕ
close_all [] = []
close_all (ps ∷ pss) = close_frame ps ++ close_all pss

-- The dups made, frame by frame; the frames (an image has no planes), or none after a failed dup; and
-- the fds closed again.
pub record Prepared : Type 0 where
  pub ids : BufferIds
  pub made : List (List ℕ)
  pub frames : Option (List (List Plane))
  pub closed : List ℕ

-- Each layer gets its buffer's id, and its frame.
unfoldable pub prepare_all : (view : ℕ) → BufferIds → List (List Plane) → List Layer → Prepared
prepare_all view ids done [] = record { ids = ids; made = []; frames = some done; closed = [] }
prepare_all view ids done (l ∷ ls) =
    let ids' = (id_for ids l.key view).0 in
    elim l.content [
      | image ↦ prepare_all view ids' (done ++ [] ∷ []) ls
      | dmabuf ps ↦ elim (frame_for ps).outcome [
        | frame planes ↦
            let rest = prepare_all view ids' (done ++ planes ∷ []) ls in
            record rest { made = (frame_for ps).dups ∷ rest.made }
        | failed closed ↦ record {
          ids = ids';
          made = (frame_for ps).dups ∷ [];
          frames = none;
          closed = closed ++ close_all done;
        }
      ]
    ]

-- Each layer's buffer is held until its fence signals or the frame is reported.
unfoldable pub hold_all : (seq : ℕ) → List Layer → List (Option (Option ℕ)) → Holds → Holds
hold_all seq [] fences h = h
hold_all seq (l ∷ ls) [] h = h
hold_all seq (l ∷ ls) (none ∷ fences) h = hold_all seq ls fences (hold_unfenced seq l.held h)
hold_all seq (l ∷ ls) (some inserted ∷ fences) h =
    hold_all seq ls fences (hold_fenced h l.held inserted).0

-- The view, the ids, the frame's seq with what it shows, the dups made, the fds closed, and the
-- frames that are the shell's to close.
pub record Submitted : Type 0 where
  pub view : View
  pub ids : BufferIds
  pub result : Option (ℕ × List (ℕ × ℕ))
  pub made : List (List ℕ)
  pub closed : List ℕ
  pub handed : List (List Plane)

unfoldable pub clear_view : Answer → View → View
clear_view a v =
    if v.cleared || v.seq == 0 || not a.linked || not a.accepted
    then v
    else record v { seq = v.seq + 1; cleared = true }

abbrev pub shown_layers : List Layer → List (ℕ × ℕ)
shown_layers = map λ (l : Layer). (l.layer_id, l.generation)

-- The frames go to the shell, if it still has the view. A frame that it refuses is its to close all
-- the same, and the fences are dropped.
unfoldable pub hand_over : Answer → View → List Layer → Prepared → List (List Plane) → Submitted
hand_over a v ls p frames =
    if not a.linked
    then record {
      view = v;
      ids = p.ids;
      result = none;
      made = p.made;
      closed = p.closed ++ close_all frames;
      handed = [];
    }
    else record {
      view =
          if a.accepted
          then record {
            seq = v.seq + 1;
            cleared = false;
            holds = hold_all (v.seq + 1) ls a.fences v.holds;
          }
          else v;
      ids = p.ids;
      result = if a.accepted then some (v.seq + 1, shown_layers ls) else none;
      made = p.made;
      closed = p.closed;
      handed = frames;
    }

abbrev pub hand_over_if :
    Answer → View → List Layer → Prepared → Option (List (List Plane)) → Submitted
hand_over_if a v ls p none = record {
  view = v;
  ids = p.ids;
  result = none;
  made = p.made;
  closed = p.closed;
  handed = [];
}
hand_over_if a v ls p (some frames) = hand_over a v ls p frames

-- With nothing that the shell can show, the view shows nothing.
unfoldable pub submit_tree :
    (max_layers view : ℕ) → Answer → BufferIds → List Layer → View → Submitted
submit_tree max_layers view a ids [] v = record {
  view = clear_view a v;
  ids = ids;
  result = none;
  made = [];
  closed = [];
  handed = [];
}
submit_tree max_layers view a ids (l ∷ ls) v =
    let specs = take max_layers (l ∷ ls) in
    let p = prepare_all view ids [] specs in hand_over_if a v specs p p.frames
