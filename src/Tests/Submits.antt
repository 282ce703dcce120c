-- ===== src/Tests/Submits.antt =====
-- Runs of submit_tree of src/submit.rs: a frame shown, one whose second layer cannot be dupped, one for
-- a view that is gone.
use ihs_wl_server.Prelude.{◌≡◌, ◌+◌, refl, true, false, List, [], ◌∷◌, none, some, count}
use ihs_wl_server.Buffers
use ihs_wl_server.Buffers.{no_buffers}
use ihs_wl_server.Timing.Taken.{Taken}
use ihs_wl_server.Timing.Frames.Bounds.{SeqsGrow}
use ihs_wl_server.Submit.Holds.{Held, no_holds}
use ihs_wl_server.Submit.Holds
use ihs_wl_server.Submit.Planes.{frame_for, fill, close_frame, close_from, same_file}
use ihs_wl_server.Submit.Views.{
  dmabuf, image, Layer, View, Answer, close_all, submit_tree, prepare_all, hand_over,
}
use ihs_wl_server.Submit.Views.Fds.{times_made, submit_tree-closes}
use ihs_wl_server.Submit.Views.Seqs.{
  Step, submits, clears, goes_stale, unbinds, frame_ops, frame_ops-SeqsGrow,
}

abbrev new_view : View
new_view = record { seq = 0; cleared = false; holds = no_holds }

abbrev good : Layer
good = record {
  key = Buffers.client 5;
  held = Holds.client 5;
  layer_id = 1;
  generation = 3;
  content = dmabuf (record { file = some (1, 2); dup = some 50; offset = 0; stride = 256 } ∷ []);
}

abbrev undupped : Layer
undupped = record {
  key = Buffers.client 6;
  held = Holds.client 6;
  layer_id = 2;
  generation = 1;
  content = dmabuf (
      record { file = some (1, 3); dup = some 51; offset = 0; stride = 256 }
      ∷ record { file = some (1, 4); dup = none; offset = 0; stride = 256 }
      ∷ []);
}

abbrev drawn : Layer
drawn = record {
  key = Buffers.staged 9;
  held = Holds.staged 9;
  layer_id = 4;
  generation = 8;
  content = image;
}

abbrev accepts : Answer
accepts = record { linked = true; accepted = true; fences = some (some 40) ∷ none ∷ [] }

abbrev gone : Answer
gone = record { linked = false; accepted = false; fences = [] }

abbrev nothing_taken : Taken
nothing_taken = record { feedback = []; barriers = [] }

submit_tree-closes_example :
    let s = submit_tree 4 7 accepts no_buffers (good ∷ undupped ∷ []) new_view in
    count 50 s.closed + count 50 (close_all s.handed) ≡ times_made 50 s.made
submit_tree-closes_example =
    submit_tree-closes 4 7 accepts no_buffers (good ∷ undupped ∷ []) new_view 50

closed_both :
    (submit_tree 4 7 accepts no_buffers (good ∷ undupped ∷ []) new_view).closed ≡ 51 ∷ 50 ∷ []
unfolding submit_tree prepare_all hand_over frame_for fill close_frame close_from same_file
closed_both = refl

shown_both :
    (submit_tree 4 7 accepts no_buffers (good ∷ drawn ∷ []) new_view).result
    ≡ some (1, (1, 3) ∷ (4, 8) ∷ [])
unfolding submit_tree prepare_all hand_over frame_for fill close_frame close_from same_file
shown_both = refl

abbrev steps : List Step
steps =
    submits 10 accepts (good ∷ drawn ∷ []) nothing_taken
    ∷ submits 20 accepts (undupped ∷ []) nothing_taken
    ∷ clears accepts
    ∷ goes_stale 30
    ∷ submits 40 gone (good ∷ []) nothing_taken
    ∷ submits 50 accepts (drawn ∷ []) nothing_taken
    ∷ unbinds accepts
    ∷ []

frame_ops-SeqsGrow_example : SeqsGrow new_view.seq (frame_ops 4 7 no_buffers new_view steps)
frame_ops-SeqsGrow_example = frame_ops-SeqsGrow 4 7 no_buffers new_view steps
