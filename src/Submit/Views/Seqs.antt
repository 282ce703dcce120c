-- ===== src/Submit/Views/Seqs.antt =====
-- The sequence numbers that a view of src/submit.rs submits its frames with.
use mathlib.Core.Path.{subst}
use ihs_wl_server.Prelude.{
  ℕ, ◌+◌, ◌≤◌, ◌≡◌, refl, List, [], ◌∷◌, ◌++◌, Option, none, some, take, arith, Bool-cases, inl,
  inr, ◌⊎◌,
}
use ihs_wl_server.Buffers.{BufferIds}
use ihs_wl_server.Timing.Taken.{Taken}
use ihs_wl_server.Timing.Frames.{Report}
use ihs_wl_server.Timing.Frames.History.{Op, submit, report, release_stale, flush_stale, unbind}
use ihs_wl_server.Timing.Frames.Bounds.{SeqsGrow}
use ihs_wl_server.Submit.Planes.{Plane}
use ihs_wl_server.Submit.Views.{
  shown_layers, Layer, View, Answer, Prepared, prepare_all, Submitted, clear_view, hand_over,
  hand_over_if, submit_tree,
}

-- What happens to one view: its tree is submitted with what its updates wait for, it is cleared, or
-- something of its frames' own happens.
pub data Step : Type 0 where
  submits : (now : ℕ) → Answer → List Layer → Taken → Step
  clears : Answer → Step
  reports : Report → Step
  goes_stale : ℕ → Step
  flushes : ℕ → Step
  unbinds : Answer → Step

-- A submit that went through is pushed to the frames.
abbrev pub pushed : ℕ → Taken → Option (ℕ × List (ℕ × ℕ)) → List Op
pushed now taken none = []
pushed now taken (some (seq, shown)) = submit now seq shown taken ∷ []

-- The history of the view's frames.
unfoldable pub frame_ops : (max_layers view : ℕ) → BufferIds → View → List Step → List Op
frame_ops max_layers view ids v [] = []
frame_ops max_layers view ids v (submits now a ls taken ∷ ss) =
    let s = submit_tree max_layers view a ids ls v in
    pushed now taken s.result ++ frame_ops max_layers view s.ids s.view ss
frame_ops max_layers view ids v (clears a ∷ ss) = frame_ops max_layers view ids (clear_view a v) ss
frame_ops max_layers view ids v (reports r ∷ ss) = report r ∷ frame_ops max_layers view ids v ss
frame_ops max_layers view ids v (goes_stale t ∷ ss) =
    release_stale t ∷ frame_ops max_layers view ids v ss
frame_ops max_layers view ids v (flushes t ∷ ss) =
    flush_stale t ∷ frame_ops max_layers view ids v ss
frame_ops max_layers view ids v (unbinds a ∷ ss) =
    unbind ∷ frame_ops max_layers view ids (clear_view a v) ss

SeqsGrow-lower : (m n : ℕ) (os : List Op) → m ≤ n → SeqsGrow n os → SeqsGrow m os
SeqsGrow-lower m n [] h g = tt
SeqsGrow-lower m n (submit now seq shown t ∷ os) h g = (omega (arith, g.0), g.1)
SeqsGrow-lower m n (report r ∷ os) h g = SeqsGrow-lower m n os h g
SeqsGrow-lower m n (release_stale t ∷ os) h g = SeqsGrow-lower m n os h g
SeqsGrow-lower m n (flush_stale t ∷ os) h g = SeqsGrow-lower m n os h g
SeqsGrow-lower m n (unbind ∷ os) h g = SeqsGrow-lower m n os h g

clear_view-seq : (a : Answer) (v : View) → v.seq ≤ (clear_view a v).seq
unfolding clear_view
clear_view-seq a v = ground arith

-- A submit takes the next number, and the view keeps it; or it takes none.
abbrev TakesNext : View → Submitted → Type 0
TakesNext v s =
    ((s.result ≡ none) × (v.seq ≤ s.view.seq))
    ⊎ ((shown : List (ℕ × ℕ)) × (s.result ≡ some (v.seq + 1, shown)) × (s.view.seq ≡ v.seq + 1))

hand_over_if-TakesNext :
    (a : Answer) (v : View) (ls : List Layer) (p : Prepared) (o : Option (List (List Plane)))
    → TakesNext v (hand_over_if a v ls p o)
unfolding hand_over
hand_over_if-TakesNext a v ls p none = inl (refl, omega arith)
hand_over_if-TakesNext a v ls p (some frames) = elim (Bool-cases a.linked) [
  | inr e ↦ inl (ground (arith, e), ground (arith, e))
  | inl e ↦ elim (Bool-cases a.accepted) [
    | inr f ↦ inl (ground (arith, e, f), ground (arith, e, f))
    | inl f ↦ inr (shown_layers ls, ground (arith, e, f), ground (arith, e, f))
  ]
]

submit_tree-TakesNext :
    (max_layers view : ℕ) (a : Answer) (ids : BufferIds) (ls : List Layer) (v : View)
    → TakesNext v (submit_tree max_layers view a ids ls v)
unfolding submit_tree
submit_tree-TakesNext max_layers view a ids [] v = inl (refl, clear_view-seq a v)
submit_tree-TakesNext max_layers view a ids (l ∷ ls) v =
    let specs = take max_layers (l ∷ ls) in
    let p = prepare_all view ids [] specs in hand_over_if-TakesNext a v specs p p.frames

pushed-SeqsGrow :
    (now : ℕ) (taken : Taken) (v : View) (s : Submitted) (os : List Op)
    → TakesNext v s
    → SeqsGrow s.view.seq os
    → SeqsGrow v.seq (pushed now taken s.result ++ os)
pushed-SeqsGrow now taken v s os (inl (e, le)) g = rw e (SeqsGrow-lower v.seq s.view.seq os le g)
pushed-SeqsGrow now taken v s os (inr (shown, e, f)) g =
    rw e (omega arith, subst (λ n. SeqsGrow n os) f g)

-- Whatever is submitted to a view, shown or not, refused, cleared or unbound in between: the frames
-- that are pushed for it carry numbers that grow, as run-presented of its frames asks.
pub frame_ops-SeqsGrow :
    (max_layers view : ℕ) (ids : BufferIds) (v : View) (ss : List Step)
    → SeqsGrow v.seq (frame_ops max_layers view ids v ss)
unfolding frame_ops
frame_ops-SeqsGrow max_layers view ids v [] = tt
frame_ops-SeqsGrow max_layers view ids v (submits now a ls taken ∷ ss) =
    let s = submit_tree max_layers view a ids ls v in
    pushed-SeqsGrow now taken v s (frame_ops max_layers view s.ids s.view ss)
      (submit_tree-TakesNext max_layers view a ids ls v)
      (frame_ops-SeqsGrow max_layers view s.ids s.view ss)
frame_ops-SeqsGrow max_layers view ids v (clears a ∷ ss) =
    SeqsGrow-lower v.seq (clear_view a v).seq (frame_ops max_layers view ids (clear_view a v) ss)
      (clear_view-seq a v) (frame_ops-SeqsGrow max_layers view ids (clear_view a v) ss)
frame_ops-SeqsGrow max_layers view ids v (reports r ∷ ss) =
    frame_ops-SeqsGrow max_layers view ids v ss
frame_ops-SeqsGrow max_layers view ids v (goes_stale t ∷ ss) =
    frame_ops-SeqsGrow max_layers view ids v ss
frame_ops-SeqsGrow max_layers view ids v (flushes t ∷ ss) =
    frame_ops-SeqsGrow max_layers view ids v ss
frame_ops-SeqsGrow max_layers view ids v (unbinds a ∷ ss) =
    SeqsGrow-lower v.seq (clear_view a v).seq (frame_ops max_layers view ids (clear_view a v) ss)
      (clear_view-seq a v) (frame_ops-SeqsGrow max_layers view ids (clear_view a v) ss)
