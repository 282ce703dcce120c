-- ===== src/Submit/Views/Fds.antt =====
-- The fds of a submit of src/submit.rs.
use ihs_wl_server.Prelude.{
  ℕ, ◌+◌, ◌≡◌, refl, ap, List, [], ◌∷◌, ◌++◌, Option, none, some, if◌then◌else◌, contains, count,
  count-append, take, arith, Bool-cases, inl, inr, ◌⊎◌,
}
use ihs_wl_server.Buffers.{BufferIds, id_for}
use ihs_wl_server.Submit.Planes.{
  close_from, PlaneIn, Plane, close_frame, Outcome, frame, failed, frame_for,
}
use ihs_wl_server.Submit.Planes.Closed.{frame_for-closes}
use ihs_wl_server.Submit.Views.{
  Content, dmabuf, image, Layer, View, Answer, close_all, Prepared, prepare_all, hand_over,
  hand_over_if, submit_tree,
}

-- In how many frames the fd was made by a dup.
abbrev pub times_made : ℕ → List (List ℕ) → ℕ
times_made a [] = 0
times_made a (d ∷ ds) = (if contains d a then 1 else 0) + times_made a ds

close_all-snoc :
    (a : ℕ) (pss : List (List Plane)) (ps : List Plane)
    → count a (close_all (pss ++ ps ∷ [])) ≡ count a (close_all pss) + count a (close_frame ps)
close_all-snoc a [] ps = ground (arith, count-append a (close_frame ps) [])
close_all-snoc a (qs ∷ pss) ps = omega (
  arith,
  close_all-snoc a pss ps,
  count-append a (close_frame qs) (close_all (pss ++ ps ∷ [])),
  count-append a (close_frame qs) (close_all pss),
)

abbrev pub frames_of : Option (List (List Plane)) → List (List Plane)
frames_of none = []
frames_of (some frames) = frames

close_none : (a : ℕ) → count a (close_frame []) ≡ 0
unfolding close_frame close_from
close_none a = refl

pub Content-cases : (c : Content) → (c ≡ image) ⊎ ((ps : List PlaneIn) × (c ≡ dmabuf ps))
Content-cases image = inl refl
Content-cases (dmabuf ps) = inr (ps, refl)

pub Outcome-cases :
    (o : Outcome) → ((ps : List Plane) × (o ≡ frame ps)) ⊎ ((fds : List ℕ) × (o ≡ failed fds))
Outcome-cases (frame ps) = inl (ps, refl)
Outcome-cases (failed fds) = inr (fds, refl)

-- What is closed, and what is left to close, is what was there and what was made.
prepare_all-closes :
    (a view : ℕ) (ids : BufferIds) (done : List (List Plane)) (ls : List Layer)
    → let p = prepare_all view ids done ls in
      count a p.closed + count a (close_all (frames_of p.frames))
      ≡ count a (close_all done) + times_made a p.made
unfolding prepare_all
prepare_all-closes a view ids done [] = omega arith
prepare_all-closes a view ids done (l ∷ ls) =
    let ids' = (id_for ids l.key view).0 in
    elim (Content-cases l.content) [
      | inl e ↦ ground (
        arith,
        e,
        prepare_all-closes a view ids' (done ++ [] ∷ []) ls,
        close_all-snoc a done [],
        close_none a,
      )
      | inr (ps, e) ↦ elim (Outcome-cases (frame_for ps).outcome) [
        | inl (planes, f) ↦ ground (
          arith,
          e,
          f,
          prepare_all-closes a view ids' (done ++ planes ∷ []) ls,
          close_all-snoc a done planes,
          frame_for-closes ps a,
        )
        | inr (fds, f) ↦
            ground (arith, e, f, frame_for-closes ps a, count-append a fds (close_all done))
      ]
    ]

hand_over_if-closes :
    (b : Answer) (v : View) (ls : List Layer) (p : Prepared) (o : Option (List (List Plane)))
    (a : ℕ)
    → let s = hand_over_if b v ls p o in
      count a s.closed + count a (close_all s.handed)
      ≡ count a p.closed + count a (close_all (frames_of o))
unfolding hand_over
hand_over_if-closes b v ls p none a = refl
hand_over_if-closes b v ls p (some frames) a = elim (Bool-cases b.linked) [
  | inl e ↦ ground (arith, e)
  | inr e ↦ ground (arith, e, count-append a p.closed (close_all frames))
]

hand_over_if-made :
    (b : Answer) (v : View) (ls : List Layer) (p : Prepared) (o : Option (List (List Plane)))
    → (hand_over_if b v ls p o).made ≡ p.made
unfolding hand_over
hand_over_if-made b v ls p none = refl
hand_over_if-made b v ls p (some frames) = ground arith

-- Whichever way a submit ends (no layers, a failed dup, a view disposed of meanwhile, a refusal, or a
-- frame submitted), each fd that a dup made for a frame is closed once, here or by the shell, which owns
-- the frames that it was handed; and no other fd is closed.
pub submit_tree-closes :
    (max_layers view : ℕ) (b : Answer) (ids : BufferIds) (ls : List Layer) (v : View) (a : ℕ)
    → let s = submit_tree max_layers view b ids ls v in
      count a s.closed + count a (close_all s.handed) ≡ times_made a s.made
unfolding submit_tree
submit_tree-closes max_layers view b ids [] v a = refl
submit_tree-closes max_layers view b ids (l ∷ ls) v a =
    let specs = take max_layers (l ∷ ls) in
    let p = prepare_all view ids [] specs in
    omega (
      arith,
      hand_over_if-closes b v specs p p.frames a,
      prepare_all-closes a view ids [] specs,
      ap (times_made a) (hand_over_if-made b v specs p p.frames),
    )
