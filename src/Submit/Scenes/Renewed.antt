-- ===== src/Submit/Scenes/Renewed.antt =====
-- The ids of the buffers that a submit of src/submit.rs hands over, where buffers of theirs were gone.
use mathlib.Core.Path.{subst}
use ihs_wl_server.Prelude.{
  ℕ, zero, suc, ◌+◌, ◌<◌, ◌≤◌, ◌≡◌, refl, sym, ap, ◌∙◌, ◌⊎◌, inl, inr, true, List, [], ◌∷◌, ◌++◌,
  take, length, Option, none, some, ==_refl, contains, arith, Option-cases, All, u32_mod,
}
use ihs_wl_server.Buffers.{Entry, BufferKey, BufferIds, find, note_shown, next_id, id_for}
use ihs_wl_server.Buffers.Maps.{key_eq_iff, find-put, contains-note_shown, id-note_shown}
use ihs_wl_server.Submit.Planes.{Plane, frame_for}
use ihs_wl_server.Submit.Views.{
  Layer, View, Answer, Prepared, prepare_all, hand_over, hand_over_if, submit_tree,
}
use ihs_wl_server.Submit.Views.Fds.{Content-cases, Outcome-cases}

-- An id, if there is one, is newer than `last`.
abbrev pub IsRenewed : (last : ℕ) → Option Entry → Type 0
IsRenewed last none = Unit {0}
IsRenewed last (some e) = last < e.id

-- The buffer has an id, and is noted as shown in the view.
abbrev pub IsShownIn : (view : ℕ) → Option Entry → Type 0
IsShownIn view none = ⊥
IsShownIn view (some e) = contains e.views view ≡ true

next_id-last : (n : ℕ) → n + 1 < u32_mod → next_id n ≡ n + 1
unfolding next_id
next_id-last n h = omega arith

-- No more than one id is handed out.
abbrev Counts : (before after : ℕ) → Type 0
Counts before after = (before ≤ after) × (after ≤ before + 1)

id_for-last :
    (ids : BufferIds) (k : BufferKey) (view : ℕ)
    → ids.last + 1 < u32_mod
    → Counts ids.last (id_for ids k view).0.last
unfolding id_for
id_for-last ids k view h = elim (Option-cases (find k ids.by_buffer)) [
  | inl e ↦ ground (arith, e, next_id-last ids.last h)
  | inr (d, e) ↦ ground (arith, e)
]

id_for-IsRenewed :
    (last : ℕ) (ids : BufferIds) (k j : BufferKey) (view : ℕ)
    → last ≤ ids.last
    → ids.last + 1 < u32_mod
    → IsRenewed last (find j ids.by_buffer)
    → IsRenewed last (find j (id_for ids k view).0.by_buffer)
unfolding id_for
id_for-IsRenewed last ids k j view le h r = elim (Option-cases (find k ids.by_buffer)) [
  | inl e ↦
      let new : Entry = record { id = next_id ids.last; views = [] } in
      ground (
        arith,
        e,
        r,
        next_id-last ids.last h,
        find-put k j (note_shown view new) ids.by_buffer,
        id-note_shown view new,
      )
  | inr (d, e) ↦ ground (
    arith,
    e,
    r,
    key_eq_iff k j,
    find-put k j (note_shown view d) ids.by_buffer,
    id-note_shown view d,
  )
]

id_for-keeps :
    (ids : BufferIds) (k j : BufferKey) (view : ℕ)
    → IsShownIn view (find j ids.by_buffer)
    → IsShownIn view (find j (id_for ids k view).0.by_buffer)
unfolding id_for
id_for-keeps ids k j view s = elim (Option-cases (find k ids.by_buffer)) [
  | inl e ↦
      let new : Entry = record { id = next_id ids.last; views = [] } in
      ground (
        arith,
        e,
        s,
        ==_refl view,
        find-put k j (note_shown view new) ids.by_buffer,
        contains-note_shown view view new,
      )
  | inr (d, e) ↦ ground (
    arith,
    e,
    s,
    ==_refl view,
    find-put k j (note_shown view d) ids.by_buffer,
    contains-note_shown view view d,
  )
]

id_for-shows :
    (ids : BufferIds) (k : BufferKey) (view : ℕ)
    → IsShownIn view (find k (id_for ids k view).0.by_buffer)
unfolding id_for
id_for-shows ids k view = elim (Option-cases (find k ids.by_buffer)) [
  | inl e ↦
      let new : Entry = record { id = next_id ids.last; views = [] } in
      ground (
        arith,
        e,
        ==_refl view,
        key_eq_iff k k,
        find-put k k (note_shown view new) ids.by_buffer,
        contains-note_shown view view new,
      )
  | inr (d, e) ↦ ground (
    arith,
    e,
    ==_refl view,
    key_eq_iff k k,
    find-put k k (note_shown view d) ids.by_buffer,
    contains-note_shown view view d,
  )
]

module _ (view : ℕ) where
  prepare_all-IsRenewed :
      (last : ℕ) (ids : BufferIds) (j : BufferKey) (done : List (List Plane)) (ls : List Layer)
      → last ≤ ids.last
      → ids.last + length ls < u32_mod
      → IsRenewed last (find j ids.by_buffer)
      → IsRenewed last (find j (prepare_all view ids done ls).ids.by_buffer)
  unfolding prepare_all
  prepare_all-IsRenewed last ids j done [] le room r = r
  prepare_all-IsRenewed last ids j done (l ∷ ls) le room r =
      let ids' = (id_for ids l.key view).0 in
      let counts = id_for-last ids l.key view (omega (arith, room)) in
      let r' = id_for-IsRenewed last ids l.key j view le (omega (arith, room)) r in
      let rest = λ (more : List (List Plane)).
        prepare_all-IsRenewed last ids' j more ls (omega (arith, le, counts.0))
          (omega (arith, room, counts.1)) r' in
      elim (Content-cases l.content) [
        | inl e ↦ ground (arith, e, rest (done ++ [] ∷ []))
        | inr (ps, e) ↦ elim (Outcome-cases (frame_for ps).outcome) [
          | inl (planes, f) ↦ ground (arith, e, f, rest (done ++ planes ∷ []))
          | inr (fds, f) ↦ ground (arith, e, f, r')
        ]
      ]

  prepare_all-keeps :
      (ids : BufferIds) (j : BufferKey) (done : List (List Plane)) (ls : List Layer)
      → IsShownIn view (find j ids.by_buffer)
      → IsShownIn view (find j (prepare_all view ids done ls).ids.by_buffer)
  unfolding prepare_all
  prepare_all-keeps ids j done [] s = s
  prepare_all-keeps ids j done (l ∷ ls) s =
      let ids' = (id_for ids l.key view).0 in
      let s' = id_for-keeps ids l.key j view s in
      let rest = λ (more : List (List Plane)). prepare_all-keeps ids' j more ls s' in
      elim (Content-cases l.content) [
        | inl e ↦ ground (arith, e, rest (done ++ [] ∷ []))
        | inr (ps, e) ↦ elim (Outcome-cases (frame_for ps).outcome) [
          | inl (planes, f) ↦ ground (arith, e, f, rest (done ++ planes ∷ []))
          | inr (fds, f) ↦ ground (arith, e, f, s')
        ]
      ]

  -- Each of the layers has an id in the view.
  abbrev pub AllShown : BufferIds → List Layer → Type 0
  AllShown ids = All λ (l : Layer). IsShownIn view (find l.key ids.by_buffer)

  -- The first layer fails, or all that follows is as with the others alone.
  prepare_all-first :
      (ids : BufferIds) (done : List (List Plane)) (l : Layer) (ls : List Layer)
      → let p = prepare_all view ids done (l ∷ ls) in
        (p.frames ≡ none)
        ⊎ ((more : List (List Plane)) × (p.frames
              ≡ (prepare_all view (id_for ids l.key view).0 more ls).frames)
            × (p.ids ≡ (prepare_all view (id_for ids l.key view).0 more ls).ids))
  unfolding prepare_all
  prepare_all-first ids done l ls = elim (Content-cases l.content) [
    | inl e ↦ inr (done ++ [] ∷ [], ground (arith, e), ground (arith, e))
    | inr (ps, e) ↦ elim (Outcome-cases (frame_for ps).outcome) [
      | inl (planes, f) ↦ inr (done ++ planes ∷ [], ground (arith, e, f), ground (arith, e, f))
      | inr (fds, f) ↦ inl (ground (arith, e, f))
    ]
  ]

  prepare_all-AllShown :
      (ids : BufferIds) (done : List (List Plane)) (ls : List Layer)
      → let p = prepare_all view ids done ls in (p.frames ≡ none) ⊎ AllShown p.ids ls
  prepare_all-AllShown ids done [] = inr tt
  prepare_all-AllShown ids done (l ∷ ls) =
      let ids' = (id_for ids l.key view).0 in
      elim (prepare_all-first ids done l ls) [
        | inl e ↦ inl e
        | inr (more, e, f) ↦ elim (prepare_all-AllShown ids' more ls) [
          | inl g ↦ inl (e ∙ g)
          | inr s ↦ inr (
              subst (λ i. AllShown i (l ∷ ls)) (sym f)
                (prepare_all-keeps ids' l.key more ls (id_for-shows ids l.key view), s))
        ]
      ]

pub hand_over_if-ids :
    (a : Answer) (v : View) (ls : List Layer) (p : Prepared) (o : Option (List (List Plane)))
    → (hand_over_if a v ls p o).ids ≡ p.ids
unfolding hand_over
hand_over_if-ids a v ls p none = refl
hand_over_if-ids a v ls p (some frames) = ground arith

-- A submit that goes to the shell has an id for each layer in it.
pub submit_tree-AllShown :
    (max_layers view : ℕ) (a : Answer) (ids : BufferIds) (ls : List Layer) (v : View)
    → let r = submit_tree max_layers view a ids ls v in
      (r.result ≡ none) ⊎ AllShown view r.ids (take max_layers ls)
unfolding submit_tree
submit_tree-AllShown max_layers view a ids [] v = inl refl
submit_tree-AllShown max_layers view a ids (l ∷ ls) v =
    let specs = take max_layers (l ∷ ls) in
    let p = prepare_all view ids [] specs in
    elim (prepare_all-AllShown view ids [] specs) [
      | inl e ↦ inl (ap (λ o. (hand_over_if a v specs p o).result) e)
      | inr s ↦
          inr (subst (λ i. AllShown view i specs) (sym (hand_over_if-ids a v specs p p.frames)) s)
    ]

length-take-le : (n : ℕ) (ls : List Layer) → length (take n ls) ≤ n
length-take-le zero ls = omega arith
length-take-le (suc n) [] = omega arith
length-take-le (suc n) (l ∷ ls) = omega (arith, length-take-le n ls)

pub submit_tree-IsRenewed :
    (last max_layers view : ℕ) (a : Answer) (ids : BufferIds) (ls : List Layer) (v : View)
    (j : BufferKey)
    → last ≡ ids.last
    → last + max_layers < u32_mod
    → find j ids.by_buffer ≡ none
    → IsRenewed last (find j (submit_tree max_layers view a ids ls v).ids.by_buffer)
unfolding submit_tree
submit_tree-IsRenewed last max_layers view a ids [] v j same room h =
    subst (IsRenewed last) (sym h) tt
submit_tree-IsRenewed last max_layers view a ids (l ∷ ls) v j same room h =
    let specs = take max_layers (l ∷ ls) in
    let p = prepare_all view ids [] specs in
    subst (λ (i : BufferIds). IsRenewed last (find j i.by_buffer))
      (sym (hand_over_if-ids a v specs p p.frames))
      (prepare_all-IsRenewed view last ids j [] specs (omega (arith, same))
        (omega (arith, room, same, length-take-le max_layers (l ∷ ls)))
        (subst (IsRenewed last) (sym h) tt))
