-- ===== src/Buffers/Ids.antt =====
-- The ids that src/buffers.rs hands out: never 0, stable while the buffer lives, never shared.
use ihs_wl_server.Prelude.{
  ◌∙◌, sym, length, ℕ, ◌+◌, ◌<◌, ◌≤◌, ◌≡◌, refl, List, [], ◌∷◌, Option, none, some, arith,
  Option-cases, u32_mod, inl, inr,
}
use ihs_wl_server.Buffers.{
  BufferKey, Entry, BufferIds, no_buffers, find, put, note_shown, id_for, destroyed, forget_view,
  next_id,
}
use ihs_wl_server.Buffers.Maps.{
  key_eq_iff, find-put, find-remove, forget_entry, find-forget, id-note_shown,
}
use ihs_wl_server.Buffers.Shown.{Use, submitted, gone, view_gone, step, run}

pub record IsValid (ids : BufferIds) : Type 0 where
  pub range :
      (k : BufferKey) (e : Entry) → find k ids.by_buffer ≡ some e → (0 < e.id) × (e.id ≤ ids.last)
  pub unique :
      (j k : BufferKey) (d e : Entry)
      → find j ids.by_buffer ≡ some d
      → find k ids.by_buffer ≡ some e
      → d.id ≡ e.id
      → j ≡ k

no_buffers-IsValid : IsValid no_buffers
unfolding find
no_buffers-IsValid = record { range = λ k e h. cc; unique = λ j k d e p q r. cc }

-- A buffer that has an id keeps it.
known-IsValid :
    (ids : BufferIds) (k : BufferKey) (old new : Entry)
    → find k ids.by_buffer ≡ some old
    → new.id ≡ old.id
    → IsValid ids
    → IsValid (record ids { by_buffer = put k new ids.by_buffer })
known-IsValid ids k old new e same h = record {
  range = λ j d p. ground (arith, find-put k j new ids.by_buffer, h.range j d, h.range k old e);
  unique = λ i j c d p q r. ground (
    arith,
    find-put k i new ids.by_buffer,
    find-put k j new ids.by_buffer,
    key_eq_iff k i,
    key_eq_iff k j,
    h.unique i j c d,
    h.unique k j old d e,
    h.unique i k c old,
  );
}

-- A new one gets an id above all before it, short of the wrap.
fresh-IsValid :
    (ids : BufferIds) (k : BufferKey) (new : Entry)
    → find k ids.by_buffer ≡ none
    → new.id ≡ ids.last + 1
    → IsValid ids
    → IsValid (record ids { last = ids.last + 1; by_buffer = put k new ids.by_buffer })
fresh-IsValid ids k new e above h = record {
  range = λ j d p. ground (arith, find-put k j new ids.by_buffer, h.range j d);
  unique = λ i j c d p q r. ground (
    arith,
    find-put k i new ids.by_buffer,
    find-put k j new ids.by_buffer,
    key_eq_iff k i,
    key_eq_iff k j,
    h.unique i j c d,
    h.range i c,
    h.range j d,
  );
}

next_id_lem : (n : ℕ) → n + 1 < u32_mod → next_id n ≡ n + 1
unfolding next_id
next_id_lem n h = omega arith

id_for-IsValid :
    (ids : BufferIds) (k : BufferKey) (v : ℕ)
    → ids.last + 1 < u32_mod
    → IsValid ids
    → IsValid (id_for ids k v).0
unfolding id_for
id_for-IsValid ids k v room h =
    let fresh : Entry = record { id = next_id ids.last; views = [] } in
    elim (Option-cases (find k ids.by_buffer)) [
      | inl e ↦
          rw (e, id_for)
            (rw (next_id_lem ids.last room) (
              fresh-IsValid ids k (note_shown v (record { id = ids.last + 1; views = [] })) e
                (id-note_shown v (record { id = ids.last + 1; views = [] })) h))
      | inr (d, e) ↦ rw (e, id_for) (known-IsValid ids k d (note_shown v d) e (id-note_shown v d) h)
    ]

destroyed-IsValid : (ids : BufferIds) (k : BufferKey) → IsValid ids → IsValid (destroyed ids k).0
unfolding destroyed
destroyed-IsValid ids k h = elim (Option-cases (find k ids.by_buffer)) [
  | inl e ↦ rw (e, destroyed) h
  | inr (d, e) ↦
      rw (e, destroyed)
        (record {
          range = λ j c p. ground (arith, find-remove k j ids.by_buffer, h.range j c);
          unique = λ i j c d p q r. ground (
            arith,
            find-remove k i ids.by_buffer,
            find-remove k j ids.by_buffer,
            h.unique i j c d,
          );
        })
]

forget_found :
    (v : ℕ) (o : Option Entry) (e : Entry)
    → forget_entry v o ≡ some e
    → (d : Entry) × (o ≡ some d) × (d.id ≡ e.id)
forget_found v none e h = cc
forget_found v (some d) e h = (d, refl, ground arith)

forget_view-IsValid : (ids : BufferIds) (v : ℕ) → IsValid ids → IsValid (forget_view ids v)
unfolding forget_view
forget_view-IsValid ids v h = record {
  range = λ k e p.
      let (d, f, s) =
        forget_found v (find k ids.by_buffer) e (sym (find-forget v k ids.by_buffer) ∙ p) in
      ground (arith, h.range k d f, s);
  unique = λ j k d e p q r.
      let (d', f, s) =
        forget_found v (find j ids.by_buffer) d (sym (find-forget v j ids.by_buffer) ∙ p) in
      let (e', g, t) =
        forget_found v (find k ids.by_buffer) e (sym (find-forget v k ids.by_buffer) ∙ q) in
      h.unique j k d' e' f g (s ∙ r ∙ sym t);
}

-- No more ids are handed out than buffers are submitted.
last-step : (u : Use) (ids : BufferIds) → (step u ids).last ≤ ids.last + 1
unfolding step id_for destroyed forget_view next_id
last-step (submitted k v) ids = ground arith
last-step (gone k) ids = ground arith
last-step (view_gone v) ids = omega arith

last-run : (us : List Use) → (run us).last ≤ length us
unfolding run
last-run [] = omega arith
last-run (u ∷ us) = omega (arith, last-step u (run us), last-run us)

step-IsValid :
    (u : Use) (ids : BufferIds) → ids.last + 1 < u32_mod → IsValid ids → IsValid (step u ids)
unfolding step
step-IsValid (submitted k v) ids room h = id_for-IsValid ids k v room h
step-IsValid (gone k) ids room h = destroyed-IsValid ids k h
step-IsValid (view_gone v) ids room h = forget_view-IsValid ids v h

-- Over any history of fewer than 2^32 - 1 uses, each live buffer has an id that is not 0 and that no
-- other live buffer has.
pub run-IsValid : (us : List Use) → length us < u32_mod → IsValid (run us)
unfolding run
run-IsValid [] room = no_buffers-IsValid
run-IsValid (u ∷ us) room =
    step-IsValid u (run us) (omega (arith, last-run us)) (run-IsValid us (omega arith))

-- What `id_for` returns is the id that the buffer has from then on, and the one it had before.
id_for_stable :
    (ids : BufferIds) (k : BufferKey) (v : ℕ)
    → ((e : Entry) × (find k (id_for ids k v).0.by_buffer ≡ some e) × (e.id ≡ (id_for ids k v).1))
      × ((d : Entry) → find k ids.by_buffer ≡ some d → (id_for ids k v).1 ≡ d.id)
unfolding id_for
id_for_stable ids k v =
    let fresh : Entry = record { id = next_id ids.last; views = [] } in
    let self = (key_eq_iff k k).1 refl in
    elim (Option-cases (find k ids.by_buffer)) [
      | inl e ↦ (
        (
          note_shown v fresh,
          ground (arith, e, find-put k k (note_shown v fresh) ids.by_buffer, self),
          ground (arith, e, id-note_shown v fresh),
        ),
        λ d p. ground (arith, e, p),
      )
      | inr (c, e) ↦ (
        (
          note_shown v c,
          ground (arith, e, find-put k k (note_shown v c) ids.by_buffer, self),
          ground (arith, e, id-note_shown v c),
        ),
        λ d p. ground (arith, e, p),
      )
    ]
