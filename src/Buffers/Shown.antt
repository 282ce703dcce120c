-- ===== src/Buffers/Shown.antt =====
-- The buffer map of src/buffers.rs against its history: which views a buffer is to be retired in.
use ihs_wl_server.Prelude.{
  ◌∙◌, ap, ℕ, ◌≡◌, refl, inl, inr, Bool, false, ◌&&◌, ◌||◌, List, [], ◌∷◌, Option, none, some, ◌==◌,
  if◌then◌else◌, contains, arith, ==_iff, Option-cases,
}
use ihs_wl_server.Buffers.{
  BufferKey, key_eq, Entry, BufferIds, no_buffers, find, note_shown, id_for, destroyed, forget_view,
  next_id,
}
use ihs_wl_server.Buffers.Maps.{
  key_eq_iff, find-put, find-remove, find-forget, contains-retain, contains-note_shown,
}

-- What happens to buffers; a history is newest first.
pub data Use : Type 0 where
  submitted : BufferKey → ℕ → Use
  gone : BufferKey → Use
  view_gone : ℕ → Use

unfoldable pub step : Use → BufferIds → BufferIds
step (submitted k v) ids = (id_for ids k v).0
step (gone k) ids = (destroyed ids k).0
step (view_gone v) ids = forget_view ids v

unfoldable pub run : List Use → BufferIds
unfolding step
run [] = no_buffers
run (u ∷ us) = step u (run us)

-- Whether the buffer was submitted to the view since it, and the view, last went away.
abbrev pub shown_since : List Use → BufferKey → ℕ → Bool
shown_since [] k v = false
shown_since (submitted j w ∷ us) k v = (key_eq j k && w == v) || shown_since us k v
shown_since (gone j ∷ us) k v = if key_eq j k then false else shown_since us k v
shown_since (view_gone w ∷ us) k v = if w == v then false else shown_since us k v

abbrev pub entry_shows : Option Entry → ℕ → Bool
entry_shows none v = false
entry_shows (some e) v = contains e.views v

-- Whether a buffer's retirement would reach the view.
abbrev pub shows : BufferIds → BufferKey → ℕ → Bool
shows ids k v = entry_shows (find k ids.by_buffer) v

shows-id_for :
    (ids : BufferIds) (j k : BufferKey) (w v : ℕ)
    → shows (id_for ids j w).0 k v ≡ ((key_eq j k && w == v) || shows ids k v)
unfolding id_for
shows-id_for ids j k w v =
    let fresh : Entry = record { id = next_id ids.last; views = [] } in
    elim (Option-cases (find j ids.by_buffer)) [
      | inl e ↦ ground (
        arith,
        e,
        find-put j k (note_shown w fresh) ids.by_buffer,
        contains-note_shown v w fresh,
        key_eq_iff j k,
      )
      | inr (d, e) ↦ ground (
        arith,
        e,
        find-put j k (note_shown w d) ids.by_buffer,
        contains-note_shown v w d,
        key_eq_iff j k,
      )
    ]

shows-destroyed :
    (ids : BufferIds) (j k : BufferKey) (v : ℕ)
    → shows (destroyed ids j).0 k v ≡ (if key_eq j k then false else shows ids k v)
unfolding destroyed
shows-destroyed ids j k v = ground (arith, find-remove j k ids.by_buffer, key_eq_iff j k)

shows-forget_view :
    (ids : BufferIds) (k : BufferKey) (w v : ℕ)
    → shows (forget_view ids w) k v ≡ (if w == v then false else shows ids k v)
unfolding forget_view
shows-forget_view ids k w v = elim (Option-cases (find k ids.by_buffer)) [
  | inl e ↦ ground (arith, e, find-forget w k ids.by_buffer)
  | inr (d, e) ↦
      ground (
        arith,
        e,
        find-forget w k ids.by_buffer,
        contains-retain v w d.views,
        ==_iff w v,
        ==_iff v w,
      )
]

-- When a buffer is destroyed, the views it is retired in are exactly those it was submitted to since
-- it last went away, except views that have themselves gone since.
pub shows-run : (us : List Use) (k : BufferKey) (v : ℕ) → shows (run us) k v ≡ shown_since us k v
unfolding run
shows-run [] k v = unfold find in refl
shows-run (submitted j w ∷ us) k v =
    shows-id_for (run us) j k w v ∙ ap (λ b. (key_eq j k && w == v) || b) (shows-run us k v)
shows-run (gone j ∷ us) k v =
    shows-destroyed (run us) j k v ∙ ap (λ b. if key_eq j k then false else b) (shows-run us k v)
shows-run (view_gone w ∷ us) k v =
    shows-forget_view (run us) k w v ∙ ap (λ b. if w == v then false else b) (shows-run us k v)

-- What `destroyed` hands back is what `shows` tells of.
abbrev pub retired_in : Option (ℕ × List ℕ) → ℕ → Bool
retired_in none v = false
retired_in (some (id, views)) v = contains views v

-- So `destroyed` hands back those views, and the buffer is forgotten.
pub destroyed_lem :
    (us : List Use) (k : BufferKey) (v : ℕ)
    → (retired_in (destroyed (run us) k).1 v ≡ shown_since us k v)
      × (find k (destroyed (run us) k).0.by_buffer ≡ none)
unfolding destroyed
destroyed_lem us k v = (
  ground (arith, shows-run us k v),
  ground (arith, find-remove k k (run us).by_buffer, (key_eq_iff k k).1 refl),
)
