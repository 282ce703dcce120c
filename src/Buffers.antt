-- ===== src/Buffers.antt =====
-- src/buffers.rs: the id of each buffer that the shell was handed, and the views it was shown in.
-- The hash map is an association list; an object id and a slot's uid are numbers.
pub mod Maps
pub mod Ids
pub mod Shown
use ihs_wl_server.Prelude.{
  ℕ, ◌+◌, ◌%◌, max, Bool, true, false, not, List, [], ◌∷◌, ◌++◌, map, Option, none, some, ◌==◌,
  if◌then◌else◌, retain, contains, u32_mod,
}

pub data BufferKey : Type 0 where
  client : ℕ → BufferKey
  staged : ℕ → BufferKey

unfoldable pub key_eq : BufferKey → BufferKey → Bool
key_eq (client a) (client b) = a == b
key_eq (client a) (staged b) = false
key_eq (staged a) (client b) = false
key_eq (staged a) (staged b) = a == b

pub record Entry : Type 0 where
  pub id : ℕ
  pub views : List ℕ

pub record BufferIds : Type 0 where
  pub last : ℕ
  pub by_buffer : List (BufferKey × Entry)

abbrev pub no_buffers : BufferIds
no_buffers = record { last = 0; by_buffer = [] }

unfoldable pub find : BufferKey → List (BufferKey × Entry) → Option Entry
find k [] = none
find k ((j, e) ∷ m) = if key_eq j k then some e else find k m

-- The view is noted once.
unfoldable pub note_shown : ℕ → Entry → Entry
note_shown view e = if contains e.views view then e else record e { views = e.views ++ view ∷ [] }

unfoldable pub put : BufferKey → Entry → List (BufferKey × Entry) → List (BufferKey × Entry)
put k e [] = (k, e) ∷ []
put k e ((j, d) ∷ m) = if key_eq j k then (j, e) ∷ m else (j, d) ∷ put k e m

unfoldable pub remove : BufferKey → List (BufferKey × Entry) → List (BufferKey × Entry)
remove k [] = []
remove k ((j, d) ∷ m) = if key_eq j k then remove k m else (j, d) ∷ remove k m

-- `last.wrapping_add(1).max(1)`: 0 is left unused.
unfoldable pub next_id : ℕ → ℕ
next_id last = max ((last + 1) % u32_mod) 1

unfoldable pub id_for : BufferIds → BufferKey → ℕ → BufferIds × ℕ
id_for ids key view = elim (find key ids.by_buffer) [
  | some e ↦ (record ids { by_buffer = put key (note_shown view e) ids.by_buffer }, e.id)
  | none ↦
      let e : Entry = record { id = next_id ids.last; views = [] } in
      (
        record { last = next_id ids.last; by_buffer = put key (note_shown view e) ids.by_buffer },
        e.id,
      )
]

unfoldable pub destroyed : BufferIds → BufferKey → BufferIds × Option (ℕ × List ℕ)
destroyed ids key = elim (find key ids.by_buffer) [
  | none ↦ (ids, none)
  | some e ↦ (record ids { by_buffer = remove key ids.by_buffer }, some (e.id, e.views))
]

abbrev pub forget_in : ℕ → BufferKey × Entry → BufferKey × Entry
forget_in view (k, e) = (k, record e { views = retain (λ v. not (v == view)) e.views })

unfoldable pub forget_view : BufferIds → ℕ → BufferIds
forget_view ids view = record ids { by_buffer = map (forget_in view) ids.by_buffer }
