-- ===== src/Buffers/Maps.antt =====
-- The laws of the buffer map of src/buffers.rs.
use ihs_wl_server.Prelude.{
  ℕ, ◌≡◌, refl, ◌↔◌, true, not, ◌&&◌, ◌||◌, List, [], ◌∷◌, ◌++◌, map, Option, none, some, ◌==◌,
  if◌then◌else◌, retain, contains, arith, ==_iff,
}
use ihs_wl_server.Buffers.{
  BufferKey, client, staged, key_eq, Entry, find, put, remove, forget_in, note_shown,
}

pub key_eq_iff : (a b : BufferKey) → (key_eq a b ≡ true) ↔ (a ≡ b)
unfolding key_eq
key_eq_iff (client a) (client b) = ground arith
key_eq_iff (client a) (staged b) = ground arith
key_eq_iff (staged a) (client b) = ground arith
key_eq_iff (staged a) (staged b) = ground arith

pub find-put :
    (k j : BufferKey) (e : Entry) (m : List (BufferKey × Entry))
    → find j (put k e m) ≡ (if key_eq k j then some e else find j m)
unfolding find put
find-put k j e [] = refl
find-put k j e ((i, d) ∷ m) =
    ground (arith, find-put k j e m, key_eq_iff i k, key_eq_iff k j, key_eq_iff i j)

pub find-remove :
    (k j : BufferKey) (m : List (BufferKey × Entry))
    → find j (remove k m) ≡ (if key_eq k j then none else find j m)
unfolding find remove
find-remove k j [] = ground arith
find-remove k j ((i, d) ∷ m) =
    ground (arith, find-remove k j m, key_eq_iff i k, key_eq_iff k j, key_eq_iff i j)

abbrev pub forget_entry : ℕ → Option Entry → Option Entry
forget_entry view none = none
forget_entry view (some e) = some (record e { views = retain (λ v. not (v == view)) e.views })

pub find-forget :
    (view : ℕ) (j : BufferKey) (m : List (BufferKey × Entry))
    → find j (map (forget_in view) m) ≡ forget_entry view (find j m)
unfolding find
find-forget view j [] = refl
find-forget view j ((i, d) ∷ m) = ground (arith, find-forget view j m)

pub contains-snoc : (v w : ℕ) (vs : List ℕ) → contains (vs ++ w ∷ []) v ≡ (contains vs v || w == v)
contains-snoc v w [] = ground arith
contains-snoc v w (x ∷ vs) = ground (arith, contains-snoc v w vs)

pub contains-retain :
    (v w : ℕ) (vs : List ℕ)
    → contains (retain (λ x. not (x == w)) vs) v ≡ (not (v == w) && contains vs v)
contains-retain v w [] = ground arith
contains-retain v w (x ∷ vs) = ground (arith, contains-retain v w vs)

pub contains-note_shown :
    (v w : ℕ) (e : Entry) → contains (note_shown w e).views v ≡ (contains e.views v || w == v)
unfolding note_shown
contains-note_shown v w e = ground (arith, contains-snoc v w e.views, ==_iff w v)

pub id-note_shown : (w : ℕ) (e : Entry) → (note_shown w e).id ≡ e.id
unfolding note_shown
id-note_shown w e = ground arith
