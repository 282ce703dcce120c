-- ===== src/Staging/Busy.antt =====
-- A slot that the shell may read is never written by `stage` of src/staging.rs.
use ihs_wl_server.Prelude.{
  ==_iff, ℕ, suc, ◌+◌, ◌<◌, ◌≤◌, true, false, List, [], ◌∷◌, ◌++◌, Option, none, some, ◌==◌, ltb,
  length, get_elem?, arith, ◌≡◌, refl, get_elem?-set, get_elem?-lt, get_elem?-append,
  get_elem?-snoc, Option-cases, Bool-cases, inl, inr,
}
use ihs_wl_server.Staging.{
  Slot, Ring, Request, refit, free_slot, shown, show_again, write_slot, slot_of, fresh, grow,
  add_slot, show_newest, refill, is_current, fill, stage, max_slots,
}

-- The slot still has its content: nothing was copied into it.
abbrev pub SameContent : Slot → Option Slot → Type 0
SameContent s none = ⊥
SameContent s (some t) = (t.uid ≡ s.uid) × (t.commit ≡ s.commit) × (s.clones ≤ t.clones)

the_first :
    (s : Slot) (ss : List Slot) (i : ℕ)
    → (s.clones == 0) ≡ true
    → free_slot (s ∷ ss) ≡ some i
    → i ≡ 0
unfolding free_slot
the_first s ss i z e = ground arith

a_later :
    (s : Slot) (ss : List Slot) (i : ℕ)
    → (s.clones == 0) ≡ false
    → free_slot (s ∷ ss) ≡ some i
    → (j : ℕ) × (free_slot ss ≡ some j) × (i ≡ suc j)
unfolding free_slot
a_later s ss i z e = elim (Option-cases (free_slot ss)) [
  | inl f ↦ absurd (ground (arith, f, e, z))
  | inr (j, f) ↦ (j, f, ground (arith, f, e, z))
]

-- A slot that is looked up by an optional index.
pub slot_of-get :
    (r : Ring) (o : Option ℕ) (i : ℕ) (s : Slot)
    → slot_of r o ≡ some (i, s)
    → get_elem? r.slots i ≡ some s
slot_of-get r none i s e = cc
slot_of-get r (some k) i s e = ground (arith, e)

pub free_slot-free :
    (ss : List Slot) (i : ℕ)
    → free_slot ss ≡ some i
    → (s : Slot) × (get_elem? ss i ≡ some s) × (s.clones ≡ 0)
unfolding free_slot
free_slot-free [] i e = cc
free_slot-free (s ∷ ss) i e = elim (Bool-cases (s.clones == 0)) [
  | inl z ↦ rw (the_first s ss i z e) (s, refl, (==_iff s.clones 0).0 z)
  | inr p ↦ let (j, f, h) = a_later s ss i p e in rw h (free_slot-free ss j f)
]

slot_of-free :
    (r : Ring) (i : ℕ) (s : Slot) → slot_of r (free_slot r.slots) ≡ some (i, s) → s.clones ≡ 0
slot_of-free r i s e = elim (Option-cases (free_slot r.slots)) [
  | inl f ↦ absurd (ground (arith, f, e))
  | inr (k, f) ↦ ground (arith, free_slot-free r.slots k f, f, e)
]

pub refit_same :
    (q : Request) (r : Ring)
    → r.width ≡ q.width
    → r.height ≡ q.height
    → r.fourcc ≡ some q.fourcc
    → refit q r ≡ (r, [])
unfolding refit
refit_same q r w h f = ground arith

module _ (q : Request) (next : ℕ) (r : Ring) (retired : List ℕ) (j : ℕ) (t : Slot)
    (at : get_elem? r.slots j ≡ some t) where
  unchanged : SameContent t (get_elem? r.slots j)
  unchanged = rw at (refl, refl, omega arith)

  show_again-SameContent :
      (i : ℕ) (s : Slot)
      → get_elem? r.slots i ≡ some s
      → SameContent t (get_elem? (show_again next r retired i s).ring.slots j)
  unfolding show_again
  show_again-SameContent i s e =
      rw (get_elem?-set r.slots i j (shown s) (get_elem?-lt r.slots i s e)) (ground (arith, e, at))

  show_newest-SameContent : SameContent t (get_elem? (show_newest next r retired).ring.slots j)
  unfolding show_newest
  show_newest-SameContent = elim (Option-cases (slot_of r r.newest)) [
    | inl e ↦ rw (e, show_newest) unchanged
    | inr ((i, s), e) ↦
        rw (e, show_newest) (show_again-SameContent i s (slot_of-get r r.newest i s e))
  ]

  write_slot-SameContent :
      (i : ℕ) (s : Slot)
      → get_elem? r.slots i ≡ some s
      → s.clones ≡ 0
      → 0 < t.clones
      → SameContent t (get_elem? (write_slot q next r retired i s).ring.slots j)
  unfolding write_slot
  write_slot-SameContent i s e z busy = elim (Bool-cases q.copies) [
    | inl c ↦ rw c (
        rw
          (get_elem?-set r.slots i j (shown (record s { commit = some q.commit }))
            (get_elem?-lt r.slots i s e))
          (ground (arith, e, at, z, busy)))
    | inr c ↦ rw c (unchanged)
  ]

module _ (q : Request) (next : ℕ) (r : Ring) (retired : List ℕ) (j : ℕ) (t : Slot)
    (at : get_elem? r.slots j ≡ some t) (busy : 0 < t.clones) where
  add_slot-SameContent : SameContent t (get_elem? (add_slot q next r retired).ring.slots j)
  unfolding add_slot
  add_slot-SameContent =
      let s : Slot = fresh (next + 1) in
      let grown : Ring = record r { slots = r.slots ++ s ∷ [] } in
      elim (Bool-cases q.allocates) [
        | inl a ↦ rw a (
            write_slot-SameContent q (next + 1) grown retired j t
              (get_elem?-append r.slots (s ∷ []) j t at) (length r.slots) s
              (get_elem?-snoc r.slots s) refl busy)
        | inr a ↦ rw a (unchanged q next r retired j t at)
      ]

  grow-SameContent : SameContent t (get_elem? (grow q next r retired).ring.slots j)
  unfolding grow
  grow-SameContent = elim (Bool-cases (ltb (length r.slots) max_slots)) [
    | inl c ↦ rw c add_slot-SameContent
    | inr c ↦ rw c (show_newest-SameContent q next r retired j t at)
  ]

  refill-SameContent : SameContent t (get_elem? (refill q next r retired).ring.slots j)
  unfolding refill
  refill-SameContent = elim (Option-cases (slot_of r (free_slot r.slots))) [
    | inl e ↦ rw (e, refill) grow-SameContent
    | inr ((i, s), e) ↦
        rw (e, refill)
          (write_slot-SameContent q next r retired j t at i s
            (slot_of-get r (free_slot r.slots) i s e) (slot_of-free r i s e) busy)
  ]

  fill-SameContent : SameContent t (get_elem? (fill q next r retired).ring.slots j)
  unfolding fill
  fill-SameContent = elim (Bool-cases (is_current q (slot_of r r.newest))) [
    | inl c ↦ rw c (show_newest-SameContent q next r retired j t at)
    | inr c ↦ rw c refill-SameContent
  ]

-- While the surface keeps its size and format, a slot that the shell or a view's holds may still
-- read keeps its content and its place, whatever the next commit does.
pub stage-SameContent :
    (q : Request) (next : ℕ) (r : Ring) (j : ℕ) (t : Slot)
    → r.width ≡ q.width
    → r.height ≡ q.height
    → r.fourcc ≡ some q.fourcc
    → get_elem? r.slots j ≡ some t
    → 0 < t.clones
    → SameContent t (get_elem? (stage q next r).ring.slots j)
unfolding stage
stage-SameContent q next r j t w h f at busy =
    rw (refit_same q r w h f) (fill-SameContent q next r [] j t at busy)
