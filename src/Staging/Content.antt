-- ===== src/Staging/Content.antt =====
-- What `stage` of src/staging.rs shows: the surface's current commit, unless every slot is in use.
use mathlib.Core.Path.{subst}
use ihs_wl_server.Prelude.{
  Bool, if◌then◌else◌, ℕ, ◌+◌, ◌<◌, ◌≤◌, true, false, List, [], ◌∷◌, ◌++◌, Option, none, some, ltb,
  length, get_elem?, arith, ◌≡◌, refl, ap, sym, ◌∙◌, get_elem?-set, get_elem?-lt, get_elem?-snoc,
  Option-cases, Bool-cases, inl, inr, ◌⊎◌,
}
use ihs_wl_server.Staging.{
  Slot, Ring, Request, Staged, Outcome, nothing, refit, free_slot, shown, show_again, write_slot,
  slot_of, fresh, grow, add_slot, show_newest, refill, is_current, fill, stage, max_slots,
  option_eq,
}
use ihs_wl_server.Staging.Busy.{free_slot-free, slot_of-get}

-- Every slot is in use, and there can be no more.
abbrev pub IsFull : Ring → Type 0
IsFull r = (free_slot r.slots ≡ none) × (max_slots ≤ length r.slots)

-- The ring was full: what is shown is its newest slot as it was, unwritten, but for the clone.
abbrev pub IsNewest : Ring → Staged → Slot → Type 0
IsNewest before st s =
    (st.written ≡ false)
    × IsFull before
    × (before.newest ≡ some st.index)
    × ((old : Slot) × (get_elem? before.slots st.index ≡ some old) × (s ≡ shown old))

-- Nothing can be shown: no slot could be allocated, or filled, or a full ring has no newest.
abbrev pub Fails : Request → Ring → Type 0
Fails q before =
    (q.allocates ≡ false)
    ⊎ ((q.copies ≡ false) ⊎ (IsFull before × (slot_of before before.newest ≡ none)))

-- A shown slot stands in the ring under the uid it goes by, is in use from now on, and holds the
-- current commit, unless the ring was full and its newest is shown again.
abbrev pub ShowsIn : Request → Ring → Ring → Option Staged → Type 0
ShowsIn q before after none = Fails q before
ShowsIn q before after (some st) =
    (s : Slot) × (get_elem? after.slots st.index ≡ some s)
    × (s.uid ≡ st.uid)
    × (0 < s.clones)
    × ((s.commit ≡ some q.commit) ⊎ IsNewest before st s)

abbrev pub Shows : Request → Ring → Outcome → Type 0
Shows q before o = ShowsIn q before o.ring o.staged

option_eq_lem : (o : Option ℕ) (n : ℕ) → option_eq o n ≡ true → o ≡ some n
option_eq_lem none n e = cc
option_eq_lem (some m) n e = ground arith

-- `free_slot` names a slot that is there.
slot_of-none : (r : Ring) → slot_of r (free_slot r.slots) ≡ none → free_slot r.slots ≡ none
slot_of-none r e = elim (Option-cases (free_slot r.slots)) [
  | inl f ↦ f
  | inr (i, f) ↦ let (s, g, z) = free_slot-free r.slots i f in absurd (ground (arith, e, f, g))
]

slot_of-newest :
    (r : Ring) (o : Option ℕ) (i : ℕ) (s : Slot) → slot_of r o ≡ some (i, s) → o ≡ some i
slot_of-newest r none i s e = cc
slot_of-newest r (some j) i s e = elim (Option-cases (get_elem? r.slots j)) [
  | inl n ↦ absurd (ground (arith, e, n))
  | inr (t, n) ↦ ground (arith, e, n)
]

newest_of : (r : Ring) (i : ℕ) (s : Slot) → slot_of r r.newest ≡ some (i, s) → r.newest ≡ some i
newest_of r i s e = slot_of-newest r r.newest i s e

module _ (q : Request) (next : ℕ) (retired : List ℕ) (before : Ring) where
  show_again-Shows :
      (r : Ring) (i : ℕ) (s : Slot)
      → get_elem? r.slots i ≡ some s
      → ((s.commit ≡ some q.commit)
          ⊎ (IsFull before × (before.newest ≡ some i) × (get_elem? before.slots i ≡ some s)))
      → Shows q before (show_again next r retired i s)
  unfolding show_again
  show_again-Shows r i s e why = (
    shown s,
    ground (arith, get_elem?-set r.slots i i (shown s) (get_elem?-lt r.slots i s e)),
    refl,
    omega arith,
    elim why [
      | inl e' ↦ inl e'
      | inr (full, newest, there) ↦ inr (refl, full, newest, (s, there, refl))
    ],
  )

  write_slot-Shows :
      (r : Ring) (i : ℕ) (s : Slot)
      → get_elem? r.slots i ≡ some s
      → Shows q before (write_slot q next r retired i s)
  unfolding write_slot
  write_slot-Shows r i s e = elim (Bool-cases q.copies) [
    | inl c ↦
        let t : Slot = shown (record s { commit = some q.commit }) in
        rw c (
          t,
          ground (arith, get_elem?-set r.slots i i t (get_elem?-lt r.slots i s e)),
          refl,
          omega arith,
          inl refl,
        )
    | inr c ↦ rw c (inr (inl refl))
  ]

  show_newest-Shows :
      (r : Ring)
      → ((is_current q (slot_of r r.newest) ≡ true) ⊎ (IsFull before × (r ≡ before)))
      → Shows q before (show_newest next r retired)
  unfolding show_newest
  show_newest-Shows r why = elim (Option-cases (slot_of r r.newest)) [
    | inl e ↦
        rw (e, show_newest)
          (inr (
            inr (elim why [
              | inl current ↦ absurd (ground (arith, current, e))
              | inr (full, same) ↦ (full, ap (λ (x : Ring). slot_of x x.newest) (sym same) ∙ e)
            ])))
    | inr ((i, s), e) ↦
        let there = slot_of-get r r.newest i s e in
        rw (e, show_newest)
          (show_again-Shows r i s there (elim why [
            | inl current ↦ inl (ground (arith, current, e, option_eq_lem s.commit q.commit))
            | inr (full, same) ↦ inr (
              full,
              ap (λ (x : Ring). x.newest) (sym same) ∙ newest_of r i s e,
              ap (λ (x : Ring). get_elem? x.slots i) (sym same) ∙ there,
            )
          ]))
  ]

module _ (q : Request) (next : ℕ) (r : Ring) (retired : List ℕ) where
  grow-Shows : free_slot r.slots ≡ none → Shows q r (grow q next r retired)
  unfolding grow add_slot
  grow-Shows full = elim (Bool-cases (ltb (length r.slots) max_slots)) [
    | inl c ↦
        let s = fresh (next + 1) in
        let grown : Ring = record r { slots = r.slots ++ s ∷ [] } in
        let added = write_slot q (next + 1) grown retired (length r.slots) s in
        let none_added = nothing (next + 1) r retired in
        let allocated = λ (b : Bool). if b then added else none_added in
        rw c (elim (Bool-cases q.allocates) [
          | inl a ↦ subst (Shows q r) (sym (ap allocated a)) (
              write_slot-Shows q (next + 1) retired r grown (length r.slots) s
                (get_elem?-snoc r.slots s))
          | inr a ↦ subst (Shows q r) (sym (ap allocated a)) (inl a)
        ])
    | inr c ↦ rw c (show_newest-Shows q next retired r r (inr ((full, ground (arith, c)), refl)))
  ]

  fill-Shows : Shows q r (fill q next r retired)
  unfolding fill refill
  fill-Shows = elim (Bool-cases (is_current q (slot_of r r.newest))) [
    | inl c ↦ rw c (show_newest-Shows q next retired r r (inl c))
    | inr c ↦ rw c (elim (Option-cases (slot_of r (free_slot r.slots))) [
      | inl e ↦ rw (e, refill) (grow-Shows (slot_of-none r e))
      | inr ((i, s), e) ↦
          rw (e, refill)
            (write_slot-Shows q next retired r r i s (slot_of-get r (free_slot r.slots) i s e))
    ])
  ]

pub stage-Shows : (q : Request) (next : ℕ) (r : Ring) → Shows q (refit q r).0 (stage q next r)
unfolding stage
stage-Shows q next r = fill-Shows q next (refit q r).0 (refit q r).1
