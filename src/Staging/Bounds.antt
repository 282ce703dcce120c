-- ===== src/Staging/Bounds.antt =====
-- How many slots a ring of src/staging.rs has, and where their uids go.
use ihs_wl_server.Prelude.{
  ◌&&◌, leb, ltb→lt, ap, zero, ==_iff, ℕ, suc, ◌+◌, ◌<◌, ◌≤◌, not, ◌||◌, List, [], ◌∷◌, ◌++◌, map,
  some, ◌==◌, ltb, if◌then◌else◌, length, get_elem?, set, arith, ◌≡◌, refl, get_elem?-lt,
  get_elem?-snoc, Option-cases, Bool-cases, inl, inr, length-append, length-set, count,
}
use ihs_wl_server.Staging.{
  Slot, Ring, Request, Outcome, refit, free_slot, shown, show_again, nothing, write_slot, slot_of,
  fresh, grow, add_slot, show_newest, refill, is_current, fill, stage, max_slots, option_eq,
}
use ihs_wl_server.Staging.Busy.{slot_of-get}

abbrev pub uids : Ring → List ℕ
uids r = map (λ (s : Slot). s.uid) r.slots

-- Four slots at most, and the newest is one of them.
pub record IsValid (r : Ring) : Type 0 where
  pub size : length r.slots ≤ max_slots
  pub newest : (i : ℕ) → r.newest ≡ some i → i < length r.slots

uids-set :
    (u : ℕ) (ss : List Slot) (i : ℕ) (s t : Slot)
    → get_elem? ss i ≡ some s
    → t.uid ≡ s.uid
    → map (λ (x : Slot). x.uid) (set ss i t) ≡ map (λ (x : Slot). x.uid) ss
uids-set u [] i s t e h = refl
uids-set u (x ∷ ss) zero s t e h = ground (arith, e)
uids-set u (x ∷ ss) (suc i) s t e h = ap (◌∷◌ x.uid) (uids-set u ss i s t e h)

uids-append :
    (u : ℕ) (ss : List Slot) (t : Slot)
    → count u (map (λ (x : Slot). x.uid) (ss ++ t ∷ []))
      ≡ count u (map (λ (x : Slot). x.uid) ss) + (if t.uid == u then 1 else 0)
uids-append u [] t = omega arith
uids-append u (x ∷ ss) t = omega (arith, uids-append u ss t)

-- Whether the uid was handed out between two counts of them.
abbrev pub handed_out : (u before after : ℕ) → ℕ
handed_out u before after = if ltb before u && leb u after then 1 else 0

-- The ring after a call from ring `r` (already fitting): valid, with the old uids and perhaps a new
-- one, and the retired ones as given.
pub record Keeps (u next : ℕ) (r : Ring) (retired : List ℕ) (o : Outcome) : Type 0 where
  pub valid : IsValid o.ring
  pub uids_kept : u ≤ next → count u (uids o.ring) ≡ count u (uids r)
  pub uids_new : count u (uids o.ring) ≤ count u (uids r) + handed_out u next o.next_uid
  pub retired_kept : o.retired ≡ retired
  pub next_grows : next ≤ o.next_uid

module _ (u : ℕ) (q : Request) (next : ℕ) (retired : List ℕ) (r : Ring) (v : IsValid r) where
  nothing-Keeps : Keeps u next r retired (nothing next r retired)
  nothing-Keeps = record {
    valid = v;
    uids_kept = λ h. refl;
    uids_new = omega arith;
    retired_kept = refl;
    next_grows = omega arith;
  }

  show_again-Keeps :
      (i : ℕ) (s : Slot)
      → get_elem? r.slots i ≡ some s
      → Keeps u next r retired (show_again next r retired i s)
  unfolding show_again
  show_again-Keeps i s e = record {
    valid = record {
      size = omega (arith, v.size, length-set {0} r.slots i (shown s));
      newest = λ k h. omega (arith, v.newest k h, length-set {0} r.slots i (shown s));
    };
    uids_kept = λ h. ap (count u) (uids-set u r.slots i s (shown s) e refl);
    uids_new = omega (arith, ap (count u) (uids-set u r.slots i s (shown s) e refl));
    retired_kept = refl;
    next_grows = omega arith;
  }

  write_slot-Keeps :
      (i : ℕ) (s : Slot)
      → get_elem? r.slots i ≡ some s
      → Keeps u next r retired (write_slot q next r retired i s)
  unfolding write_slot
  write_slot-Keeps i s e = elim (Bool-cases q.copies) [
    | inr c ↦ rw c nothing-Keeps
    | inl c ↦
        let t : Slot = shown (record s { commit = some q.commit }) in
        rw c (record {
          valid = record {
            size = omega (arith, v.size, length-set {0} r.slots i t);
            newest = λ k h. ground (arith, length-set r.slots i t, get_elem?-lt r.slots i s e, h);
          };
          uids_kept = λ h. ap (count u) (uids-set u r.slots i s t e refl);
          uids_new = omega (arith, ap (count u) (uids-set u r.slots i s t e refl));
          retired_kept = refl;
          next_grows = omega arith;
        })
  ]

  show_newest-Keeps : Keeps u next r retired (show_newest next r retired)
  unfolding show_newest
  show_newest-Keeps = elim (Option-cases (slot_of r r.newest)) [
    | inl e ↦ rw (e, show_newest) nothing-Keeps
    | inr ((i, s), e) ↦ rw (e, show_newest) (show_again-Keeps i s (slot_of-get r r.newest i s e))
  ]

module _ (u : ℕ) (q : Request) (next : ℕ) (retired : List ℕ) (r : Ring) (v : IsValid r) where
  add_slot-Keeps : length r.slots < max_slots → Keeps u next r retired (add_slot q next r retired)
  unfolding add_slot
  add_slot-Keeps room =
      let s : Slot = fresh (next + 1) in
      let grown : Ring = record r { slots = r.slots ++ s ∷ [] } in
      let longer = length-append {0} r.slots (s ∷ []) in
      let grown_valid : IsValid grown = record {
        size = omega (arith, longer, room);
        newest = λ k h. omega (arith, longer, v.newest k h);
      } in
      elim (Bool-cases q.allocates) [
        | inl a ↦
            let kept =
              write_slot-Keeps u q (next + 1) retired grown grown_valid (length r.slots) s
                (get_elem?-snoc r.slots s) in
            rw a (record {
              valid = kept.valid;
              uids_kept = λ h. ground (
                arith,
                kept.uids_kept (omega (arith, h)),
                uids-append u r.slots s,
                ==_iff (next + 1) u,
              );
              uids_new = ground (
                arith,
                kept.uids_new,
                kept.next_grows,
                uids-append u r.slots s,
                ==_iff (next + 1) u,
              );
              retired_kept = kept.retired_kept;
              next_grows = omega (arith, kept.next_grows);
            })
        | inr a ↦ rw a (record {
          valid = v;
          uids_kept = λ h. refl;
          uids_new = omega arith;
          retired_kept = refl;
          next_grows = omega arith;
        })
      ]

  fill-Keeps : Keeps u next r retired (fill q next r retired)
  unfolding fill refill grow
  fill-Keeps = elim (Bool-cases (is_current q (slot_of r r.newest))) [
    | inl c ↦ rw c (show_newest-Keeps u q next retired r v)
    | inr c ↦ rw c (elim (Option-cases (slot_of r (free_slot r.slots))) [
      | inr ((i, s), e) ↦
          rw (e, refill)
            (write_slot-Keeps u q next retired r v i s (slot_of-get r (free_slot r.slots) i s e))
      | inl e ↦
          rw (e, refill)
            (elim (Bool-cases (ltb (length r.slots) max_slots)) [
              | inl l ↦ rw l (add_slot-Keeps (ltb→lt (length r.slots) max_slots l))
              | inr l ↦ rw l (show_newest-Keeps u q next retired r v)
            ])
    ])
  ]

refit_lem :
    (u : ℕ) (q : Request) (r : Ring)
    → IsValid r
    → IsValid (refit q r).0
      × (count u (uids (refit q r).0) + count u (refit q r).1 ≡ count u (uids r))
unfolding refit
refit_lem u q r v =
    elim (Bool-cases (
      not (r.width == q.width)
      || not (r.height == q.height)
      || not (option_eq r.fourcc q.fourcc))) [
        | inl e ↦ rw e (record { size = omega arith; newest = λ i h. cc }, omega arith)
        | inr e ↦ rw e (v, omega arith)
      ]

pub stage-uids :
    (q : Request) (next : ℕ) (r : Ring) (u : ℕ)
    → IsValid r
    → IsValid (stage q next r).ring
      × (count u (uids (stage q next r).ring) + count u (stage q next r).retired
          ≤ count u (uids r) + handed_out u next (stage q next r).next_uid)
      × (next ≤ (stage q next r).next_uid)
unfolding stage
stage-uids q next r u v =
    let first = refit_lem u q r v in
    let kept = fill-Keeps u q next (refit q r).1 (refit q r).0 first.0 in
    (
      kept.valid,
      omega (arith, first.1, kept.uids_new, ap (count u) kept.retired_kept),
      kept.next_grows,
    )

-- A ring never has more than four slots, its newest slot is one of them, and each uid handed out so
-- far is, as often as before, on a slot of the ring or among the uids handed back to be retired.
stage-IsValid :
    (q : Request) (next : ℕ) (r : Ring) (u : ℕ)
    → IsValid r
    → u ≤ next
    → IsValid (stage q next r).ring
      × (count u (uids (stage q next r).ring) + count u (stage q next r).retired ≡ count u (uids r))
      × (next ≤ (stage q next r).next_uid)
unfolding stage
stage-IsValid q next r u v h =
    let first = refit_lem u q r v in
    let kept = fill-Keeps u q next (refit q r).1 (refit q r).0 first.0 in
    (
      kept.valid,
      omega (arith, first.1, kept.uids_kept h, ap (count u) kept.retired_kept),
      kept.next_grows,
    )
