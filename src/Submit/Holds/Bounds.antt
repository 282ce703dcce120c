-- ===== src/Submit/Holds/Bounds.antt =====
-- How much a view's `Holds` of src/submit.rs can grow.
use ihs_wl_server.Prelude.{
  leb, Option, none, some, ℕ, ◌+◌, ◌≤◌, Bool, true, not, List, [], ◌∷◌, ◌++◌, if◌then◌else◌, retain,
  length, length-append, length-retain-le, arith, ◌≡◌, refl, ◌↔◌,
}
use ihs_wl_server.Submit.Holds.{
  Held, client, staged, held_eq, Holds, max_unfenced, trim, hold_unfenced, hold_fenced, presented,
  clear, fence_signaled,
}

pub held_eq_iff : (a b : Held) → (held_eq a b ≡ true) ↔ (a ≡ b)
unfolding held_eq
held_eq_iff (client a) (client b) = ground arith
held_eq_iff (client a) (staged b) = ground arith
held_eq_iff (staged a) (client b) = ground arith
held_eq_iff (staged a) (staged b) = ground arith

-- How often a buffer is held without a fence.
abbrev pub times_held : Held → List (ℕ × Held) → ℕ
times_held b [] = 0
times_held b (u ∷ us) = (if held_eq u.1 b then 1 else 0) + times_held b us

-- At most 64 holds without a fence, and one for each buffer.
pub record IsBounded (h : Holds) : Type 0 where
  pub size : length h.unfenced ≤ max_unfenced
  pub once : (b : Held) → times_held b h.unfenced ≤ 1

times_held-append :
    (b : Held) (us vs : List (ℕ × Held))
    → times_held b (us ++ vs) ≡ times_held b us + times_held b vs
times_held-append b [] vs = omega arith
times_held-append b (u ∷ us) vs = omega (arith, times_held-append b us vs)

times_held-retain :
    (b : Held) (p : ℕ × Held → Bool) (us : List (ℕ × Held))
    → times_held b (retain p us) ≤ times_held b us
times_held-retain b p [] = omega arith
times_held-retain b p (u ∷ us) = ground (arith, times_held-retain b p us)

times_held-without :
    (b : Held) (us : List (ℕ × Held))
    → times_held b (retain (λ (u : ℕ × Held). not (held_eq u.1 b)) us) ≡ 0
times_held-without b [] = refl
times_held-without b (u ∷ us) = ground (arith, times_held-without b us)

trim-size : (us : List (ℕ × Held)) → length us ≤ max_unfenced + 1 → length (trim us) ≤ max_unfenced
unfolding trim
trim-size [] h = omega arith
trim-size (u ∷ us) h = ground arith

times_held-trim : (b : Held) (us : List (ℕ × Held)) → times_held b (trim us) ≤ times_held b us
unfolding trim
times_held-trim b [] = omega arith
times_held-trim b (u ∷ us) = ground arith

pub hold_unfenced-IsBounded :
    (seq : ℕ) (b : Held) (h : Holds) → IsBounded h → IsBounded (hold_unfenced seq b h)
unfolding hold_unfenced
hold_unfenced-IsBounded seq b h v =
    let others = retain (λ (u : ℕ × Held). not (held_eq u.1 b)) h.unfenced in
    let held = others ++ (seq, b) ∷ [] in
    record {
      size = trim-size held (
          omega (
            arith,
            v.size,
            length-append {0} others ((seq, b) ∷ []),
            length-retain-le {0} (λ (u : ℕ × Held). not (held_eq u.1 b)) h.unfenced,
          ));
      once = λ c. ground (
        arith,
        v.once c,
        times_held-trim c held,
        times_held-append c others ((seq, b) ∷ []),
        times_held-retain c (λ (u : ℕ × Held). not (held_eq u.1 b)) h.unfenced,
        times_held-without b h.unfenced,
        held_eq_iff b c,
      );
    }

pub presented-IsBounded : (seq : ℕ) (h : Holds) → IsBounded h → IsBounded (presented seq h)
unfolding presented
presented-IsBounded seq h v = record {
  size = omega (arith, v.size, length-retain-le {0} (λ (u : ℕ × Held). leb seq u.0) h.unfenced);
  once =
      λ c. omega (arith, v.once c, times_held-retain c (λ (u : ℕ × Held). leb seq u.0) h.unfenced);
}

-- The calls that a view's holds see.
pub data Call : Type 0 where
  holds : (seq : ℕ) → Held → Call
  fences : Held → Option ℕ → Call
  signals : (key : ℕ) → Call
  presents : (seq : ℕ) → Call
  clears : Call

unfoldable pub step : Call → Holds → Holds
step (holds seq b) h = hold_unfenced seq b h
step (fences b inserted) h = (hold_fenced h b inserted).0
step (signals key) h = (fence_signaled key h).0
step (presents seq) h = presented seq h
step clears h = (clear h).0

unfoldable pub run : List Call → Holds → Holds
run [] h = h
run (c ∷ cs) h = run cs (step c h)

step-IsBounded : (c : Call) (h : Holds) → IsBounded h → IsBounded (step c h)
unfolding step hold_fenced fence_signaled clear
step-IsBounded (holds seq b) h v = hold_unfenced-IsBounded seq b h v
step-IsBounded (fences b none) h v = record { size = v.size; once = v.once }
step-IsBounded (fences b (some t)) h v = record { size = v.size; once = v.once }
step-IsBounded (signals key) h v = record { size = v.size; once = v.once }
step-IsBounded (presents seq) h v = presented-IsBounded seq h v
step-IsBounded clears h v = record { size = omega arith; once = λ b. omega arith }

-- From bounded holds, any sequence of calls leaves at most 64 holds without a fence and at most one
-- for each buffer: a client that commits without pause cannot make the list grow.
pub run-IsBounded : (cs : List Call) (h : Holds) → IsBounded h → IsBounded (run cs h)
unfolding run
run-IsBounded [] h v = v
run-IsBounded (c ∷ cs) h v = run-IsBounded cs (step c h) (step-IsBounded c h v)
