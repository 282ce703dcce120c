-- ===== src/Submit/Holds/Kept.antt =====
-- How long `Holds` of src/submit.rs keeps a buffer that the shell gave no fence for.
use native.Mathlib.Nat.{add-zero, add-suc, suc-add}
use ihs_wl_server.Prelude.{
  ◌↔◌, ℕ, suc, ◌+◌, ◌≤◌, ◌<◌, Bool, true, not, List, [], ◌∷◌, ◌++◌, leb, retain, length,
  length-append, length-retain-le, arith, ◌≡◌, ◌≢◌, refl, ◌⊎◌, inl, inr, none, some,
}
use ihs_wl_server.Submit.Holds.{
  Held, held_eq, Holds, max_unfenced, trim, hold_unfenced, hold_fenced, presented, fence_signaled,
}
use ihs_wl_server.Submit.Holds.Bounds.{
  held_eq_iff, Call, holds, fences, signals, presents, clears, step, run,
}

-- The buffer is held for frame `seq`, with at most `k` later holds behind it.
abbrev pub HeldWithin : ℕ → ℕ → Held → List (ℕ × Held) → Type 0
HeldWithin k seq b [] = ⊥
HeldWithin k seq b (u ∷ us) = ((u.0 ≡ seq) × (u.1 ≡ b) × (length us ≤ k)) ⊎ HeldWithin k seq b us

HeldWithin-retain :
    (p : ℕ × Held → Bool) (k seq : ℕ) (b : Held) (us : List (ℕ × Held))
    → p (seq, b) ≡ true
    → HeldWithin k seq b us
    → HeldWithin k seq b (retain p us)
HeldWithin-retain p k seq b [] h w = absurd w
HeldWithin-retain p k seq b ((s, c) ∷ us) h (inl (e, f, g)) =
    rw (e, f, h) (inl (refl, refl, omega (arith, g, length-retain-le {0} p us)))
HeldWithin-retain p k seq b (u ∷ us) h (inr w) = ground (arith, HeldWithin-retain p k seq b us h w)

HeldWithin-snoc :
    (k seq : ℕ) (b : Held) (us : List (ℕ × Held)) (v : ℕ × Held)
    → HeldWithin k seq b us
    → HeldWithin (suc k) seq b (us ++ v ∷ [])
HeldWithin-snoc k seq b [] v w = absurd w
HeldWithin-snoc k seq b (u ∷ us) v (inl (e, f, g)) =
    inl (e, f, omega (arith, g, length-append {0} us (v ∷ [])))
HeldWithin-snoc k seq b (u ∷ us) v (inr w) = inr (HeldWithin-snoc k seq b us v w)

HeldWithin-trim :
    (k seq : ℕ) (b : Held) (us : List (ℕ × Held))
    → k < max_unfenced
    → HeldWithin k seq b us
    → HeldWithin k seq b (trim us)
unfolding trim
HeldWithin-trim k seq b [] h w = absurd w
HeldWithin-trim k seq b (u ∷ us) h (inl (e, f, g)) = ground arith
HeldWithin-trim k seq b (u ∷ us) h (inr w) = ground arith

-- A later hold of another buffer.
hold_unfenced-HeldWithin :
    (k seq seq' : ℕ) (b c : Held) (h : Holds)
    → b ≢ c
    → suc k < max_unfenced
    → HeldWithin k seq b h.unfenced
    → HeldWithin (suc k) seq b (hold_unfenced seq' c h).unfenced
unfolding hold_unfenced
hold_unfenced-HeldWithin k seq seq' b c h ne room w = HeldWithin-trim (suc k) seq b _ room (
    HeldWithin-snoc k seq b _ (seq', c)
      (HeldWithin-retain (λ (u : ℕ × Held). not (held_eq u.1 c)) k seq b h.unfenced
        (ground (arith, held_eq_iff b c)) w))

-- Calls that leave a buffer of frame `seq` alone: other buffers are held, fences come and go, and
-- no frame after `seq` is presented. `holds` calls are counted.
abbrev pub LeavesAlone : ℕ → Held → List Call → Type 0
LeavesAlone seq b [] = Unit {0}
LeavesAlone seq b (holds s c ∷ cs) = (b ≢ c) × LeavesAlone seq b cs
LeavesAlone seq b (fences c t ∷ cs) = LeavesAlone seq b cs
LeavesAlone seq b (signals k ∷ cs) = LeavesAlone seq b cs
LeavesAlone seq b (presents s ∷ cs) = (s ≤ seq) × LeavesAlone seq b cs
LeavesAlone seq b (clears ∷ cs) = ⊥

abbrev pub hold_count : List Call → ℕ
hold_count [] = 0
hold_count (holds s c ∷ cs) = suc (hold_count cs)
hold_count (_ ∷ cs) = hold_count cs

run-HeldWithin :
    (k seq : ℕ) (b : Held) (cs : List Call) (h : Holds)
    → LeavesAlone seq b cs
    → k + hold_count cs < max_unfenced
    → HeldWithin k seq b h.unfenced
    → HeldWithin (k + hold_count cs) seq b (run cs h).unfenced
unfolding run step hold_fenced fence_signaled presented
run-HeldWithin k seq b [] h l room w = rw add-zero w
run-HeldWithin k seq b (holds s c ∷ cs) h l room w =
    rw (add-suc, ← suc-add)
      (run-HeldWithin (suc k) seq b cs _ l.1 (omega arith)
        (hold_unfenced-HeldWithin k seq s b c h l.0 (omega arith) w))
run-HeldWithin k seq b (fences c none ∷ cs) h l room w = run-HeldWithin k seq b cs _ l room w
run-HeldWithin k seq b (fences c (some t) ∷ cs) h l room w = run-HeldWithin k seq b cs _ l room w
run-HeldWithin k seq b (signals key ∷ cs) h l room w = run-HeldWithin k seq b cs _ l room w
run-HeldWithin k seq b (presents s ∷ cs) h l room w =
    run-HeldWithin k seq b cs _ l.1 room
      (HeldWithin-retain (λ (u : ℕ × Held). leb s u.0) k seq b h.unfenced (ground (arith, l.0)) w)
run-HeldWithin k seq b (clears ∷ cs) h l room w = absurd l

HeldWithin-last :
    (seq : ℕ) (b : Held) (us : List (ℕ × Held)) → HeldWithin 0 seq b (us ++ (seq, b) ∷ [])
HeldWithin-last seq b [] = inl (refl, refl, omega arith)
HeldWithin-last seq b (u ∷ us) = inr (HeldWithin-last seq b us)

-- The hold that is looked for, of any number behind it.
abbrev pub IsHeld : ℕ → Held → Holds → Type 0
IsHeld seq b h = (k : ℕ) × HeldWithin k seq b h.unfenced

-- A buffer that was handed over in frame `seq` with no fence stays held while no later frame is
-- presented: whatever other buffers come (63 at most without a fence) and whichever fences signal.
pub hold_unfenced-kept :
    (seq : ℕ) (b : Held) (h : Holds) (cs : List Call)
    → LeavesAlone seq b cs
    → hold_count cs < max_unfenced
    → IsHeld seq b (run cs (hold_unfenced seq b h))
unfolding hold_unfenced
hold_unfenced-kept seq b h cs l room = (
  0 + hold_count cs,
  run-HeldWithin 0 seq b cs (hold_unfenced seq b h) l (omega arith)
      (HeldWithin-trim 0 seq b _ (omega arith) (HeldWithin-last seq b _)),
)

HeldWithin-presented :
    (k s seq : ℕ) (b : Held) (us : List (ℕ × Held))
    → HeldWithin k seq b (retain (λ (u : ℕ × Held). leb s u.0) us)
    → s ≤ seq
HeldWithin-presented k s seq b [] w = absurd w
HeldWithin-presented k s seq b (u ∷ us) w = ground (arith, HeldWithin-presented k s seq b us)

HeldWithin-weaken :
    (j k seq : ℕ) (b : Held) (us : List (ℕ × Held))
    → j ≤ k
    → HeldWithin j seq b us
    → HeldWithin k seq b us
HeldWithin-weaken j k seq b [] h w = absurd w
HeldWithin-weaken j k seq b (u ∷ us) h (inl (e, f, g)) = inl (e, f, omega arith)
HeldWithin-weaken j k seq b (u ∷ us) h (inr w) = inr (HeldWithin-weaken j k seq b us h w)

HeldWithin-unretain :
    (k s seq : ℕ) (b : Held) (us : List (ℕ × Held))
    → HeldWithin k seq b (retain (λ (u : ℕ × Held). leb s u.0) us)
    → HeldWithin (length us) seq b us
HeldWithin-unretain k s seq b [] w = absurd w
HeldWithin-unretain k s seq b (u ∷ us) w = ground (
  arith,
  HeldWithin-unretain k s seq b us,
  HeldWithin-weaken (length us) (suc (length us)) seq b us,
)

-- When a frame is presented, exactly the holds of earlier frames are dropped.
presented_iff :
    (seq s : ℕ) (b : Held) (h : Holds) → IsHeld seq b (presented s h) ↔ (IsHeld seq b h × (s ≤ seq))
unfolding presented
presented_iff seq s b h = (
  λ (k, w). (
    (length h.unfenced, HeldWithin-unretain k s seq b h.unfenced w),
    HeldWithin-presented k s seq b h.unfenced w,
  ),
  λ ((k, w), le). (
    k,
    HeldWithin-retain (λ (u : ℕ × Held). leb s u.0) k seq b h.unfenced (ground (arith, le)) w,
  ),
)
