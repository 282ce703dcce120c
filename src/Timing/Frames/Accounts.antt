-- ===== src/Timing/Frames/Accounts.antt =====
-- The accounts of `Frames` of src/timing.rs: each barrier and each feedback callback that a frame
-- is given is either still held, or was signaled (answered), and only once.
use ihs_wl_server.Prelude.{
  ℕ, ◌+◌, Bool, not, List, [], ◌∷◌, ◌++◌, map, retain, count, count-append, arith, ◌≡◌, refl,
  Bool-cases, inl, inr,
}
use ihs_wl_server.Timing.Taken.{Event, signal, discarded, presented, Feedback}
use ihs_wl_server.Timing.Frames.{Report, Frame, discard, resolve}

-- The barriers that a list of events signals, and the callbacks that it answers.
abbrev pub signals : List Event → List ℕ
signals [] = []
signals (signal b ∷ es) = b ∷ signals es
signals (discarded c ∷ es) = signals es
signals (presented c t r m f ∷ es) = signals es

abbrev pub answers : List Event → List ℕ
answers [] = []
answers (signal b ∷ es) = answers es
answers (discarded c ∷ es) = c ∷ answers es
answers (presented c t r m f ∷ es) = c ∷ answers es

abbrev pub callbacks : List Feedback → List ℕ
callbacks = map λ (f : Feedback). f.callback

-- What the frames still hold.
abbrev pub held_barriers : List Frame → List ℕ
held_barriers [] = []
held_barriers (f ∷ fs) = f.barriers ++ held_barriers fs

abbrev pub held_callbacks : List Frame → List ℕ
held_callbacks [] = []
held_callbacks (f ∷ fs) = callbacks f.feedback ++ held_callbacks fs

module _ (x : ℕ) where
  pub signals-append :
      (es ds : List Event)
      → count x (signals (es ++ ds)) ≡ count x (signals es) + count x (signals ds)
  signals-append [] ds = omega arith
  signals-append (signal b ∷ es) ds = omega (arith, signals-append es ds)
  signals-append (discarded c ∷ es) ds = signals-append es ds
  signals-append (presented c t r m f ∷ es) ds = signals-append es ds

  pub answers-append :
      (es ds : List Event)
      → count x (answers (es ++ ds)) ≡ count x (answers es) + count x (answers ds)
  answers-append [] ds = omega arith
  answers-append (signal b ∷ es) ds = answers-append es ds
  answers-append (discarded c ∷ es) ds = omega (arith, answers-append es ds)
  answers-append (presented c t r m f ∷ es) ds = omega (arith, answers-append es ds)

  pub signals-signal : (bs : List ℕ) → count x (signals (map signal bs)) ≡ count x bs
  signals-signal [] = refl
  signals-signal (b ∷ bs) = omega (arith, signals-signal bs)

  pub answers-signal : (bs : List ℕ) → count x (answers (map signal bs)) ≡ 0
  answers-signal [] = refl
  answers-signal (b ∷ bs) = answers-signal bs

  pub signals-discard : (fs : List Feedback) → count x (signals (discard fs)) ≡ 0
  signals-discard [] = refl
  signals-discard (f ∷ fs) = signals-discard fs

  pub answers-discard :
      (fs : List Feedback) → count x (answers (discard fs)) ≡ count x (callbacks fs)
  answers-discard [] = refl
  answers-discard (f ∷ fs) = omega (arith, answers-discard fs)

  pub signals-resolve :
      (shown : List (ℕ × ℕ)) (r : Report) (fs : List Feedback)
      → count x (signals (map (resolve shown r) fs)) ≡ 0
  unfolding resolve
  signals-resolve shown r [] = refl
  signals-resolve shown r (f ∷ fs) = ground (arith, signals-resolve shown r fs)

  pub answers-resolve :
      (shown : List (ℕ × ℕ)) (r : Report) (fs : List Feedback)
      → count x (answers (map (resolve shown r) fs)) ≡ count x (callbacks fs)
  unfolding resolve
  answers-resolve shown r [] = refl
  answers-resolve shown r (f ∷ fs) = ground (arith, answers-resolve shown r fs)

  pub callbacks-split :
      (p : Feedback → Bool) (fs : List Feedback)
      → count x (callbacks (retain p fs)) + count x (callbacks (retain (λ f. not (p f)) fs))
        ≡ count x (callbacks fs)
  callbacks-split p [] = refl
  callbacks-split p (f ∷ fs) = elim (Bool-cases (p f)) [
    | inl e ↦ rw (e) (omega (arith, callbacks-split p fs))
    | inr e ↦ rw (e) (omega (arith, callbacks-split p fs))
  ]

  pub held_barriers-append :
      (fs gs : List Frame)
      → count x (held_barriers (fs ++ gs)) ≡ count x (held_barriers fs) + count x (held_barriers gs)
  held_barriers-append [] gs = omega arith
  held_barriers-append (f ∷ fs) gs = omega (
    arith,
    held_barriers-append fs gs,
    count-append x f.barriers (held_barriers (fs ++ gs)),
    count-append x f.barriers (held_barriers fs),
  )

  pub held_callbacks-append :
      (fs gs : List Frame)
      → count x (held_callbacks (fs ++ gs))
        ≡ count x (held_callbacks fs) + count x (held_callbacks gs)
  held_callbacks-append [] gs = omega arith
  held_callbacks-append (f ∷ fs) gs = omega (
    arith,
    held_callbacks-append fs gs,
    count-append x (callbacks f.feedback) (held_callbacks (fs ++ gs)),
    count-append x (callbacks f.feedback) (held_callbacks fs),
  )

-- What the clients were told, and what is still held, add up to what there was.
pub record Balanced (b c : ℕ) (before after : List Frame) (events : List Event) : Type 0 where
  pub barriers :
      count b (signals events) + count b (held_barriers after) ≡ count b (held_barriers before)
  pub feedback :
      count c (answers events) + count c (held_callbacks after) ≡ count c (held_callbacks before)
