-- ===== src/Timing/Frames/Shown.antt =====
-- Which frames a report of src/timing.rs takes, in what order, and what it tells the clients.
use ihs_wl_server.Prelude.{
  All-append, ◌==◌, ==_iff, ◌&&◌, ℕ, ◌≤◌, ◌<◌, true, List, [], ◌∷◌, ◌++◌, map, ltb, leb, arith, ◌≡◌,
  refl, retain, All, Bool-cases, inl, inr, ◌⊎◌,
}
use ihs_wl_server.Timing.Taken.{Event, signal, discarded, presented, Feedback}
use ihs_wl_server.Timing.Frames.{
  refresh_of, shows, Report, Frame, release, take_shown, frames_presented, shown_of, resolve,
}

-- Frames in the order of their sequence numbers, all above `n`.
abbrev pub Ascends : ℕ → List Frame → Type 0
Ascends n [] = Unit {0}
Ascends n (f ∷ fs) = (n < f.seq) × Ascends f.seq fs

-- What a report tells the clients of one frame that it takes.
abbrev pub told : List (ℕ × ℕ) → Report → List Frame → List Event
told shown r [] = []
told shown r (f ∷ fs) = map (resolve shown r) f.feedback ++ map signal f.barriers ++ told shown r fs

retain_later :
    (n : ℕ) (r : Report) (fs : List Frame)
    → Ascends n fs
    → r.seq ≤ n
    → (retain (λ (f : Frame). leb f.seq r.seq) fs ≡ [])
      × (retain (λ (f : Frame). ltb r.seq f.seq) fs ≡ fs)
retain_later n r [] a h = (refl, refl)
retain_later n r (f ∷ fs) a h = ground (arith, retain_later f.seq r fs a.1)

take_shown_lem :
    (shown : List (ℕ × ℕ)) (r : Report) (n : ℕ) (fs : List Frame)
    → Ascends n fs
    → ((take_shown shown r fs).0 ≡ retain (λ (f : Frame). ltb r.seq f.seq) fs)
      × ((take_shown shown r fs).1 ≡ told shown r (retain (λ (f : Frame). leb f.seq r.seq) fs))
unfolding take_shown release
take_shown_lem shown r n [] a = (refl, refl)
take_shown_lem shown r n (f ∷ fs) a =
    ground (arith, take_shown_lem shown r f.seq fs a.1, retain_later f.seq r fs a.1)

-- With frames in order, a report takes exactly the frames up to its own, oldest first, and answers
-- each callback and signals each barrier of those, and leaves the later frames as they are.
pub frames_presented_lem :
    (r : Report) (n : ℕ) (fs : List Frame)
    → Ascends n fs
    → ((frames_presented r fs).0 ≡ retain (λ (f : Frame). ltb r.seq f.seq) fs)
      × ((frames_presented r fs).1
          ≡ told (shown_of r.seq fs) r (retain (λ (f : Frame). leb f.seq r.seq) fs))
unfolding frames_presented
frames_presented_lem r n fs a = take_shown_lem (shown_of r.seq fs) r n fs a

-- The feedback is one that the frames hold.
abbrev pub IsIn : Feedback → List Feedback → Type 0
IsIn f [] = ⊥
IsIn f (g ∷ gs) = (f ≡ g) ⊎ IsIn f gs

abbrev pub IsHeldIn : Feedback → List Frame → Type 0
IsHeldIn f [] = ⊥
IsHeldIn f (g ∷ gs) = IsIn f g.feedback ⊎ IsHeldIn f gs

-- A client is told that content was shown only for feedback of a held frame whose surface and
-- generation are in `shown`, and with the report's own values.
abbrev pub IsTruthful : List Frame → List (ℕ × ℕ) → Report → Event → Type 0
IsTruthful held shown r (signal b) = Unit {0}
IsTruthful held shown r (discarded c) = Unit {0}
IsTruthful held shown r (presented c t refresh m flags) =
    (f : Feedback) × (f.callback ≡ c)
    × IsHeldIn f held
    × (shows shown f ≡ true)
    × (t ≡ r.ust_ns)
    × (refresh ≡ refresh_of r.refresh_ns)
    × (m ≡ r.msc)
    × (flags ≡ r.flags)

module _ (held : List Frame) (shown : List (ℕ × ℕ)) (r : Report) where
  resolve-IsTruthful :
      (f : Feedback) → IsHeldIn f held → IsTruthful held shown r (resolve shown r f)
  unfolding resolve
  resolve-IsTruthful f h = elim (Bool-cases (shows shown f)) [
    | inl e ↦ rw e (f, refl, h, e, refl, refl, refl, refl)
    | inr e ↦ rw e tt
  ]

  resolved-IsTruthful :
      (fs : List Feedback)
      → ((f : Feedback) → IsIn f fs → IsHeldIn f held)
      → All (IsTruthful held shown r) (map (resolve shown r) fs)
  resolved-IsTruthful [] h = tt
  resolved-IsTruthful (f ∷ fs) h =
      (resolve-IsTruthful f (h f (inl refl)), resolved-IsTruthful fs λ g i. h g (inr i))

  signals-IsTruthful : (bs : List ℕ) → All (IsTruthful held shown r) (map signal bs)
  signals-IsTruthful [] = tt
  signals-IsTruthful (b ∷ bs) = (tt, signals-IsTruthful bs)

  take_shown-IsTruthful :
      (fs : List Frame)
      → ((f : Feedback) → IsHeldIn f fs → IsHeldIn f held)
      → All (IsTruthful held shown r) (take_shown shown r fs).1
  unfolding take_shown release
  take_shown-IsTruthful [] h = tt
  take_shown-IsTruthful (f ∷ fs) h = elim (Bool-cases (leb f.seq r.seq)) [
    | inl e ↦ rw e (
        All-append (IsTruthful held shown r)
          (map (resolve shown r) f.feedback ++ map signal f.barriers) (take_shown shown r fs).1
          (All-append (IsTruthful held shown r) (map (resolve shown r) f.feedback)
            (map signal f.barriers) (resolved-IsTruthful f.feedback λ g i. h g (inl i))
            (signals-IsTruthful f.barriers))
          (take_shown-IsTruthful fs λ g i. h g (inr i)))
    | inr e ↦ rw e tt
  ]

-- A layer at a generation is in the list.
abbrev pub Lists : ℕ × ℕ → List (ℕ × ℕ) → Type 0
Lists x [] = ⊥
Lists (l, g) ((m, h) ∷ shown) = ((m ≡ l) × (h ≡ g)) ⊎ Lists (l, g) shown

abbrev pub IsHeldFrame : Frame → List Frame → Type 0
IsHeldFrame f [] = ⊥
IsHeldFrame f (g ∷ gs) = (f ≡ g) ⊎ IsHeldFrame f gs

-- A held frame has the sequence number, and shows the layer at the generation.
abbrev pub IsShownAs : ℕ → List Frame → Feedback → Type 0
IsShownAs seq held f =
    (g : Frame) × IsHeldFrame g held × (g.seq ≡ seq) × Lists (f.layer_id, f.generation) g.shown

-- A client is told that content was shown only for feedback of a held frame, whose layer the frame of
-- the report's own number shows at that generation, and with the report's own values.
abbrev pub IsReported : List Frame → Report → Event → Type 0
IsReported held r (signal b) = Unit {0}
IsReported held r (discarded c) = Unit {0}
IsReported held r (presented c t refresh m flags) =
    (f : Feedback) × (f.callback ≡ c)
    × IsHeldIn f held
    × IsShownAs r.seq held f
    × (t ≡ r.ust_ns)
    × (refresh ≡ refresh_of r.refresh_ns)
    × (m ≡ r.msc)
    × (flags ≡ r.flags)

shows-Lists :
    (shown : List (ℕ × ℕ)) (f : Feedback)
    → shows shown f ≡ true
    → Lists (f.layer_id, f.generation) shown
unfolding shows
shows-Lists [] f e = absurd (cc)
shows-Lists ((l, g) ∷ shown) f e = elim (Bool-cases (l == f.layer_id && g == f.generation)) [
  | inl same ↦
      inl (ground (arith, same, ==_iff l f.layer_id), ground (arith, same, ==_iff g f.generation))
  | inr other ↦ inr (shows-Lists shown f (ground (arith, e, other)))
]

shown_of-IsShownAs :
    (seq : ℕ) (held : List Frame) (f : Feedback)
    → shows (shown_of seq held) f ≡ true
    → IsShownAs seq held f
unfolding shown_of
shown_of-IsShownAs seq [] f e = absurd (shows-Lists [] f e)
shown_of-IsShownAs seq (g ∷ gs) f e = elim (Bool-cases (g.seq == seq)) [
  | inl same ↦ (
    g,
    inl refl,
    ground (arith, same, ==_iff g.seq seq),
    shows-Lists g.shown f (ground (arith, e, same)),
  )
  | inr other ↦
      let (h, there, seq_is, shows_it) = shown_of-IsShownAs seq gs f (ground (arith, e, other)) in
      (h, inr there, seq_is, shows_it)
]

IsTruthful-IsReported :
    (held : List Frame) (r : Report) (events : List Event)
    → All (IsTruthful held (shown_of r.seq held) r) events
    → All (IsReported held r) events
IsTruthful-IsReported held r [] h = tt
IsTruthful-IsReported held r (signal b ∷ es) h = (tt, IsTruthful-IsReported held r es h.1)
IsTruthful-IsReported held r (discarded c ∷ es) h = (tt, IsTruthful-IsReported held r es h.1)
IsTruthful-IsReported held r (presented c t refresh m flags ∷ es) (one, more) =
    let (f, a, b, shown, at, period, count, set) = one in
    (
      (f, a, b, shown_of-IsShownAs r.seq held f shown, at, period, count, set),
      IsTruthful-IsReported held r es more,
    )

-- Whatever frames are held, in whatever order, a report tells a client that content was shown only
-- for feedback of a held frame, if a held frame with the report's own number shows that layer at that
-- generation, and with the report's time, refresh, counter and flags. So if no frame of that number
-- is held it tells nobody so.
pub frames_presented-IsTruthful :
    (r : Report) (fs : List Frame) → All (IsReported fs r) (frames_presented r fs).1
unfolding frames_presented
frames_presented-IsTruthful r fs =
    IsTruthful-IsReported fs r (frames_presented r fs).1
      (take_shown-IsTruthful fs (shown_of r.seq fs) r fs λ f h. h)
