-- ===== src/Pacing/Barriers.antt =====
-- Which operations of src/timing.rs leave barriers in a view's frames, and their submit times.
use mathlib.Core.Path.{subst}
use ihs_wl_server.Prelude.{
  All-append, ℕ, ◌≡◌, refl, Bool, true, false, not, ◌||◌, List, [], ◌∷◌, ◌++◌, some, ◌==◌, lookup,
  modify, is_some, All, arith, Bool-cases, inl, inr, ◌<◌, u64_max,
}
use ihs_wl_server.Timing.Taken.{Taken}
use ihs_wl_server.Timing.Frames.{
  push, new_frame, make_room, Report, Frame, release, release_all, release_older, flush_older,
  next_stale, take_shown, is_empty,
}
use ihs_wl_server.Pacing.{View}

-- A frame holds a barrier that a client waits for.
abbrev pub holds_barrier : List Frame → Bool
holds_barrier [] = false
holds_barrier (f ∷ fs) = not (is_empty f.barriers) || holds_barrier fs

abbrev pub some_view_holds : List (ℕ × View) → Bool
some_view_holds [] = false
some_view_holds ((v, e) ∷ vs) = holds_barrier e.frames || some_view_holds vs

pub next_stale_holds :
    (b : Bool) (fs : List Frame) → holds_barrier fs ≡ true → is_some (next_stale b fs) ≡ true
unfolding next_stale
next_stale_holds b [] h = cc
next_stale_holds b (f ∷ fs) h = ground (arith, next_stale_holds b fs)

-- Frames submitted before the end of time give all their barriers back.
abbrev pub IsTimely : List Frame → Type 0
IsTimely = All λ (f : Frame). f.submitted_ns < u64_max

pub release_all_holds : (fs : List Frame) → IsTimely fs → holds_barrier (release_all fs).0 ≡ false
unfolding release_all release_older release
release_all_holds [] h = refl
release_all_holds (f ∷ fs) h = ground (arith, release_all_holds fs h.1)

pub release_older_holds :
    (t : ℕ) (fs : List Frame)
    → holds_barrier (release_older t fs).0 ≡ true
    → holds_barrier fs ≡ true
unfolding release_older release
release_older_holds t [] h = cc
release_older_holds t (f ∷ fs) h = ground (arith, release_older_holds t fs)

pub flush_older_holds :
    (t : ℕ) (fs : List Frame) → holds_barrier (flush_older t fs).0 ≡ holds_barrier fs
unfolding flush_older
flush_older_holds t [] = refl
flush_older_holds t (f ∷ fs) = ground (arith, flush_older_holds t fs)

pub take_shown_holds :
    (shown : List (ℕ × ℕ)) (r : Report) (fs : List Frame)
    → holds_barrier (take_shown shown r fs).0 ≡ true
    → holds_barrier fs ≡ true
unfolding take_shown release
take_shown_holds shown r [] h = cc
take_shown_holds shown r (f ∷ fs) h = ground (arith, take_shown_holds shown r fs)

pub release_older-IsTimely :
    (t : ℕ) (fs : List Frame) → IsTimely fs → IsTimely (release_older t fs).0
unfolding release_older release
release_older-IsTimely t [] h = tt
release_older-IsTimely t (f ∷ fs) h = ground (arith, h.0, release_older-IsTimely t fs h.1)

pub flush_older-IsTimely : (t : ℕ) (fs : List Frame) → IsTimely fs → IsTimely (flush_older t fs).0
unfolding flush_older
flush_older-IsTimely t [] h = tt
flush_older-IsTimely t (f ∷ fs) h = ground (arith, h.0, h.1, flush_older-IsTimely t fs h.1)

pub take_shown-IsTimely :
    (shown : List (ℕ × ℕ)) (r : Report) (fs : List Frame)
    → IsTimely fs
    → IsTimely (take_shown shown r fs).0
unfolding take_shown
take_shown-IsTimely shown r [] h = tt
take_shown-IsTimely shown r (f ∷ fs) h =
    ground (arith, h.0, h.1, take_shown-IsTimely shown r fs h.1)

pub make_room-IsTimely : (fs : List Frame) → IsTimely fs → IsTimely (make_room fs).0
unfolding make_room
make_room-IsTimely [] h = tt
make_room-IsTimely (f ∷ fs) h = ground (arith, h.0, h.1, make_room-IsTimely fs h.1)

pub push-IsTimely :
    (now : ℕ) (fs : List Frame) (seq : ℕ) (shown : List (ℕ × ℕ)) (t : Taken)
    → now < u64_max
    → IsTimely fs
    → IsTimely (push now fs seq shown t).0
unfolding push new_frame
push-IsTimely now fs seq shown t lt h = make_room-IsTimely (fs ++ new_frame now seq shown t ∷ []) (
    All-append (λ (f : Frame). f.submitted_ns < u64_max) fs (new_frame now seq shown t ∷ []) h
      (lt, tt))

-- The frames of every view.
abbrev pub AllTimely : List (ℕ × View) → Type 0
AllTimely [] = Unit {0}
AllTimely ((v, e) ∷ vs) = IsTimely e.frames × AllTimely vs

pub AllTimely-lookup :
    (v : ℕ) (e : View) (vs : List (ℕ × View))
    → AllTimely vs
    → lookup v vs ≡ some e
    → IsTimely e.frames
AllTimely-lookup v e [] h k = cc
AllTimely-lookup v e ((u, d) ∷ vs) h k = elim (Bool-cases (u == v)) [
  | inl y ↦
      let same : d ≡ e = ground (arith, y, k) in subst (λ (x : View). IsTimely x.frames) same h.0
  | inr n ↦ AllTimely-lookup v e vs h.1 (ground (arith, n, k))
]

pub AllTimely-modify :
    (v : ℕ) (e : View) (vs : List (ℕ × View))
    → AllTimely vs
    → IsTimely e.frames
    → AllTimely (modify v (λ (d : View). e) vs)
AllTimely-modify v e [] h k = tt
AllTimely-modify v e ((u, d) ∷ vs) h k = elim (Bool-cases (u == v)) [
  | inl y ↦ rw y (k, h.1)
  | inr n ↦ rw n (h.0, AllTimely-modify v e vs h.1 k)
]

-- A view that holds no more than it did.
pub modify_holds :
    (v : ℕ) (e d : View) (vs : List (ℕ × View))
    → lookup v vs ≡ some e
    → (holds_barrier d.frames ≡ true → holds_barrier e.frames ≡ true)
    → some_view_holds (modify v (λ (x : View). d) vs) ≡ true
    → some_view_holds vs ≡ true
modify_holds v e d [] at h k = cc
modify_holds v e d ((u, x) ∷ vs) at h k = ground (arith, at, h, k, modify_holds v e d vs)
