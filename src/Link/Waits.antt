-- ===== src/Link/Waits.antt =====
-- How a dispose of src/view.rs that waits for the lock comes to its end.
use ihs_wl_server.Prelude.{
  ℕ, suc, ◌+◌, ◌≤◌, ◌≡◌, ◌⊎◌, refl, ap, ◌∙◌, Bool, true, false, none, some, arith, inl, inr,
}
use ihs_wl_server.Link.Threads.{
  compositor, Submitter, idle, locked, calling, Disposer, between, renegotiating, disposing,
  clearing, cleared, returned, World, created, Step, lock, call, give_up, finish, renegotiate,
  renegotiated, dispose, lock_dispose, clear, return, Reach, here, next,
}
use ihs_wl_server.Link.Disposed.{IsOrdered, Reach-IsOrdered, created-IsOrdered, Reach-trans}

-- A dispose's own steps.
abbrev pub own_step : {u v : World} → Step u v → ℕ
own_step (lock w a b) = 0
own_step (call w a b) = 0
own_step (give_up w a b) = 0
own_step (finish w a) = 0
own_step (renegotiate w a b) = 0
own_step (renegotiated w a) = 0
own_step (dispose w a) = 0
own_step (lock_dispose w a b) = 1
own_step (clear w a) = 1
own_step (return w a) = 1

abbrev pub own_steps : {u v : World} → Reach u v → ℕ
own_steps here = 0
own_steps (next r st) = own_steps r + own_step st

abbrev pub steps : {u v : World} → Reach u v → ℕ
steps here = 0
steps (next r st) = suc (steps r)

-- The own steps that are left.
abbrev pub left : Disposer → ℕ
left between = 3
left renegotiating = 3
left disposing = 3
left clearing = 2
left cleared = 1
left returned = 0

abbrev is_disposing : Disposer → Bool
is_disposing between = false
is_disposing renegotiating = false
is_disposing disposing = true
is_disposing clearing = true
is_disposing cleared = true
is_disposing returned = true

own_step-left : {u v : World} (st : Step u v) → own_step st + left v.disposer ≡ left u.disposer
own_step-left (lock w a b) = omega arith
own_step-left (call w a b) = omega arith
own_step-left (give_up w a b) = omega arith
own_step-left (finish w a) = omega arith
own_step-left (renegotiate w a b) = rw a refl
own_step-left (renegotiated w a) = rw a refl
own_step-left (dispose w a) = rw a refl
own_step-left (lock_dispose w a b) = rw a refl
own_step-left (clear w a) = rw a refl
own_step-left (return w a) = rw a refl

own_steps-left : {u v : World} (r : Reach u v) → own_steps r + left v.disposer ≡ left u.disposer
own_steps-left here = omega arith
own_steps-left (next r st) = omega (arith, own_steps-left r, own_step-left st)

Step-disposing :
    {u v : World} → Step u v → is_disposing u.disposer ≡ true → is_disposing v.disposer ≡ true
Step-disposing (lock w a b) e = e
Step-disposing (call w a b) e = e
Step-disposing (give_up w a b) e = e
Step-disposing (finish w a) e = e
Step-disposing (renegotiate w a b) e = ground (arith, a, e)
Step-disposing (renegotiated w a) e = ground (arith, a, e)
Step-disposing (dispose w a) e = refl
Step-disposing (lock_dispose w a b) e = refl
Step-disposing (clear w a) e = refl
Step-disposing (return w a) e = refl

Reach-disposing :
    {u v : World} → Reach u v → is_disposing u.disposer ≡ true → is_disposing v.disposer ≡ true
Reach-disposing here e = e
Reach-disposing (next r st) e = Step-disposing st (Reach-disposing r e)

-- The next own step can be taken.
abbrev pub GoesOn : World → Type 0
GoesOn w = (u : World) × (st : Step w u) × (own_step st ≡ 1)

-- The compositor thread has the lock, and gives it back in two steps at most.
abbrev pub WaitsOut : World → Type 0
WaitsOut w =
    (w.holder ≡ some compositor)
    × ((u : World) × (q : Reach w u) × (steps q ≤ 2)
        × (u.holder ≡ none)
        × (u.disposer ≡ w.disposer))

Submitter-cases : (s : Submitter) → (s ≡ idle) ⊎ ((s ≡ locked) ⊎ (s ≡ calling))
Submitter-cases idle = inl refl
Submitter-cases locked = inr (inl refl)
Submitter-cases calling = inr (inr refl)

waits_out : (w : World) → IsOrdered w → w.disposer ≡ disposing → GoesOn w ⊎ WaitsOut w
waits_out w h d = elim (Submitter-cases w.submitter) [
  | inl e ↦ inl (_, lock_dispose w d (ground (arith, h.owned, e, d)), refl)
  | inr (inl e) ↦
      let w1 = record w { submitter = calling } in
      let q = next (next here (call w e (ground (arith, h.there, d)))) (finish w1 refl) in
      inr (ground (arith, h.owned, e), (_, q, omega arith, refl, refl))
  | inr (inr e) ↦
      inr (ground (arith, h.owned, e), (_, next here (finish w e), omega arith, refl, refl))
]

Disposer-cases :
    (d : Disposer)
    → is_disposing d ≡ true
    → (d ≡ returned) ⊎ ((d ≡ cleared) ⊎ ((d ≡ clearing) ⊎ (d ≡ disposing)))
Disposer-cases between e = absurd (ground (arith, e))
Disposer-cases renegotiating e = absurd (ground (arith, e))
Disposer-cases returned e = inl refl
Disposer-cases cleared e = inr (inl refl)
Disposer-cases clearing e = inr (inr (inl refl))
Disposer-cases disposing e = inr (inr (inr refl))

-- Wherever the two threads are after a `dispose` began to wait for the lock: it has three steps of its own
-- in all, of which those not yet taken are left, and it has returned, or can take the next of them now,
-- or waits for the compositor thread, which has the lock and can give it back in two steps at most.
pub dispose_ends :
    {w v : World}
    → Reach created w
    → w.disposer ≡ disposing
    → (later : Reach w v)
    → (own_steps later + left v.disposer ≡ 3) × ((v.disposer ≡ returned) ⊎ GoesOn v ⊎ WaitsOut v)
dispose_ends {w} {v} r d later =
    let on : is_disposing v.disposer ≡ true = Reach-disposing later (rw d refl) in
    (
      own_steps-left later ∙ ap left d,
      elim (Disposer-cases v.disposer on) [
        | inl e ↦ inl e
        | inr (inl e) ↦ inr (inl (_, return v e, refl))
        | inr (inr (inl e)) ↦ inr (inl (_, clear v e, refl))
        | inr (inr (inr e)) ↦
            inr (waits_out v (Reach-IsOrdered created-IsOrdered (Reach-trans r later)) e)
      ],
    )
