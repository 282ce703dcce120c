-- ===== src/Lifecycle/Threads.antt =====
-- No compositor thread of src/thread.rs is leaked, joined twice or doubled.
use ihs_wl_server.Prelude.{
  ℕ, suc, ◌+◌, ◌≡◌, refl, Bool, true, not, ◌&&◌, List, [], ◌∷◌, Option, none, some, ◌==◌, ==_iff,
  leb, if◌then◌else◌, contains, count, retain, arith, Bool-cases, Option-cases, inl, inr,
}
use ihs_wl_server.Lifecycle.{
  Running, Lifecycle, Startup, no_thread, ready, refused, gone, spawn, reap, start, stop, dies,
  already_running,
}

abbrev pub runs : Option Running → ℕ → ℕ
runs none t = 0
runs (some r) t = if r.thread == t then 1 else 0

-- Every thread spawned so far was joined once, or is the server's; no other thread was joined, and
-- none lives but the server's.
pub record IsAccounted (s : Lifecycle) : Type 0 where
  pub once :
      (t : ℕ) → count t s.joined + runs s.server t ≡ (if leb 1 t && leb t s.spawned then 1 else 0)
  pub alone : (t : ℕ) → contains s.live t ≡ true → runs s.server t ≡ 1

pub data Call : Type 0 where
  starts : Startup → Call
  stops : (panicked : Bool) → Call
  ends : (thread : ℕ) → Call

unfoldable pub step : Call → Lifecycle → Lifecycle
step (starts o) s = (start o s).0
step (stops panicked) s = (stop panicked s).0
step (ends t) s = dies t s

unfoldable pub run : List Call → Lifecycle → Lifecycle
run [] s = s
run (c ∷ cs) s = run cs (step c s)

contains-retain_other :
    (t u : ℕ) (ts : List ℕ)
    → contains (retain (λ v. not (v == u)) ts) t ≡ (contains ts t && not (t == u))
contains-retain_other t u [] = refl
contains-retain_other t u (v ∷ ts) =
    ground (arith, contains-retain_other t u ts, ==_iff v t, ==_iff v u, ==_iff t u)

spawn-IsAccounted :
    (o : Startup) (s : Lifecycle) → s.server ≡ none → IsAccounted s → IsAccounted (spawn o s).0
unfolding spawn
spawn-IsAccounted no_thread s e h = h
spawn-IsAccounted (ready socket) s e h = record {
  once = λ t. ground (arith, h.once t, e, ==_iff (suc s.spawned) t);
  alone = λ t k. ground (arith, h.alone t, k, e, ==_iff (suc s.spawned) t);
}
spawn-IsAccounted (refused code) s e h = record {
  once = λ t. ground (arith, h.once t, e, ==_iff (suc s.spawned) t);
  alone = h.alone;
}
spawn-IsAccounted gone s e h = record {
  once = λ t. ground (arith, h.once t, e, ==_iff (suc s.spawned) t);
  alone = h.alone;
}

start-IsAccounted : (o : Startup) (s : Lifecycle) → IsAccounted s → IsAccounted (start o s).0
unfolding start
start-IsAccounted o s h = elim (Option-cases s.server) [
  | inl e ↦ let eq : start o s ≡ spawn o s = ground (arith, e) in rw eq (spawn-IsAccounted o s e h)
  | inr (r, e) ↦ elim (Bool-cases (contains s.live r.thread)) [
    | inl l ↦ let eq : start o s ≡ (s, already_running) = ground (arith, e, l) in rw eq h
    | inr l ↦
        let eq : start o s ≡ spawn o (reap r s) = ground (arith, e, l) in
        rw eq (
          spawn-IsAccounted o (reap r s) refl (record {
            once = λ t. ground (arith, h.once t, e);
            alone = λ t k. ground (arith, h.alone t, k, e, l, ==_iff r.thread t);
          }))
  ]
]

stop-IsAccounted : (b : Bool) (s : Lifecycle) → IsAccounted s → IsAccounted (stop b s).0
unfolding stop
stop-IsAccounted b s h = elim (Option-cases s.server) [
  | inl e ↦ let eq : (stop b s).0 ≡ s = ground (arith, e) in rw eq h
  | inr (r, e) ↦ record {
    once = λ t. ground (arith, h.once t, e);
    alone = λ t k. ground (
      arith,
      h.alone t,
      k,
      e,
      contains-retain_other t r.thread s.live,
      ==_iff r.thread t,
      ==_iff t r.thread,
    );
  }
]

step-IsAccounted : (c : Call) (s : Lifecycle) → IsAccounted s → IsAccounted (step c s)
unfolding step dies
step-IsAccounted (starts o) s h = start-IsAccounted o s h
step-IsAccounted (stops panicked) s h = stop-IsAccounted panicked s h
step-IsAccounted (ends u) s h = record {
  once = h.once;
  alone = λ t k. ground (arith, h.alone t, k, contains-retain_other t u s.live);
}

-- After any history of starts, stops and threads that end by themselves: every thread that was spawned
-- is the server's or was joined exactly once, and no thread lives beside the server's.
pub run-IsAccounted : (cs : List Call) (s : Lifecycle) → IsAccounted s → IsAccounted (run cs s)
unfolding run
run-IsAccounted [] s h = h
run-IsAccounted (c ∷ cs) s h = run-IsAccounted cs (step c s) (step-IsAccounted c s h)
