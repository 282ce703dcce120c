-- ===== src/Lifecycle/Socket.antt =====
-- Which socket `bind_socket` of src/thread.rs takes.
use mathlib.Core.Path.{subst}
use ihs_wl_server.Prelude.{
  ℕ, zero, suc, ◌+◌, ◌≤◌, ◌<◌, ◌≡◌, refl, none, some, arith, ℕ_discrete, ◌⊎◌, inl, inr, sym,
}
use ihs_wl_server.Lifecycle.{
  Bind, bound, already_in_use, failed, Bound, socket, error, bind_from, bind_socket, sockets,
}

abbrev pub AllInUse : (ℕ → Bind) → ℕ → ℕ → Type 0
AllInUse try i j = (k : ℕ) → i ≤ k → k < j → try k ≡ already_in_use

-- What the answer says of the sockets from `i` up to `high`.
abbrev pub Answers : (ℕ → Bind) → ℕ → ℕ → Bound → Type 0
Answers try i high (socket j) = (i ≤ j) × (j < high) × (try j ≡ bound) × AllInUse try i j
Answers try i high (error (some j)) = (i ≤ j) × (j < high) × (try j ≡ failed) × AllInUse try i j
Answers try i high (error none) = AllInUse try i high

earlier :
    (try : ℕ → Bind) (i j : ℕ) → try i ≡ already_in_use → AllInUse try (suc i) j → AllInUse try i j
earlier try i j e h k p q = elim (ℕ_discrete i k) [
  | yes same ↦ rw (sym same) e
  | no apart ↦ h k (omega (arith, apart)) q
]

Bind-cases : (b : Bind) → (b ≡ bound) ⊎ ((b ≡ already_in_use) ⊎ (b ≡ failed))
Bind-cases bound = inl refl
Bind-cases already_in_use = inr (inl refl)
Bind-cases failed = inr (inr refl)

later :
    (try : ℕ → Bind) (i high : ℕ) (b : Bound)
    → try i ≡ already_in_use
    → Answers try (suc i) high b
    → Answers try i high b
later try i high (socket j) e (a, b, c, d) = (omega arith, b, c, λ k p q. earlier try i j e d k p q)
later try i high (error (some j)) e (a, b, c, d) =
    (omega arith, b, c, λ k p q. earlier try i j e d k p q)
later try i high (error none) e d = λ k p q. earlier try i high e d k p q

suc_over : (i n : ℕ) → suc i + n ≡ i + suc n
suc_over i n = omega arith

bind_from-Answers : (try : ℕ → Bind) (left i : ℕ) → Answers try i (i + left) (bind_from try left i)
unfolding bind_from
bind_from-Answers try zero i = λ k p q. absurd (omega arith)
bind_from-Answers try (suc left) i = elim (Bind-cases (try i)) [
  | inl e ↦ rw (e, bind_from) (omega arith, omega arith, e, λ k p q. absurd (omega arith))
  | inr (inl e) ↦
      rw (e, bind_from)
        (later try i (i + suc left) (bind_from try left (suc i)) e (
          subst (λ h. Answers try (suc i) h (bind_from try left (suc i))) (suc_over i left)
            (bind_from-Answers try left (suc i))))
  | inr (inr e) ↦ rw (e, bind_from) (omega arith, omega arith, e, λ k p q. absurd (omega arith))
]

-- The socket that is taken is the first that is not in use, if it can be bound: all before it are in
-- use. An error names the first not in use, or says that all 32 are.
bind_socket_first : (try : ℕ → Bind) → Answers try 0 sockets (bind_socket try)
unfolding bind_socket
bind_socket_first try = bind_from-Answers try sockets 0
