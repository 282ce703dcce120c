-- ===== src/Windows/States.antt =====
-- Sets of window states, and when two pending states are equal.
use ihs_wl_server.Prelude.{
  ℕ, ◌≡◌, refl, Bool, true, false, not, List, [], ◌∷◌, Option, none, some, ◌==◌, ==_iff,
  if◌then◌else◌, contains, contains-append, retain, arith,
}
use ihs_wl_server.Windows.{Pending, set_state, list_eq, size_eq, pending_eq}

contains-unset :
    (state s : ℕ) (states : List ℕ)
    → contains (retain (λ x. not (x == state)) states) s
      ≡ (if state == s then false else contains states s)
contains-unset state s [] = ground arith
contains-unset state s (x ∷ states) =
    ground (arith, contains-unset state s states, ==_iff x s, ==_iff x state, ==_iff state s)

pub contains-set_state :
    (state s : ℕ) (on : Bool) (states : List ℕ)
    → contains (set_state state on states) s ≡ (if state == s then on else contains states s)
unfolding set_state
contains-set_state state s true states =
    ground (arith, contains-append s states (state ∷ []), ==_iff state s)
contains-set_state state s false states = contains-unset state s states

list_eq→eq : (xs ys : List ℕ) → list_eq xs ys ≡ true → xs ≡ ys
list_eq→eq [] [] e = refl
list_eq→eq [] (y ∷ ys) e = cc
list_eq→eq (x ∷ xs) [] e = cc
list_eq→eq (x ∷ xs) (y ∷ ys) e = ground (arith, e, list_eq→eq xs ys, ==_iff x y)

size_eq→eq : (a b : Option (ℕ × ℕ)) → size_eq a b ≡ true → a ≡ b
size_eq→eq none none e = refl
size_eq→eq none (some b) e = cc
size_eq→eq (some a) none e = cc
size_eq→eq (some (w, h)) (some (x, y)) e = ground (arith, e, ==_iff w x, ==_iff h y)

pub pending_eq→eq : (p q : Pending) → pending_eq p q ≡ true → p ≡ q
pending_eq→eq p q e = ground (
  arith,
  e,
  size_eq→eq p.size q.size,
  list_eq→eq p.states q.states,
  list_eq→eq p.capabilities q.capabilities,
)
