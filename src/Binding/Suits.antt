-- ===== src/Binding/Suits.antt =====
-- What `try_bind_view` of src/state.rs looks for, as a specification of its test.
use ihs_wl_server.Prelude.{ℕ, ◌≡◌, refl, true, Option, none, some, arith, Option-cases, inl, inr}
use ihs_wl_server.Binding.{Params, Toplevel, in_sandbox, by_app_id, matches}

-- What a view may bind: a mapped toplevel that no view shows and that is no dialog; of a client in
-- the sandbox that the view names, if it names one; activated with the token that the view names, or
-- with none if it names none; and with no token, of the app id that the view names, if it names one,
-- which a sandboxed client has only if it is its sandbox's.
pub record Suits (p : Params) (w : Toplevel) : Type 0 where
  pub mapped : w.mapped ≡ true
  pub unshown : w.view ≡ none
  pub parentless : w.parent ≡ none
  pub sandbox : (a : ℕ) → p.sandbox_app_id ≡ some a → w.sandbox ≡ some (some a)
  pub token : w.token ≡ p.token
  pub app_id :
      (a : ℕ)
      → p.token ≡ none
      → p.app_id ≡ some a
      → (w.app_id ≡ a) × ((c : Option ℕ) → w.sandbox ≡ some c → c ≡ some a)

pub matches→Suits : (p : Params) (w : Toplevel) → matches p w ≡ true → Suits p w
unfolding matches
matches→Suits p w h = record {
  mapped = ground arith;
  unshown = ground arith;
  parentless = ground arith;
  sandbox = λ a e. ground arith;
  token = ground arith;
  app_id = λ a e f. (ground arith, λ c g. ground arith);
}

in_sandbox_of :
    (o : Option ℕ) (context : Option (Option ℕ))
    → ((a : ℕ) → o ≡ some a → context ≡ some (some a))
    → in_sandbox o context ≡ true
in_sandbox_of none context h = refl
in_sandbox_of (some a) context h = ground (arith, h a refl)

by_app_id_of :
    (o : Option ℕ) (w : Toplevel)
    → ((a : ℕ) → o ≡ some a → (w.app_id ≡ a) × ((c : Option ℕ) → w.sandbox ≡ some c → c ≡ some a))
    → by_app_id o w ≡ true
by_app_id_of none w h = refl
by_app_id_of (some a) w h = elim (Option-cases w.sandbox) [
  | inl e ↦ ground (arith, e, (h a refl).0)
  | inr (c, e) ↦ ground (arith, e, (h a refl).0, (h a refl).1 c e)
]

pub Suits→matches : (p : Params) (w : Toplevel) → Suits p w → matches p w ≡ true
unfolding matches
Suits→matches p w h = elim (Option-cases p.token) [
  | inl e ↦ ground (
    arith,
    e,
    h,
    in_sandbox_of p.sandbox_app_id w.sandbox h.sandbox,
    by_app_id_of p.app_id w (λ a. h.app_id a e),
  )
  | inr (a, e) ↦ ground (arith, e, h, in_sandbox_of p.sandbox_app_id w.sandbox h.sandbox)
]
