-- ===== src/Binding/Waiting.antt =====
-- Which toplevel a view of src/state.rs binds, and which views are left waiting.
use mathlib.Core.Path.{subst}
use ihs_wl_server.Prelude.{
  ap, contains, ℕ, ◌<◌, ◌≡◌, refl, ◌∙◌, sym, true, false, ◌||◌, List, [], ◌∷◌, none, some, ◌==◌,
  ==_iff, lookup, lookup-modify, lookup-below, IsSorted, arith, Bool-cases, Option-cases, ◌⊎◌, inl,
  inr,
}
use ihs_wl_server.Binding.{
  Params, View, Toplevel, Server, Effect, matches, find_match, bind, try_bind_view, bind_each,
  sorted_insert, waiting, bind_waiting_views, show_toplevel, shown_in,
}
use ihs_wl_server.Binding.Consistent.{
  IsConsistent, find_match-matches, try_bind_view-cases, try_bind_view-IsConsistent,
}
use ihs_wl_server.Binding.Suits.{Suits, matches→Suits, Suits→matches}

find_match-none :
    (p : Params) (ts : List (ℕ × Toplevel)) (t : ℕ) (w : Toplevel)
    → find_match p ts ≡ none
    → lookup t ts ≡ some w
    → matches p w ≡ false
unfolding find_match
find_match-none p [] t w m e = cc
find_match-none p ((i, x) ∷ ts) t w m e = elim (Bool-cases (matches p x)) [
  | inl y ↦ absurd (ground (arith, m, y))
  | inr n ↦ ground (arith, m, n, e, find_match-none p ts t w)
]

-- None of the toplevels before the one found matches.
find_match-first :
    (p : Params) (low high : ℕ) (ts : List (ℕ × Toplevel)) (t r : ℕ) (w : Toplevel)
    → IsSorted low high ts
    → find_match p ts ≡ some t
    → lookup r ts ≡ some w
    → r < t
    → matches p w ≡ false
unfolding find_match
find_match-first p low high [] t r w s m e lt = cc
find_match-first p low high ((i, x) ∷ ts) t r w s m e lt = elim (Bool-cases (matches p x)) [
  | inl y ↦ absurd (ground (arith, m, y, e, lt, lookup-below i high r ts s.1))
  | inr n ↦ ground (arith, m, n, e, find_match-first p i high ts t r w s.1)
]

-- A view that waits has nothing to bind.
abbrev pub IsSettled : ℕ → Server → Type 0
IsSettled v s =
    (t : ℕ) (e : View) (w : Toplevel)
    → lookup v s.views ≡ some e
    → e.toplevel ≡ none
    → lookup t s.toplevels ≡ some w
    → matches e.params w ≡ false

try_bind_view-settles :
    (v : ℕ) (s : Server) → IsSorted 0 s.next_id s.toplevels → IsSettled v (try_bind_view v s).0
unfolding try_bind_view bind
try_bind_view-settles v s h t e w a f b = elim (Option-cases (lookup v s.views)) [
  | inl n ↦ absurd (ground (arith, n, a))
  | inr (d, at) ↦ elim (Option-cases d.toplevel) [
    | inr (r, g) ↦ absurd (ground (arith, at, g, a, f))
    | inl g ↦ elim (Option-cases (find_match d.params s.toplevels)) [
      | inl m ↦ ground (arith, at, g, m, a, b, find_match-none d.params s.toplevels t w m)
      | inr (r, m) ↦
          let eq : try_bind_view v s ≡ bind v r s = ground (arith, at, g, m) in
          let a' = sym (ap (λ (o : Server × List Effect). lookup v o.0.views) eq) ∙ a in
          absurd (ground (arith, at, a', f, lookup-modify v v (show_toplevel (some r)) s.views))
    ]
  ]
]

-- A binding takes away what others could bind, and gives nothing.
IsSettled-try_bind_view :
    (u v : ℕ) (s : Server)
    → IsSorted 0 s.next_id s.toplevels
    → IsSettled v s
    → IsSettled v (try_bind_view u s).0
unfolding bind matches
IsSettled-try_bind_view u v s h k t e w a f b = elim (try_bind_view-cases u s h) [
  | inl same ↦ k t e w (ground (arith, same, a)) f (ground (arith, same, b))
  | inr (r, d, x, c) ↦
      let a' = sym (ap (λ (o : Server × List Effect). lookup v o.0.views) c.result) ∙ a in
      let b' = sym (ap (λ (o : Server × List Effect). lookup t o.0.toplevels) c.result) ∙ b in
      elim (Bool-cases (u == v)) [
        | inl same ↦ absurd (
            ground (
              arith,
              same,
              ==_iff u v,
              c.view,
              a',
              f,
              lookup-modify v u (show_toplevel (some r)) s.views,
            ))
        | inr other ↦ elim (Bool-cases (r == t)) [
          | inl same ↦ ground (
            arith,
            same,
            ==_iff r t,
            c.toplevel,
            b',
            lookup-modify t r (shown_in (some u)) s.toplevels,
          )
          | inr apart ↦
              k t e w
                (ground (arith, other, a', lookup-modify v u (show_toplevel (some r)) s.views)) f
                (ground (arith, apart, b', lookup-modify t r (shown_in (some u)) s.toplevels))
        ]
      ]
]

IsSettled-bind_each :
    (v : ℕ) (vs : List ℕ) (s : Server)
    → IsConsistent s
    → IsSettled v s
    → IsSettled v (bind_each vs s).0
unfolding bind_each
IsSettled-bind_each v [] s h k = k
IsSettled-bind_each v (u ∷ vs) s h k =
    IsSettled-bind_each v vs (try_bind_view u s).0 (try_bind_view-IsConsistent u s h)
      (IsSettled-try_bind_view u v s h.ids k)

bind_each-settles :
    (v : ℕ) (vs : List ℕ) (s : Server)
    → IsConsistent s
    → contains vs v ≡ true
    → IsSettled v (bind_each vs s).0
unfolding bind_each
bind_each-settles v [] s h c = cc
bind_each-settles v (u ∷ vs) s h c = elim (Bool-cases (u == v)) [
  | inl e ↦ IsSettled-bind_each v vs (try_bind_view u s).0 (try_bind_view-IsConsistent u s h) (
      subst (λ n. IsSettled n (try_bind_view u s).0) ((==_iff u v).0 e)
        (try_bind_view-settles u s h.ids))
  | inr n ↦
      bind_each-settles v vs (try_bind_view u s).0 (try_bind_view-IsConsistent u s h)
        (ground (arith, n, c))
]

contains-sorted_insert :
    (v u : ℕ) (vs : List ℕ) → contains (sorted_insert u vs) v ≡ (u == v || contains vs v)
unfolding sorted_insert
contains-sorted_insert v u [] = refl
contains-sorted_insert v u (w ∷ vs) = ground (arith, contains-sorted_insert v u vs)

contains-waiting :
    (v : ℕ) (e : View) (vs : List (ℕ × View))
    → lookup v vs ≡ some e
    → e.toplevel ≡ none
    → contains (waiting vs) v ≡ true
unfolding waiting
contains-waiting v e [] a f = cc
contains-waiting v e ((u, d) ∷ vs) a f =
    ground (arith, a, f, contains-waiting v e vs, contains-sorted_insert v u (waiting vs))

-- A view that shows something, or is not there, waits for nothing.
shown-IsSettled : (v : ℕ) (s : Server) → contains (waiting s.views) v ≡ false → IsSettled v s
shown-IsSettled v s n t e w a f b = absurd (ground (arith, n, contains-waiting v e s.views a f))

-- Once the waiting views were given their turn, none of them is left beside a toplevel that it could
-- bind: from a consistent state, a view that still shows nothing suits no toplevel there is.
pub bind_waiting_views_complete :
    (s : Server) (v t : ℕ) (e : View) (w : Toplevel)
    → IsConsistent s
    → lookup v (bind_waiting_views s).0.views ≡ some e
    → e.toplevel ≡ none
    → lookup t (bind_waiting_views s).0.toplevels ≡ some w
    → ¬ Suits e.params w
unfolding bind_waiting_views
bind_waiting_views_complete s v t e w h a f b suits =
    elim (Bool-cases (contains (waiting s.views) v)) [
      | inl c ↦ ground (
        arith,
        bind_each-settles v (waiting s.views) s h c t e w a f b,
        Suits→matches e.params w suits,
      )
      | inr n ↦ ground (
        arith,
        IsSettled-bind_each v (waiting s.views) s h (shown-IsSettled v s n) t e w a f b,
        Suits→matches e.params w suits,
      )
    ]

-- What a waiting view of a consistent state binds, it suits, and no older toplevel suits it; if it
-- binds none, none suits it.
pub try_bind_view-oldest :
    (v : ℕ) (e : View) (s : Server)
    → IsConsistent s
    → lookup v s.views ≡ some e
    → e.toplevel ≡ none
    → ((try_bind_view v s ≡ (s, []))
        × ((r : ℕ) (x : Toplevel) → lookup r s.toplevels ≡ some x → ¬ Suits e.params x))
      ⊎ ((t : ℕ) × (w : Toplevel) × (lookup t s.toplevels ≡ some w)
          × Suits e.params w
          × (try_bind_view v s ≡ bind v t s)
          × ((r : ℕ) (x : Toplevel) → lookup r s.toplevels ≡ some x → r < t → ¬ Suits e.params x))
unfolding try_bind_view
try_bind_view-oldest v e s h at free = elim (Option-cases (find_match e.params s.toplevels)) [
  | inl m ↦ inl (
    ground (arith, at, free, m),
    λ r x b suits.
        ground
          (arith, find_match-none e.params s.toplevels r x m b, Suits→matches e.params x suits),
  )
  | inr (t, m) ↦
      let (w, there, ok, above) = find_match-matches e.params 0 s.next_id s.toplevels t h.ids m in
      inr (
        t,
        w,
        there,
        matches→Suits e.params w ok,
        ground (arith, at, free, m),
        λ r x b lt suits. ground (
          arith,
          find_match-first e.params 0 s.next_id s.toplevels t r x h.ids m b lt,
          Suits→matches e.params x suits,
        ),
      )
]
