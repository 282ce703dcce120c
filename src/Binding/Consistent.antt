-- ===== src/Binding/Consistent.antt =====
-- The two sides of a binding of src/state.rs agree: a view's toplevel and a toplevel's view.
use ihs_wl_server.Prelude.{
  ℕ, ◌<◌, ◌≡◌, true, List, [], ◌∷◌, Option, none, some, ==_iff, lookup, lookup-modify, IsSorted,
  IsSorted-modify, arith, Bool-cases, Option-cases, ◌⊎◌, inl, inr,
}
use ihs_wl_server.Binding.{
  Params, View, Toplevel, Server, in_sandbox, matches, find_match, bind, try_bind_view, bind_each,
  unbind_view, part, show_toplevel, shown_in,
}
use ihs_wl_server.Binding.Requests.{view_of}

abbrev pub shown_by : ℕ → List (ℕ × View) → Option ℕ
shown_by v vs = elim (lookup v vs) [ none ↦ none | some e ↦ e.toplevel ]

-- A view shows a toplevel exactly if the toplevel names the view: so no toplevel is shown twice. The
-- toplevels stand in the order of their ids, none above the last handed out. A shown
-- toplevel is mapped, and its client is in the sandbox that the view names, if it names one.
pub record IsConsistent (s : Server) : Type 0 where
  pub forth : (v t : ℕ) → shown_by v s.views ≡ some t → view_of t s.toplevels ≡ some v
  pub back : (v t : ℕ) → view_of t s.toplevels ≡ some v → shown_by v s.views ≡ some t
  pub ids : IsSorted 0 s.next_id s.toplevels
  pub allowed :
      (v t : ℕ) (e : View) (w : Toplevel)
      → lookup v s.views ≡ some e
      → lookup t s.toplevels ≡ some w
      → w.view ≡ some v
      → (w.mapped ≡ true) × (in_sandbox e.params.sandbox_app_id w.sandbox ≡ true)

-- What `find_match` finds is there, and matches.
pub find_match-matches :
    (p : Params) (low high : ℕ) (ts : List (ℕ × Toplevel)) (t : ℕ)
    → IsSorted low high ts
    → find_match p ts ≡ some t
    → (w : Toplevel) × (lookup t ts ≡ some w) × (matches p w ≡ true) × (low < t)
unfolding find_match
find_match-matches p low high [] t h e = cc
find_match-matches p low high ((i, w) ∷ ts) t h e = elim (Bool-cases (matches p w)) [
  | inl m ↦ (w, ground (arith, e, m), m, ground (arith, e, m, h.0))
  | inr m ↦
      let (u, at, ok, above) = find_match-matches p i high ts t h.1 (ground (arith, e, m)) in
      (u, ground (arith, at, above, h.0), ok, omega (arith, above, h.0))
]

bind-IsConsistent :
    (v t : ℕ) (e : View) (w : Toplevel) (s : Server)
    → lookup v s.views ≡ some e
    → e.toplevel ≡ none
    → lookup t s.toplevels ≡ some w
    → w.view ≡ none
    → w.mapped ≡ true
    → in_sandbox e.params.sandbox_app_id w.sandbox ≡ true
    → IsConsistent s
    → IsConsistent (bind v t s).0
unfolding bind
bind-IsConsistent v t e w s at free there unshown mapped inside h = record {
  forth = λ u r p. ground (
    arith,
    lookup-modify u v (show_toplevel (some t)) s.views,
    lookup-modify r t (shown_in (some v)) s.toplevels,
    ==_iff v u,
    ==_iff t r,
    h.forth u r,
  );
  back = λ u r p. ground (
    arith,
    lookup-modify u v (show_toplevel (some t)) s.views,
    lookup-modify r t (shown_in (some v)) s.toplevels,
    ==_iff v u,
    ==_iff t r,
    h.back u r,
  );
  ids = IsSorted-modify 0 s.next_id t (shown_in (some v)) s.toplevels h.ids;
  allowed = λ u r d x a c p. ground (
    arith,
    lookup-modify u v (show_toplevel (some t)) s.views,
    lookup-modify r t (shown_in (some v)) s.toplevels,
    ==_iff v u,
    ==_iff t r,
    h.allowed u r d x,
    h.allowed u r e x,
    h.back u r,
    h.back v r,
  );
}

part-IsConsistent :
    (v : ℕ) (s : Server) → IsConsistent s → IsConsistent (part v (shown_by v s.views) s)
part-IsConsistent v s h = elim (Option-cases (shown_by v s.views)) [
  | inl e ↦ rw e h
  | inr (t, e) ↦ rw e (record {
    forth = λ u r p. ground (
      arith,
      lookup-modify u v (show_toplevel none) s.views,
      lookup-modify r t (shown_in none) s.toplevels,
      ==_iff v u,
      ==_iff t r,
      h.forth u r,
      h.forth v t,
    );
    back = λ u r p. ground (
      arith,
      lookup-modify u v (show_toplevel none) s.views,
      lookup-modify r t (shown_in none) s.toplevels,
      ==_iff v u,
      ==_iff t r,
      h.back u r,
      h.forth v t,
    );
    ids = IsSorted-modify 0 s.next_id t (shown_in none) s.toplevels h.ids;
    allowed = λ u r d x a c p. elim (Option-cases (lookup u s.views)) [
      | inl g ↦ absurd (ground (arith, a, g, lookup-modify u v (show_toplevel none) s.views))
      | inr (d', g) ↦ elim (Option-cases (lookup r s.toplevels)) [
        | inl k ↦ absurd (ground (arith, c, k, lookup-modify r t (shown_in none) s.toplevels))
        | inr (x', k) ↦ ground (
          arith,
          lookup-modify u v (show_toplevel none) s.views,
          lookup-modify r t (shown_in none) s.toplevels,
          ==_iff v u,
          ==_iff t r,
          h.allowed u r d' x' g k,
        )
      ]
    ];
  })
]

matches-allowed :
    (p : Params) (w : Toplevel)
    → matches p w ≡ true
    → (w.mapped ≡ true) × (in_sandbox p.sandbox_app_id w.sandbox ≡ true)
unfolding matches
matches-allowed p w h = ground arith

matches-free : (p : Params) (w : Toplevel) → matches p w ≡ true → w.view ≡ none
unfolding matches
matches-free p w h = ground arith

-- A view that is bound now was free, and its toplevel is one that it matches.
pub record Binds (v t : ℕ) (e : View) (w : Toplevel) (s : Server) : Type 0 where
  pub view : lookup v s.views ≡ some e
  pub free : e.toplevel ≡ none
  pub found : find_match e.params s.toplevels ≡ some t
  pub toplevel : lookup t s.toplevels ≡ some w
  pub matched : matches e.params w ≡ true
  pub result : try_bind_view v s ≡ bind v t s

pub try_bind_view-cases :
    (v : ℕ) (s : Server)
    → IsSorted 0 s.next_id s.toplevels
    → (try_bind_view v s ≡ (s, [])) ⊎ ((t : ℕ) × (e : View) × (w : Toplevel) × Binds v t e w s)
unfolding try_bind_view
try_bind_view-cases v s h = elim (Option-cases (lookup v s.views)) [
  | inl e ↦ inl (ground (arith, e))
  | inr (e, at) ↦ elim (Option-cases e.toplevel) [
    | inr (t, f) ↦ inl (ground (arith, at, f))
    | inl f ↦ elim (Option-cases (find_match e.params s.toplevels)) [
      | inl m ↦ inl (ground (arith, at, f, m))
      | inr (t, m) ↦
          let (w, there, ok, above) = find_match-matches e.params 0 s.next_id s.toplevels t h m in
          inr (
            t,
            e,
            w,
            record {
              view = at;
              free = f;
              found = m;
              toplevel = there;
              matched = ok;
              result = ground (arith, at, f, m);
            },
          )
    ]
  ]
]

pub try_bind_view-IsConsistent :
    (v : ℕ) (s : Server) → IsConsistent s → IsConsistent (try_bind_view v s).0
try_bind_view-IsConsistent v s h = elim (try_bind_view-cases v s h.ids) [
  | inl same ↦ rw same h
  | inr (t, e, w, b) ↦ rw b.result (
      bind-IsConsistent v t e w s b.view b.free b.toplevel (matches-free e.params w b.matched)
        (matches-allowed e.params w b.matched).0 (matches-allowed e.params w b.matched).1 h)
]

pub bind_each-IsConsistent :
    (vs : List ℕ) (s : Server) → IsConsistent s → IsConsistent (bind_each vs s).0
unfolding bind_each
bind_each-IsConsistent [] s h = h
bind_each-IsConsistent (v ∷ vs) s h =
    bind_each-IsConsistent vs (try_bind_view v s).0 (try_bind_view-IsConsistent v s h)

pub unbind_view-IsConsistent :
    (v : ℕ) (s : Server) → IsConsistent s → IsConsistent (unbind_view v s).0
unfolding unbind_view
unbind_view-IsConsistent v s h = ground (arith, part-IsConsistent v s h)

-- And then the view shows nothing.
pub unbind_view-shown_by : (v : ℕ) (s : Server) → shown_by v (unbind_view v s).0.views ≡ none
unfolding unbind_view
unbind_view-shown_by v s = elim (Option-cases (lookup v s.views)) [
  | inl e ↦ ground (arith, e)
  | inr (e, at) ↦ elim (Option-cases e.toplevel) [
    | inl f ↦ ground (arith, at, f)
    | inr (t, f) ↦ ground (arith, at, f, lookup-modify v v (show_toplevel none) s.views)
  ]
]
