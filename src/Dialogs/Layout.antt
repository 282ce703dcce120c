-- ===== src/Dialogs/Layout.antt =====
-- Where `view_windows` of src/dialogs.rs puts dialogs.
use ihs_wl_server.Prelude.{
  ◌*◌, ℕ, ◌+◌, ◌-◌, ◌≤◌, ◌≡◌, refl, not, ◌||◌, List, [], ◌∷◌, some, ◌==◌, ==_iff, All, All-append,
  arith, Bool-cases, Option-cases, inl, inr, ◌⊎◌,
}
use ihs_wl_server.Binding.{Toplevel, Server}
use ihs_wl_server.Binding.Requests.{root_from, max_depth}
use ihs_wl_server.Dialogs.{
  Window, Sizes, centered, find_window, over, join, join_all, view_root, bounds_of, view_windows,
}

-- A window lies inside the view, or at its edge if it is larger; and it belongs to the view's root.
pub record IsPlaced (sizes : Sizes) (bounds : ℕ × ℕ) (root : ℕ) (all : List (ℕ × Toplevel))
    (w : Window) : Type 0 where
  pub across : w.x ≤ bounds.0 - (sizes.window w.toplevel).0
  pub down : w.y ≤ bounds.1 - (sizes.window w.toplevel).1
  pub rooted : (w.toplevel ≡ root) ⊎ (root_from max_depth w.toplevel all ≡ root)

over-IsPlaced :
    (sizes : Sizes) (bounds : ℕ × ℕ) (root : ℕ) (all : List (ℕ × Toplevel)) (t : ℕ) (w : Window)
    → root_from max_depth t all ≡ root
    → IsPlaced sizes bounds root all (over sizes bounds w t)
unfolding over centered
over-IsPlaced sizes bounds root all t w e = record {
  across = omega arith;
  down = omega arith;
  rooted = inr e;
}

join-IsPlaced :
    (sizes : Sizes) (bounds : ℕ × ℕ) (root : ℕ) (all : List (ℕ × Toplevel)) (t : ℕ) (e : Toplevel)
    (ws : List Window)
    → All (IsPlaced sizes bounds root all) ws
    → All (IsPlaced sizes bounds root all) (join sizes bounds root all t e ws)
unfolding join
join-IsPlaced sizes bounds root all t e ws h = elim (Option-cases e.parent) [
  | inl f ↦ rw (f, join) h
  | inr (p, f) ↦
      rw (f, join)
        (elim (Bool-cases (not e.mapped || not (root_from max_depth t all == root))) [
          | inl g ↦ rw g h
          | inr g ↦ rw g (elim (Option-cases (find_window p ws)) [
            | inl k ↦ rw k h
            | inr (w, k) ↦ rw k (
                All-append (IsPlaced sizes bounds root all) ws (over sizes bounds w t ∷ []) h (
                  over-IsPlaced sizes bounds root all t w
                      (ground (arith, g, ==_iff (root_from max_depth t all) root)),
                  tt,
                ))
          ])
        ])
]

join_all-IsPlaced :
    (sizes : Sizes) (bounds : ℕ × ℕ) (root : ℕ) (all ts : List (ℕ × Toplevel)) (ws : List Window)
    → All (IsPlaced sizes bounds root all) ws
    → All (IsPlaced sizes bounds root all) (join_all sizes bounds root all ts ws)
unfolding join_all
join_all-IsPlaced sizes bounds root all [] ws h = h
join_all-IsPlaced sizes bounds root all ((t, e) ∷ ts) ws h =
    join_all-IsPlaced sizes bounds root all ts (join sizes bounds root all t e ws)
      (join-IsPlaced sizes bounds root all t e ws h)

-- Every window of a view lies inside the view as far as it is not larger, whatever sizes and parents
-- clients give, and goes back, over 16 parents at most, to the toplevel that the view shows.
pub view_windows-IsPlaced :
    (sizes : Sizes) (v root : ℕ) (s : Server)
    → view_root v s ≡ some root
    → All (IsPlaced sizes (bounds_of sizes v root) root s.toplevels) (view_windows sizes v s)
unfolding view_windows
view_windows-IsPlaced sizes v root s e =
    rw (e, view_windows)
      (join_all-IsPlaced sizes (bounds_of sizes v root) root s.toplevels s.toplevels
        (record { toplevel = root; x = 0; y = 0 } ∷ [])
        (record { across = omega arith; down = omega arith; rooted = inl refl }, tt))

-- A dialog no larger than its parent, which lies inside the view, is centered over it to the pixel,
-- and inside it.
centered_lem :
    (at parent size bound : ℕ)
    → size ≤ parent
    → at + parent ≤ bound
    → let x = centered at parent size bound in
      (2 * x + size ≤ 2 * at + parent)
      × (2 * at + parent ≤ 2 * x + size + 1)
      × (at ≤ x)
      × (x + size ≤ at + parent)
unfolding centered
centered_lem at parent size bound fits inside = ground arith
