-- ===== src/Readiness/Reaped.antt =====
-- `reap_clients` of src/state.rs: the waits of disconnected clients.
use mathlib.Core.Path.{subst, fun_ext}
use ihs_wl_server.Prelude.{
  ℕ, ◌≡◌, ◌≢◌, ◌↔◌, refl, ap, sym, ◌∙◌, true, false, List, [], ◌∷◌, ◌++◌, map, Option, none, some,
  ◌==◌, ==_iff, if◌then◌else◌, length, All, lookup, erase, contains, arith, Bool-cases, inl, inr,
}
use ihs_wl_server.Readiness.{
  Connections, Act, watch, unwatch, add_blocker, blocker_cleared, client_count, waits_dropped,
  waits_of, reap_each, reap_clients, drop_waits, unwatch_entry,
}
use ihs_wl_server.Readiness.Watched.{
  World, update, unless_ready, unless_token, play, act, Watches, IsWatched,
}
use ihs_wl_server.Readiness.Entries.{
  token_of, All-map, contains-token, lookup-token, waits_of-erase,
}

play-append : (xs ys : List Act) (w : World) → play (xs ++ ys) w ≡ play ys (play xs w)
play-append [] ys w = refl
play-append (watch c k t ∷ xs) ys w =
    play-append xs ys (record w { sources = update k (some (c, t)) w.sources })
play-append (unwatch t ∷ xs) ys w =
    play-append xs ys (record w { sources = λ k. unless_token t (w.sources k) })
play-append (add_blocker surface c k ∷ xs) ys w =
    play-append xs ys (record w { blocked = update k (some c) w.blocked })
play-append (blocker_cleared c ∷ xs) ys w =
    play-append xs ys (record w { blocked = λ k. unless_ready c (w.ready k) (w.blocked k) })
play-append (client_count n ∷ xs) ys w = play-append xs ys w
play-append (waits_dropped n ∷ xs) ys w = play-append xs ys w

-- The loop without the sources of the given waits.
unless_in : List (ℕ × ℕ) → Option (ℕ × ℕ) → Option (ℕ × ℕ)
unless_in m none = none
unless_in m (some (c, t)) = if contains (map token_of m) t then none else some (c, t)

unwatched : List (ℕ × ℕ) → World → World
unwatched m w = record w { sources = λ k. unless_in m (w.sources k) }

unless_in-cons :
    (k t : ℕ) (m : List (ℕ × ℕ)) (o : Option (ℕ × ℕ))
    → unless_in m (unless_token t o) ≡ unless_in ((k, t) ∷ m) o
unfolding unless_in
unless_in-cons k t m none = refl
unless_in-cons k t m (some (c, u)) = ground (arith, ==_iff t u, ==_iff u t)

unless_in-nil : (o : Option (ℕ × ℕ)) → o ≡ unless_in [] o
unfolding unless_in
unless_in-nil none = refl
unless_in-nil (some (c, t)) = refl

play-unwatch : (m : List (ℕ × ℕ)) (w : World) → play (map unwatch_entry m) w ≡ unwatched m w
unfolding unwatched
play-unwatch [] w = ap (λ f. record w { sources = f }) (fun_ext λ k. unless_in-nil (w.sources k))
play-unwatch ((k, t) ∷ m) w =
    play-unwatch m (record w { sources = λ j. unless_token t (w.sources j) })
    ∙ ap (λ f. record w { sources = f }) (fun_ext λ j. unless_in-cons k t m (w.sources j))

play-drop_waits : (m : List (ℕ × ℕ)) (w : World) → play (drop_waits m) w ≡ unwatched m w
play-drop_waits [] w = play-unwatch [] w
play-drop_waits (e ∷ m) w = play-unwatch (e ∷ m) w

unless_in-some :
    (m : List (ℕ × ℕ)) (o : Option (ℕ × ℕ)) (c t : ℕ)
    → unless_in m o ≡ some (c, t)
    → (o ≡ some (c, t)) × (contains (map token_of m) t ≡ false)
unfolding unless_in
unless_in-some m none c t e = cc
unless_in-some m (some (d, u)) c t e = elim (Bool-cases (contains (map token_of m) u)) [
  | inl f ↦ absurd (ground (arith, e, f))
  | inr f ↦ (ground (arith, e, f), ground (arith, e, f))
]

unless_in-kept :
    (m : List (ℕ × ℕ)) (o : Option (ℕ × ℕ)) (c t : ℕ)
    → o ≡ some (c, t)
    → contains (map token_of m) t ≡ false
    → unless_in m o ≡ some (c, t)
unfolding unless_in
unless_in-kept m o c t e f = rw e (ground (arith, f))

-- One client's waits are dropped.
module _ (c : ℕ) (w : World) (h : IsWatched w) where
  abbrev own : List (ℕ × ℕ)
  own = waits_of c w.server.waits

  reaped : World
  reaped = record (unwatched own w) { server = record w.server { waits = erase c w.server.waits } }

  -- Its sources are the ones that go.
  own_token :
      (k d t : ℕ)
      → w.sources k ≡ some (d, t)
      → contains (map token_of own) t ≡ (if c == d then true else false)
  own_token k d t e = elim (Bool-cases (contains (map token_of own) t)) [
    | inl f ↦
        let (j, g) = contains-token (Watches w.sources c) t own f (h.listed c) in
        ground (arith, f, h.tokens j k c d t g e, g, e, ==_iff c d)
    | inr f ↦ elim (Bool-cases (c == d)) [
      | inl q ↦
          let d_own : lookup k own ≡ some t =
            subst (λ i. lookup k (waits_of i w.server.waits) ≡ some t) (sym ((==_iff c d).0 q))
              (h.known k d t e) in
          absurd (ground (arith, f, lookup-token k t own d_own))
      | inr q ↦ ground (arith, f, q)
    ]
  ]

  reaped_iff :
      (k d t : ℕ) → ((reaped.sources k ≡ some (d, t)) ↔ ((w.sources k ≡ some (d, t)) × (d ≢ c)))
  unfolding reaped unwatched
  reaped_iff k d t = (
    λ e.
        let (f, g) = unless_in-some own (w.sources k) d t e in
        (f, λ q. ground (arith, g, own_token k d t f, q, ==_iff c d)),
    λ p.
        unless_in-kept own (w.sources k) d t p.0
          (ground (arith, own_token k d t p.0, p.1, ==_iff c d)),
  )

  reaped-IsWatched : ((k d : ℕ) → w.blocked k ≡ some d → d ≢ c) → IsWatched reaped
  unfolding reaped unwatched
  reaped-IsWatched others =
      let ws = w.server.waits in
      record {
        listed = λ d. elim (Bool-cases (c == d)) [
          | inl q ↦
              let none_left : waits_of d (erase c ws) ≡ [] =
                waits_of-erase d c ws ∙ ground (arith, q) in
              subst (All (Watches reaped.sources d)) (sym none_left) tt
          | inr q ↦
              let same : waits_of d (erase c ws) ≡ waits_of d ws =
                waits_of-erase d c ws ∙ ground (arith, q) in
              subst (All (Watches reaped.sources d)) (sym same) (
                All-map (Watches w.sources d) (Watches reaped.sources d)
                  (λ e p. (reaped_iff e.0 d e.1).1 (p, λ r. ground (arith, q, r, ==_iff c d)))
                  (waits_of d ws) (h.listed d))
        ];
        few = λ d. ground (arith, ap length (waits_of-erase d c ws), h.few d);
        keys = λ k d t e. h.keys k d t ((reaped_iff k d t).0 e).0;
        tokens = λ j k d b t e f.
            h.tokens j k d b t ((reaped_iff j d t).0 e).0 ((reaped_iff k b t).0 f).0;
        awake = λ k d e. let (t, f) = h.awake k d e in (t, (reaped_iff k d t).1 (f, others k d e));
        unready = h.unready;
        early = h.early;
        departed = h.departed;
        known = λ k d t e.
            let (f, g) = (reaped_iff k d t).0 e in
            ap (lookup k) (waits_of-erase d c ws) ∙ ground (arith, g, h.known k d t f, ==_iff c d);
      }

-- The world after the clients were reaped.
abbrev pub IsReaped : List ℕ → World → World → Type 0
IsReaped cs w w' =
    (k d t : ℕ)
    → ((w'.sources k ≡ some (d, t)) ↔ ((w.sources k ≡ some (d, t)) × (contains cs d ≡ false)))

reap_each-act :
    (c : ℕ) (cs : List ℕ) (w : World) (h : IsWatched w)
    → act (reap_each (c ∷ cs) w.server) w ≡ act (reap_each cs (reaped c w h).server) (reaped c w h)
unfolding reap_each reaped unwatched
reap_each-act c cs w h =
    let m = waits_of c w.server.waits in
    let (s, acts) = reap_each cs (record w.server { waits = erase c w.server.waits }) in
    play-append (drop_waits m) acts (record w { server = s })
    ∙ ap (play acts) (play-drop_waits m (record w { server = s }))

reap_each-IsWatched :
    (cs : List ℕ) (w : World)
    → IsWatched w
    → ((k d : ℕ) → w.blocked k ≡ some d → contains cs d ≡ false)
    → IsWatched (act (reap_each cs w.server) w) × IsReaped cs w (act (reap_each cs w.server) w)
unfolding reap_each reaped unwatched
reap_each-IsWatched [] w h others = (h, λ k d t. (λ e. (e, refl), λ p. p.0))
reap_each-IsWatched (c ∷ cs) w h others =
    let r = reaped c w h in
    let h' : IsWatched r =
      reaped-IsWatched c w h (λ k d e q. ground (arith, others k d e, q, ==_iff c d)) in
    let (kept, gone) = reap_each-IsWatched cs r h' (λ k d e. ground (arith, others k d e)) in
    subst (λ v. IsWatched v × IsReaped (c ∷ cs) w v) (sym (reap_each-act c cs w h))
      (
        kept,
        λ k d t. (
          λ e.
              let (f, g) = (gone k d t).0 e in
              let (a, b) = (reaped_iff c w h k d t).0 f in (a, ground (arith, g, b, ==_iff c d)),
          λ p. (gone k d t).1 (
            (reaped_iff c w h k d t).1 (p.0, λ q. ground (arith, p.1, q, ==_iff c d)),
            ground (arith, p.1),
          ),
        ),
      )

reap_each-gone : (cs : List ℕ) (s : Connections) → (reap_each cs s).0.gone ≡ s.gone
unfolding reap_each
reap_each-gone [] s = refl
reap_each-gone (c ∷ cs) s = reap_each-gone cs (record s { waits = erase c s.waits })

-- Reaping takes the sources of the clients that disconnected out of the event loop, so that none of
-- their fds is held for good, and leaves every other source and the world's order as they were.
pub reap_clients-IsReaped :
    (w : World)
    → IsWatched w
    → let w' = act (reap_clients w.server) w in
      IsWatched w' × IsReaped w.server.gone w w' × ((reap_clients w.server).0.gone ≡ [])
unfolding reap_clients
reap_clients-IsReaped w h =
    let w1 = record w { server = record w.server { gone = [] } } in
    let h1 : IsWatched w1 = record {
      listed = h.listed;
      few = h.few;
      keys = h.keys;
      tokens = h.tokens;
      awake = h.awake;
      unready = h.unready;
      early = h.early;
      departed = λ k d e. refl;
      known = h.known;
    } in
    let (kept, gone) = reap_each-IsWatched w.server.gone w1 h1 h.departed in
    (kept, gone, reap_each-gone w.server.gone w1.server)
