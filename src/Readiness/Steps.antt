-- ===== src/Readiness/Steps.antt =====
-- Every step of the event loop, the clients and src/handlers/compositor.rs keeps the waits.
use mathlib.Core.Path.{subst}
use ihs_wl_server.Prelude.{
  ℕ, suc, ◌≡◌, ◌≢◌, refl, ap, sym, ◌∙◌, Bool, true, false, not, ◌&&◌, ◌||◌, List, [], ◌∷◌, Option,
  none, some, ◌==◌, ==_iff, if◌then◌else◌, leb, length, All, lookup, insert, erase, lookup-insert,
  lookup-erase, contains, contains-append, ==_refl, arith, Bool-cases, Option-cases, inl, inr, ◌⊎◌,
}
use ihs_wl_server.Readiness.{
  Connections, watch, add_blocker, Commit, Acquire, implicit, explicit, waits_of, max_waits,
  hold_commit, gate_on_readiness, source_fired, accept_client, disconnected,
}
use ihs_wl_server.Readiness.Watched.{
  World, update, unless_ready, unless_client, act, IsFresh, IsHere, Watches, IsWatched,
}
use ihs_wl_server.Readiness.Entries.{
  All-map, All-insert, All-erase, length-insert-le, length-erase-le, waits_of-insert,
  waits_of-modify, insert-same-IsWatched,
}

-- A wait joins, under a key and a token that no source has.
module _ (c t : ℕ) (w : World) (h : IsWatched w) (fresh : (k d : ℕ) → w.sources k ≢ some (d, t))
    (there : contains w.server.gone c ≡ false) where
  private_key : (k d u : ℕ) → w.sources k ≡ some (d, u) → suc w.server.next_wait ≢ k
  private_key k d u e q = absurd (omega (arith, h.keys k d u e, q))

  waited : World
  waited =
      let key = suc w.server.next_wait in
      let ws = w.server.waits in
      record w {
        server = record w.server {
          waits = insert c (insert key t (waits_of c ws)) (insert c (waits_of c ws) ws);
          next_wait = key;
        };
        sources = update key (some (c, t)) w.sources;
        blocked = update key (some c) w.blocked;
      }

  waits_of-waited :
      (d : ℕ)
      → waits_of d waited.server.waits ≡ (
          if c == d
          then insert (suc w.server.next_wait) t (waits_of d w.server.waits)
          else waits_of d w.server.waits)
  unfolding waited
  waits_of-waited d =
      let ws = w.server.waits in
      ground (
        arith,
        waits_of-insert d c (insert (suc w.server.next_wait) t (waits_of c ws))
            (insert c (waits_of c ws) ws),
        waits_of-insert d c (waits_of c ws) ws,
        ==_iff c d,
      )

  listed-waited : (d : ℕ) → All (Watches waited.sources d) (waits_of d w.server.waits)
  unfolding waited
  listed-waited d =
      All-map (Watches w.sources d) (Watches waited.sources d)
        (λ e p. ground (arith, p, private_key e.0 d e.1 p, ==_iff (suc w.server.next_wait) e.0))
        (waits_of d w.server.waits) (h.listed d)

  lookup-insert_key :
      (k : ℕ) (m : List (ℕ × ℕ))
      → lookup k (insert (suc w.server.next_wait) t m)
        ≡ (if suc w.server.next_wait == k then some t else lookup k m)
  lookup-insert_key k m = lookup-insert k (suc w.server.next_wait) t m

  waited-IsWatched : leb max_waits (length (waits_of c w.server.waits)) ≡ false → IsWatched waited
  unfolding waited
  waited-IsWatched room =
      let key = suc w.server.next_wait in
      let ws = w.server.waits in
      record {
        listed = λ d. elim (Bool-cases (c == d)) [
          | inl e ↦
              subst (All (Watches waited.sources d)) (sym (waits_of-waited d ∙ ground (arith, e))) (
                All-insert (Watches waited.sources d) key t (waits_of d ws)
                  (ground (arith, e, ==_iff c d)) (listed-waited d))
          | inr e ↦
              subst (All (Watches waited.sources d)) (sym (waits_of-waited d ∙ ground (arith, e)))
                (listed-waited d)
        ];
        few = λ d. ground (
          arith,
          ap length (waits_of-waited d),
          h.few d,
          length-insert-le key t (waits_of d ws),
          room,
          ==_iff c d,
        );
        keys = λ k d u e. ground (arith, e, h.keys k d u, ==_iff key k);
        tokens = λ j k d b u e f.
            ground
              (arith, e, f, h.tokens j k d b u, fresh j d, fresh k b, ==_iff key j, ==_iff key k);
        awake = λ k d e. elim (Bool-cases (key == k)) [
          | inl q ↦ (t, ground (arith, e, q))
          | inr q ↦ let (u, f) = h.awake k d (ground (arith, e, q)) in (u, ground (arith, f, q))
        ];
        unready = λ k d e. elim (Bool-cases (key == k)) [
          | inl q ↦ elim (Bool-cases (w.ready k)) [
            | inr r ↦ r
            | inl r ↦ absurd (ground (arith, q, h.early k r, ==_iff key k))
          ]
          | inr q ↦ h.unready k d (ground (arith, e, q))
        ];
        early = λ k r. omega (arith, h.early k r);
        departed = λ k d e. ground (arith, e, there, h.departed k d, ==_iff key k, ==_iff c d);
        known = λ k d u e. ap (lookup k) (waits_of-waited d) ∙ elim (Bool-cases (c == d)) [
          | inl q ↦ ground (arith, q, e, lookup-insert_key k (waits_of d ws), h.known k d u)
          | inr q ↦ ground (arith, q, e, h.known k d u, ==_iff c d, ==_refl c)
        ];
      }

unless_ready_kept :
    (c : ℕ) (ready : Bool) (o : Option ℕ) (d : ℕ)
    → unless_ready c ready o ≡ some d
    → (o ≡ some d) × ((ready && d == c) ≡ false)
unless_ready_kept c ready none d e = absurd (cc)
unless_ready_kept c ready (some b) d e = elim (Bool-cases (ready && b == c)) [
  | inl q ↦ absurd (ground (arith, e, q))
  | inr q ↦
      let same : b ≡ d = ground (arith, e, q) in
      (ap some same, ap (λ x. ready && x == c) (sym same) ∙ q)
]

-- A source fires.
module _ (k c t : ℕ) (w : World) (h : IsWatched w) (live : w.sources k ≡ some (c, t)) where
  unfoldable pub fired : World
  unfolding source_fired
  fired =
      act (source_fired c k w.server)
        (record w { sources = update k none w.sources; ready = λ j. k == j || w.ready j })

  listed-fired :
      (d : ℕ) (m : List (ℕ × ℕ))
      → All (λ (e : ℕ × ℕ). Watches w.sources d e × (e.0 ≢ k)) m
      → All (Watches fired.sources d) m
  unfolding fired
  listed-fired d m =
      All-map (λ (e : ℕ × ℕ). Watches w.sources d e × (e.0 ≢ k)) (Watches fired.sources d)
        (λ e p. ground (arith, p.0, p.1, ==_iff k e.0)) m

  -- The callback let the source's own commit go, so what is blocked is another's.
  still_blocked : (j d : ℕ) → fired.blocked j ≡ some d → (w.blocked j ≡ some d) × ((k == j) ≡ false)
  unfolding fired
  still_blocked j d e =
      let (before, kept) = unless_ready_kept c (k == j || w.ready j) (w.blocked j) d e in
      (
        before,
        elim (Bool-cases (k == j)) [
          | inr q ↦ q
          | inl q ↦
              let same : k ≡ j = ground (arith, q, ==_iff k j) in
              let (u, watched) = h.awake j d before in
              let both : some (c, t) ≡ some (d, u) = sym live ∙ ap w.sources same ∙ watched in
              let owner : c ≡ d = ground (arith, both) in
              absurd (ground (arith, kept, q, owner, ==_refl d))
        ],
      )

  pub fired-IsWatched : IsWatched fired
  unfolding fired
  fired-IsWatched =
      let ws = w.server.waits in
      record {
        listed = λ d. elim (Bool-cases (c == d)) [
          | inl e ↦
              subst (All (Watches fired.sources d))
                (sym (waits_of-modify d c k ws ∙ ground (arith, e)))
                (listed-fired d (erase k (waits_of d ws))
                  (All-erase (Watches w.sources d) k (waits_of d ws) (h.listed d)))
          | inr e ↦
              subst (All (Watches fired.sources d))
                (sym (waits_of-modify d c k ws ∙ ground (arith, e)))
                (listed-fired d (waits_of d ws) (
                  All-map (Watches w.sources d) (λ (x : ℕ × ℕ). Watches w.sources d x × (x.0 ≢ k))
                    (λ x p. (p, λ q. ground (arith, p, q, live, e, ==_iff c d))) (waits_of d ws)
                    (h.listed d)))
        ];
        few = λ d. ground (
          arith,
          ap length (waits_of-modify d c k ws),
          h.few d,
          length-erase-le k (waits_of d ws),
        );
        keys = λ j d u e. ground (arith, e, h.keys j d u);
        tokens = λ i j d b u e f. ground (arith, e, f, h.tokens i j d b u);
        awake = λ j d e.
            let (before, other) = still_blocked j d e in
            let (u, f) = h.awake j d before in (u, ground (arith, f, other));
        unready = λ j d e.
            let (before, other) = still_blocked j d e in
            ground (arith, other, h.unready j d before);
        early = λ j r. elim (Bool-cases (k == j)) [
          | inl q ↦ ground (arith, q, h.keys k c t live, ==_iff k j)
          | inr q ↦ h.early j (ground (arith, r, q))
        ];
        departed = λ j d e. h.departed j d (still_blocked j d e).0;
        known = λ j d u e.
            ap (lookup j) (waits_of-modify d c k ws)
            ∙ ground (arith, e, lookup-erase j k (waits_of d ws), h.known j d u, ==_iff c d);
      }

-- The commits of a client go with it.
pub left-IsWatched :
    (c : ℕ) (w : World)
    → IsWatched w
    → IsWatched
        (act (disconnected c w.server) (record w { blocked = λ k. unless_client c (w.blocked k) }))
unfolding disconnected
left-IsWatched c w h = record {
  listed = h.listed;
  few = h.few;
  keys = h.keys;
  tokens = h.tokens;
  awake = λ k d e. elim (Option-cases (w.blocked k)) [
    | inl f ↦ absurd (ground (arith, e, f))
    | inr (b, f) ↦ h.awake k d (ground (arith, e, f))
  ];
  unready = λ k d e. elim (Option-cases (w.blocked k)) [
    | inl f ↦ absurd (ground (arith, e, f))
    | inr (b, f) ↦ h.unready k b f
  ];
  early = h.early;
  departed = λ k d e. elim (Option-cases (w.blocked k)) [
    | inl f ↦ absurd (ground (arith, e, f))
    | inr (b, f) ↦ ground (
      arith,
      e,
      f,
      h.departed k b f,
      contains-append d w.server.gone (c ∷ []),
      ==_iff b c,
      ==_iff c d,
    )
  ];
  known = h.known;
}

pub connected-IsWatched :
    (ok : Bool) (w : World) → IsWatched w → IsWatched (act (accept_client ok w.server) w)
unfolding accept_client
connected-IsWatched false w h = h
connected-IsWatched true w h = record {
  listed = h.listed;
  few = h.few;
  keys = h.keys;
  tokens = h.tokens;
  awake = h.awake;
  unready = h.unready;
  early = h.early;
  departed = h.departed;
  known = h.known;
}

Acquire-cases : (a : Acquire) → (a ≡ implicit) ⊎ ((done : Bool) × (a ≡ explicit done))
Acquire-cases implicit = inl refl
Acquire-cases (explicit done) = inr (done, refl)

hold_commit-IsWatched :
    (surface c : ℕ) (inserted : Option ℕ) (w : World)
    → IsFresh inserted w
    → contains w.server.gone c ≡ false
    → IsWatched w
    → IsWatched (act (hold_commit surface c inserted w.server) w)
unfolding hold_commit waited
hold_commit-IsWatched surface c inserted w fresh there h =
    let s = w.server in
    let held = waits_of c s.waits in
    let full = record s { waits = insert c held s.waits } in
    elim (Bool-cases (leb max_waits (length held))) [
      | inl e ↦
          let eq : hold_commit surface c inserted s ≡ (full, []) = ground (arith, e) in
          subst (λ r. IsWatched (act r w)) (sym eq)
            (insert-same-IsWatched c s.next_wait w (omega arith) h)
      | inr e ↦ elim (Option-cases inserted) [
        | inl f ↦
            let eq : hold_commit surface c inserted s
                ≡ (record full { next_wait = suc s.next_wait }, []) =
              ground (arith, e, f) in
            subst (λ r. IsWatched (act r w)) (sym eq)
              (insert-same-IsWatched c (suc s.next_wait) w (omega arith) h)
        | inr (t, f) ↦
            let key = suc s.next_wait in
            let eq : hold_commit surface c inserted s ≡ (
              record s { waits = insert c (insert key t held) full.waits; next_wait = key },
              watch c key t ∷ add_blocker surface c key ∷ [],
            ) =
              ground (arith, e, f) in
            subst (λ r. IsWatched (act r w)) (sym eq)
              (waited-IsWatched c t w h (λ k d. fresh t k d f) there e)
      ]
    ]

-- A commit goes through, or is held for its client.
pub gate-cases :
    (surface : ℕ) (m : Commit) (inserted : Option ℕ) (s : Connections)
    → (gate_on_readiness surface m inserted s ≡ (s, []))
      ⊎ ((c : ℕ) × (m.client ≡ some c)
          × (gate_on_readiness surface m inserted s ≡ hold_commit surface c inserted s))
unfolding gate_on_readiness
gate-cases surface m inserted s = elim (Bool-cases m.dmabuf) [
  | inr e ↦ inl (ground (arith, e))
  | inl e ↦ elim (Option-cases m.client) [
    | inl f ↦ inl (ground (arith, e, f))
    | inr (c, f) ↦ elim (Acquire-cases m.acquire) [
      | inl g ↦ elim (Bool-cases m.blocker) [
        | inl b ↦ inr (c, f, ground (arith, e, f, g, b))
        | inr b ↦ inl (ground (arith, e, f, g, b))
      ]
      | inr (done, g) ↦ elim (Bool-cases (not done && m.blocker)) [
        | inl b ↦ inr (c, f, ground (arith, e, f, g, b))
        | inr b ↦ inl (ground (arith, e, f, g, b))
      ]
    ]
  ]
]

pub gated-IsWatched :
    (surface : ℕ) (m : Commit) (inserted : Option ℕ) (w : World)
    → IsFresh inserted w
    → IsHere m.client w
    → IsWatched w
    → IsWatched (act (gate_on_readiness surface m inserted w.server) w)
gated-IsWatched surface m inserted w fresh there h = elim (gate-cases surface m inserted w.server) [
  | inl e ↦ subst (λ r. IsWatched (act r w)) (sym e) h
  | inr (c, f, e) ↦
      subst (λ r. IsWatched (act r w)) (sym e)
        (hold_commit-IsWatched surface c inserted w fresh (there c f) h)
]
