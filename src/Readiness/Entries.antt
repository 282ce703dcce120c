-- ===== src/Readiness/Entries.antt =====
-- Maps of waits, as src/handlers/compositor.rs changes them.
use mathlib.Core.Path.{subst}
use ihs_wl_server.Prelude.{
  ℕ, suc, ◌≤◌, ◌≡◌, ◌≢◌, ap, sym, ◌∙◌, true, List, [], ◌∷◌, map, some, ◌==◌, ==_iff, if◌then◌else◌,
  length, All, lookup, insert, modify, erase, lookup-insert, lookup-modify, lookup-erase, contains,
  arith, Bool-cases, Option-cases, inl, inr,
}
use ihs_wl_server.Readiness.{waits_of, max_waits}
use ihs_wl_server.Readiness.Watched.{World, Watches, IsWatched}

abbrev pub Waits : Type 0
Waits = List (ℕ × List (ℕ × ℕ))

abbrev pub token_of : ℕ × ℕ → ℕ
token_of (k, t) = t

module _ (P Q : ℕ × ℕ → Type 0) (keeps : (e : ℕ × ℕ) → P e → Q e) where
  pub All-map : (m : List (ℕ × ℕ)) → All P m → All Q m
  All-map [] h = tt
  All-map (e ∷ m) h = (keeps e h.0, All-map m h.1)

module _ (P : ℕ × ℕ → Type 0) where
  pub All-insert : (k t : ℕ) (m : List (ℕ × ℕ)) → P (k, t) → All P m → All P (insert k t m)
  All-insert k t [] p h = (p, tt)
  All-insert k t ((j, u) ∷ m) p h = elim (Bool-cases (j == k)) [
    | inl e ↦ rw e (subst (λ i. P (i, t)) (sym ((==_iff j k).0 e)) p, h.1)
    | inr e ↦ rw e (h.0, All-insert k t m p h.1)
  ]

  pub All-erase : (k : ℕ) (m : List (ℕ × ℕ)) → All P m → All (λ e. P e × (e.0 ≢ k)) (erase k m)
  All-erase k [] h = tt
  All-erase k ((j, u) ∷ m) h = elim (Bool-cases (j == k)) [
    | inl e ↦ rw e (All-erase k m h.1)
    | inr e ↦ rw e ((h.0, λ q. ground (arith, e, q)), All-erase k m h.1)
  ]

  pub contains-token :
      (t : ℕ) (m : List (ℕ × ℕ)) → contains (map token_of m) t ≡ true → All P m → (j : ℕ) × P (j, t)
  contains-token t [] e h = cc
  contains-token t ((j, u) ∷ m) e h = elim (Bool-cases (u == t)) [
    | inl f ↦ (j, subst (λ i. P (j, i)) ((==_iff u t).0 f) h.0)
    | inr f ↦ contains-token t m (ground (arith, e, f)) h.1
  ]

pub lookup-token :
    (k t : ℕ) (m : List (ℕ × ℕ)) → lookup k m ≡ some t → contains (map token_of m) t ≡ true
lookup-token k t [] e = cc
lookup-token k t ((j, u) ∷ m) e = ground (arith, e, lookup-token k t m, ==_iff u t)

pub length-insert-le : (k t : ℕ) (m : List (ℕ × ℕ)) → length (insert k t m) ≤ suc (length m)
length-insert-le k t [] = omega arith
length-insert-le k t ((j, u) ∷ m) = ground (arith, length-insert-le k t m)

pub length-erase-le : (k : ℕ) (m : List (ℕ × ℕ)) → length (erase k m) ≤ length m
length-erase-le k [] = omega arith
length-erase-le k ((j, u) ∷ m) = ground (arith, length-erase-le k m)

pub waits_of-insert :
    (d c : ℕ) (m : List (ℕ × ℕ)) (ws : Waits)
    → waits_of d (insert c m ws) ≡ (if c == d then m else waits_of d ws)
waits_of-insert d c m ws = ground (arith, lookup-insert d c m ws)

pub waits_of-erase :
    (d c : ℕ) (ws : Waits) → waits_of d (erase c ws) ≡ (if c == d then [] else waits_of d ws)
waits_of-erase d c ws = ground (arith, lookup-erase d c ws)

pub waits_of-modify :
    (d c k : ℕ) (ws : Waits)
    → waits_of d (modify c (erase k) ws)
      ≡ (if c == d then erase k (waits_of d ws) else waits_of d ws)
waits_of-modify d c k ws = elim (Option-cases (lookup d ws)) [
  | inl e ↦ ground (arith, e, lookup-modify d c (erase k) ws)
  | inr (m, e) ↦ ground (arith, e, lookup-modify d c (erase k) ws)
]

-- The map of a client's waits is made when it is read.
pub insert-same-IsWatched :
    (c n : ℕ) (w : World)
    → w.server.next_wait ≤ n
    → IsWatched w
    → IsWatched (record w {
      server = record w.server {
        waits = insert c (waits_of c w.server.waits) w.server.waits;
        next_wait = n;
      };
    })
insert-same-IsWatched c n w le h =
    let ws = w.server.waits in
    let same : (d : ℕ) → waits_of d (insert c (waits_of c ws) ws) ≡ waits_of d ws =
      λ d. ground (arith, waits_of-insert d c (waits_of c ws) ws, ==_iff c d) in
    record {
      listed = λ d. subst (All (Watches w.sources d)) (sym (same d)) (h.listed d);
      few = λ d. subst (λ m. length m ≤ max_waits) (sym (same d)) (h.few d);
      keys = λ k d t e. omega (arith, h.keys k d t e);
      tokens = h.tokens;
      awake = h.awake;
      unready = h.unready;
      early = λ k r. omega (arith, h.early k r, le);
      departed = h.departed;
      known = λ k d t e. ap (lookup k) (same d) ∙ h.known k d t e;
    }
