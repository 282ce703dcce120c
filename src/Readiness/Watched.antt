-- ===== src/Readiness/Watched.antt =====
-- The event loop and the commits that src/handlers/compositor.rs blocks, beside its own state.
use ihs_wl_server.Prelude.{
  ℕ, ◌≤◌, ◌≡◌, ◌≢◌, Bool, true, false, ◌&&◌, ◌||◌, List, [], ◌∷◌, Option, none, some, ◌==◌,
  if◌then◌else◌, length, All, contains, lookup,
}
use ihs_wl_server.Readiness.{
  Connections, Act, watch, unwatch, add_blocker, blocker_cleared, client_count, waits_dropped,
  Commit, waits_of, max_waits, gate_on_readiness, source_fired, accept_client, disconnected,
  reap_clients,
}

-- The sources in the event loop, each with its client and token, the blockers whose source fired, and the
-- blocked commits, each with its client, by their keys.
pub record World : Type 0 where
  pub server : Connections
  pub sources : ℕ → Option (ℕ × ℕ)
  pub ready : ℕ → Bool
  pub blocked : ℕ → Option ℕ

abbrev pub update {ℓ} : {A : Type ℓ} → ℕ → Option A → (ℕ → Option A) → ℕ → Option A
update k a f j = if k == j then a else f j

abbrev pub unless_token : ℕ → Option (ℕ × ℕ) → Option (ℕ × ℕ)
unless_token t none = none
unless_token t (some (c, u)) = if u == t then none else some (c, u)

abbrev pub unless_client : ℕ → Option ℕ → Option ℕ
unless_client c none = none
unless_client c (some d) = if d == c then none else some d

-- The library looks at a client's blocked commits when it is told to, and lets those go whose blocker is
-- ready.
abbrev pub unless_ready : (client : ℕ) → (ready : Bool) → Option ℕ → Option ℕ
unless_ready c ready none = none
unless_ready c ready (some d) = if ready && d == c then none else some d

-- What an act does in the event loop and to the commits.
abbrev pub play : List Act → World → World
play [] w = w
play (watch c k t ∷ acts) w = play acts (record w { sources = update k (some (c, t)) w.sources })
play (unwatch t ∷ acts) w = play acts (record w { sources = λ k. unless_token t (w.sources k) })
play (add_blocker surface c k ∷ acts) w =
    play acts (record w { blocked = update k (some c) w.blocked })
play (blocker_cleared c ∷ acts) w =
    play acts (record w { blocked = λ k. unless_ready c (w.ready k) (w.blocked k) })
play (client_count n ∷ acts) w = play acts w
play (waits_dropped n ∷ acts) w = play acts w

abbrev pub act : Connections × List Act → World → World
act (s, acts) w = play acts (record w { server = s })

-- The event loop hands out no token that it has out.
abbrev pub IsFresh : Option ℕ → World → Type 0
IsFresh inserted w = (t k c : ℕ) → inserted ≡ some t → w.sources k ≢ some (c, t)

-- A surface gives its client only while that one is connected.
abbrev pub IsHere : Option ℕ → World → Type 0
IsHere client w = (c : ℕ) → client ≡ some c → contains w.server.gone c ≡ false

-- A source fires once: its blocker is ready, and the loop drops it; which commits go through is up to its
-- callback. With its client, a client's commits are gone.
pub data Step : World → World → Type 0 where
  gates :
      (w : World) (surface : ℕ) (m : Commit) (inserted : Option ℕ)
      → IsFresh inserted w
      → IsHere m.client w
      → Step w (act (gate_on_readiness surface m inserted w.server) w)
  fires :
      (w : World) (k c t : ℕ)
      → w.sources k ≡ some (c, t)
      → Step w (
          act
            (source_fired c k w.server)
            (record w { sources = update k none w.sources; ready = λ j. k == j || w.ready j }))
  connects : (w : World) (ok : Bool) → Step w (act (accept_client ok w.server) w)
  leaves :
      (w : World) (c : ℕ)
      → Step w (
          act (disconnected c w.server) (record w { blocked = λ k. unless_client c (w.blocked k) }))
  reaps : (w : World) → Step w (act (reap_clients w.server) w)

pub data Reach (w : World) : World → Type 0 where
  here : Reach w w
  next : {u v : World} → Reach w u → Step u v → Reach w v

abbrev pub Watches : (ℕ → Option (ℕ × ℕ)) → ℕ → ℕ × ℕ → Type 0
Watches sources c e = sources e.0 ≡ some (c, e.1)

-- The server's waits are the loop's sources, 32 for a client at most, and nothing is blocked that no
-- source watches, whose blocker is ready, or whose client is gone.
pub record IsWatched (w : World) : Type 0 where
  pub listed : (c : ℕ) → All (Watches w.sources c) (waits_of c w.server.waits)
  pub few : (c : ℕ) → length (waits_of c w.server.waits) ≤ max_waits
  pub keys : (k c t : ℕ) → w.sources k ≡ some (c, t) → k ≤ w.server.next_wait
  pub tokens : (j k c d t : ℕ) → w.sources j ≡ some (c, t) → w.sources k ≡ some (d, t) → j ≡ k
  pub awake : (k c : ℕ) → w.blocked k ≡ some c → (t : ℕ) × (w.sources k ≡ some (c, t))
  pub unready : (k c : ℕ) → w.blocked k ≡ some c → w.ready k ≡ false
  pub early : (k : ℕ) → w.ready k ≡ true → k ≤ w.server.next_wait
  pub departed : (k c : ℕ) → w.blocked k ≡ some c → contains w.server.gone c ≡ false
  pub known :
      (k c t : ℕ) → w.sources k ≡ some (c, t) → lookup k (waits_of c w.server.waits) ≡ some t
