-- ===== src/Readiness.antt =====
-- src/handlers/compositor.rs and src/state.rs: commits that wait until their buffer is ready, and
-- the clients that they belong to. A client, a surface and an event source's token are numbers. What the
-- libraries answer is an input: whether there is a fence to wait for, and the event loop's token.
pub mod Watched
pub mod Entries
pub mod Steps
pub mod Reaped
pub mod Safety
use ihs_wl_server.Prelude.{
  ℕ, suc, ◌+◌, ◌-◌, ◌%◌, Bool, true, false, List, [], ◌∷◌, ◌++◌, map, Option, none, some, ◌==◌, leb,
  if◌then◌else◌, lookup, insert, modify, erase, length, u32_mod,
}

abbrev pub max_waits : ℕ
max_waits = 32

-- The waits of each client, from their keys to their tokens; the clients that are gone, and how many
-- are connected.
pub record Connections : Type 0 where
  pub clients : ℕ
  pub gone : List ℕ
  pub waits : List (ℕ × List (ℕ × ℕ))
  pub next_wait : ℕ

abbrev pub no_connections : Connections
no_connections = record { clients = 0; gone = []; waits = []; next_wait = 0 }

pub data Act : Type 0 where
  watch : (client key token : ℕ) → Act
  unwatch : (token : ℕ) → Act
  add_blocker : (surface client key : ℕ) → Act
  blocker_cleared : (client : ℕ) → Act
  client_count waits_dropped : ℕ → Act

abbrev pub entries : Option (List (ℕ × ℕ)) → List (ℕ × ℕ)
entries none = []
entries (some m) = m

-- `entry(id).or_default()`.
abbrev pub waits_of : ℕ → List (ℕ × List (ℕ × ℕ)) → List (ℕ × ℕ)
waits_of c waits = entries (lookup c waits)

-- Whether a source was inserted is the event loop's answer.
unfoldable pub hold_commit : (surface client : ℕ) → Option ℕ → Connections → Connections × List Act
hold_commit surface client inserted s =
    let held = waits_of client s.waits in
    let waits = insert client held s.waits in
    if leb max_waits (length held)
    then (record s { waits = waits }, [])
    else (let key = suc s.next_wait in
        elim inserted [
          | none ↦ (record s { waits = waits; next_wait = key }, [])
          | some token ↦ (
            record s { waits = insert client (insert key token held) waits; next_wait = key },
            watch client key token ∷ add_blocker surface client key ∷ [],
          )
        ])

-- The source's callback.
unfoldable pub source_fired : (client key : ℕ) → Connections → Connections × List Act
source_fired client key s =
    (record s { waits = modify client (erase key) s.waits }, blocker_cleared client ∷ [])

pub data Acquire : Type 0 where
  implicit : Acquire
  explicit : (signaled : Bool) → Acquire

-- A commit: whether it attaches a dma-buf, its client while there is one, its acquire point, and
-- whether `generate_blocker` gives something to wait for.
pub record Commit : Type 0 where
  pub dmabuf : Bool
  pub client : Option ℕ
  pub acquire : Acquire
  pub blocker : Bool

unfoldable pub gate_on_readiness :
    (surface : ℕ) → Commit → Option ℕ → Connections → Connections × List Act
gate_on_readiness surface m inserted s = elim m.dmabuf [
  | false ↦ (s, [])
  | true ↦ elim m.client [
    | none ↦ (s, [])
    | some client ↦ elim m.acquire [
      | explicit signaled ↦
          if signaled
          then (s, [])
          else if m.blocker
          then hold_commit surface client inserted s
          else (s, [])
      | implicit ↦ if m.blocker then hold_commit surface client inserted s else (s, [])
    ]
  ]
]

-- Whether the client was inserted is the display's answer. `fetch_add` wraps.
unfoldable pub accept_client : Bool → Connections → Connections × List Act
accept_client false s = (s, [])
accept_client true s =
    let n = (s.clients + 1) % u32_mod in (record s { clients = n }, client_count n ∷ [])

unfoldable pub disconnected : ℕ → Connections → Connections × List Act
disconnected client s = (
  record s { gone = s.gone ++ client ∷ []; clients = s.clients - 1 },
  client_count (s.clients - 1) ∷ [],
)

abbrev pub unwatch_entry : ℕ × ℕ → Act
unwatch_entry (key, token) = unwatch token

abbrev pub drop_waits : List (ℕ × ℕ) → List Act
drop_waits [] = []
drop_waits (e ∷ m) = waits_dropped (length (e ∷ m)) ∷ map unwatch_entry (e ∷ m)

unfoldable pub reap_each : List ℕ → Connections → Connections × List Act
reap_each [] s = (s, [])
reap_each (c ∷ cs) s =
    let (s', acts) = reap_each cs (record s { waits = erase c s.waits }) in
    (s', drop_waits (waits_of c s.waits) ++ acts)

unfoldable pub reap_clients : Connections → Connections × List Act
reap_clients s = reap_each s.gone (record s { gone = [] })
