-- ===== src/Lifecycle.antt =====
-- src/thread.rs: starting and stopping the compositor thread, and the socket's name. Threads are
-- numbered as they are spawned. What the system and the new thread answer is given.
pub mod Threads
pub mod Socket
use ihs_wl_server.Prelude.{
  ℕ, zero, suc, ◌+◌, Bool, true, false, not, List, [], ◌∷◌, Option, none, some, ◌==◌, if◌then◌else◌,
  contains, retain,
}

-- `IhsWlResult`.
pub data Code : Type 0 where
  ok invalid already_running not_running io internal unsupported too_small : Code

pub record Running : Type 0 where
  pub thread : ℕ
  pub socket : ℕ

-- The `SERVER` lock's content; the threads that have not finished, those joined, how many were
-- spawned; and whether the view factory is registered.
pub record Lifecycle : Type 0 where
  pub server : Option Running
  pub live : List ℕ
  pub joined : List ℕ
  pub spawned : ℕ
  pub factory : Bool

abbrev pub never_started : Lifecycle
never_started = record { server = none; live = []; joined = []; spawned = 0; factory = false }

-- How a start-up goes: the thread cannot be spawned, it sends its channel and socket name, it sends
-- an error, or it ends without a word.
pub data Startup : Type 0 where
  no_thread : Startup
  ready : (socket : ℕ) → Startup
  refused : Code → Startup
  gone : Startup

unfoldable pub spawn : Startup → Lifecycle → Lifecycle × Code
spawn no_thread s = (s, internal)
spawn (ready socket) s = (
  record s {
    server = some (record { thread = suc s.spawned; socket = socket });
    live = suc s.spawned ∷ s.live;
    spawned = suc s.spawned;
    factory = true;
  },
  ok,
)
spawn (refused code) s =
    (record s { joined = suc s.spawned ∷ s.joined; spawned = suc s.spawned }, code)
spawn gone s = (record s { joined = suc s.spawned ∷ s.joined; spawned = suc s.spawned }, internal)

-- The compositor thread died: it is joined.
abbrev pub reap : Running → Lifecycle → Lifecycle
reap r s = record s { server = none; joined = r.thread ∷ s.joined }

unfoldable pub start : Startup → Lifecycle → Lifecycle × Code
start o s = elim s.server [
  | none ↦ spawn o s
  | some r ↦ if contains s.live r.thread then (s, already_running) else spawn o (reap r s)
]

-- Quit is sent, and the thread joined: it may have panicked.
unfoldable pub stop : (panicked : Bool) → Lifecycle → Lifecycle × Code
stop panicked s = elim s.server [
  | none ↦ (s, not_running)
  | some r ↦ (
    record s {
      server = none;
      live = retain (λ t. not (t == r.thread)) s.live;
      joined = r.thread ∷ s.joined;
      factory = false;
    },
    if panicked then internal else ok,
  )
]

-- The channel is gone with the thread's loop.
unfoldable pub send : Lifecycle → Code
send s = elim s.server [
  | none ↦ not_running
  | some r ↦ if contains s.live r.thread then ok else not_running
]

unfoldable pub is_running : Lifecycle → Bool
is_running s = elim s.server [ none ↦ false | some r ↦ contains s.live r.thread ]

unfoldable pub socket_name : Lifecycle → Option ℕ
socket_name s = elim s.server [ none ↦ none | some r ↦ some r.socket ]

-- A thread ends by itself: `compositor_main` returned, or panicked.
unfoldable pub dies : ℕ → Lifecycle → Lifecycle
dies t s = record s { live = retain (λ u. not (u == t)) s.live }

-- What binding a socket name answers.
pub data Bind : Type 0 where
  bound : Bind
  already_in_use : Bind
  failed : Bind

-- The socket that was bound, by its number, or the number that failed, if it was one.
pub data Bound : Type 0 where
  socket : ℕ → Bound
  error : Option ℕ → Bound

-- `for i in 0..32`.
unfoldable pub bind_from : (ℕ → Bind) → (left i : ℕ) → Bound
bind_from try zero i = error none
bind_from try (suc left) i = elim (try i) [
  | bound ↦ socket i
  | already_in_use ↦ bind_from try left (suc i)
  | failed ↦ error (some i)
]

abbrev pub sockets : ℕ
sockets = 32

unfoldable pub bind_socket : (ℕ → Bind) → Bound
unfolding bind_from
bind_socket try = bind_from try sockets 0
