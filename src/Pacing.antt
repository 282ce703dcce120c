-- ===== src/Pacing.antt =====
-- src/pacing.rs: when content updates that wait on the screen are released, from the shell's reports
-- and a clock. Clients, surfaces and barriers are numbers; each operation is given the time that it
-- reads, and whether the event loop takes the timer that it sets.
pub mod Clock
pub mod Barriers
pub mod Watched
pub mod Steps
pub mod Histories
use ihs_wl_server.Prelude.{
  ℕ, ◌+◌, ◌-◌, min, max, Bool, true, false, not, ◌&&◌, ◌||◌, List, [], ◌∷◌, ◌++◌, map, Option, none,
  some, ◌==◌, leb, ltb, if◌then◌else◌, lookup, modify, is_some, length, take, drop, contains,
  u64_max, saturating_sub,
}
use ihs_wl_server.Timing.Clock.{FrameClock, next_vblank, stale_ns, update}
use ihs_wl_server.Timing.Taken.{Taken, Event, signal}
use ihs_wl_server.Timing.Frames.{
  push, Report, Frame, is_empty, release_all, next_stale, frames_presented, clear,
}

abbrev pub hidden_release_ns : ℕ
hidden_release_ns = 1000000000

abbrev pub max_loose : ℕ
max_loose = 256

pub record Loose : Type 0 where
  pub barrier : ℕ
  pub client : ℕ
  pub due_ns : ℕ

-- The commit timers of a surface, kept by the protocol library: the parameter `T` and its two calls.
pub record Timers (T : Type 0) : Type 0 where
  pub signal_until : ℕ → T → T × Bool
  pub next_deadline : T → Option ℕ

pub record Timed (T : Type 0) : Type 0 where
  pub surface : ℕ
  pub alive : Bool
  pub client : Option ℕ
  pub timers : T

-- A view's share in the clock; `client` is its toplevel's, while it shows one.
pub record View : Type 0 where
  pub client : Option ℕ
  pub suspended : Bool
  pub hidden_release_ns : ℕ
  pub frames : List Frame

pub record Pace (T : Type 0) : Type 0 where
  pub clock : FrameClock
  pub timed : List (Timed T)
  pub loose : List Loose
  pub unsubmitted : List (ℕ × ℕ)
  pub views : List (ℕ × View)
  pub tick : Option ℕ

pub data Act : Type 0 where
  event : Event → Act
  unblock : (client : ℕ) → Act
  frame_callbacks : (view ns : ℕ) → Act

abbrev pub to_list {ℓ} : {A : Type ℓ} → Option A → List A
to_list none = []
to_list (some a) = a ∷ []

-- Each client once.
unfoldable pub unblock_from : List ℕ → List ℕ → List Act
unblock_from seen [] = []
unblock_from seen (c ∷ cs) =
    let rest = unblock_from (seen ++ c ∷ []) cs in
    if contains seen c then unblock_from seen cs else unblock c ∷ rest

abbrev pub unblock_all : List ℕ → List Act
unblock_all clients = unblock_from [] clients

abbrev pub signal_loose : List Loose → List Act
signal_loose [] = []
signal_loose (l ∷ ls) = event (signal l.barrier) ∷ signal_loose ls

abbrev pub signal_all : List ℕ → List Act
signal_all = map λ b. event (signal b)

-- Unless the view is off screen.
unfoldable pub flush_callbacks : ℕ → List (ℕ × View) → ℕ → List Act
flush_callbacks now vs v = elim (lookup v vs) [
  | none ↦ []
  | some e ↦ if e.suspended then [] else frame_callbacks v now ∷ []
]

abbrev pub flush_each : ℕ → List (ℕ × View) → List ℕ → List Act
flush_each now vs [] = []
flush_each now vs (f ∷ fs) = flush_callbacks now vs f ++ flush_each now vs fs

abbrev pub keys : List (ℕ × View) → List ℕ
keys [] = []
keys ((v, e) ∷ vs) = v ∷ keys vs

abbrev pub clients_of : List Loose → List ℕ
clients_of [] = []
clients_of (l ∷ ls) = l.client ∷ clients_of ls

-- Every view gives its barriers back: the views, what is told, and the clients to unblock.
unfoldable pub release_views : List (ℕ × View) → List (ℕ × View) × List Act × List ℕ
release_views [] = ([], [], [])
release_views ((v, e) ∷ vs) =
    let (vs', acts, clients) = release_views vs in
    let (frames, events, released) = release_all e.frames in
    (
      (v, record e { frames = frames }) ∷ vs',
      map event events ++ acts,
      (if released then to_list e.client else []) ++ clients,
    )

-- Past 256, the oldest are cleared early.
unfoldable pub trim_loose : List Loose → List Loose × List Act
trim_loose ls =
    let excess = length ls - max_loose in (drop excess ls, signal_loose (take excess ls))

abbrev pub loose_of : ℕ → ℕ → List ℕ → List Loose
loose_of client due [] = []
loose_of client due (b ∷ bs) =
    record { barrier = b; client = client; due_ns = due } ∷ loose_of client due bs

abbrev pub is_waiting : ℕ → List (ℕ × ℕ) → Bool
is_waiting v [] = false
is_waiting v (u ∷ us) = u.0 == v || is_waiting v us

-- When the clock is to look at a view's frames, which hold something.
unfoldable pub watch_at : ℕ → View → Option ℕ
watch_at vblank e = elim (next_stale (not e.suspended) e.frames) [
  | none ↦ none
  | some at ↦ some (if e.suspended then max e.hidden_release_ns vblank else at)
]

-- When the clock is to run as a view leaves or enters the scene.
unfoldable pub resume_at : ℕ → Bool → View → Option ℕ
resume_at now suspended e = elim (next_stale (not suspended) e.frames) [
  | none ↦ none
  | some at ↦ some (if suspended then e.hidden_release_ns else max at (now + stale_ns))
]

abbrev pub unblock_if : Bool → Option ℕ → List Act
unblock_if true (some client) = unblock client ∷ []
unblock_if _ _ = []

-- The clock runs by then.
abbrev pub runs_by : ℕ → Option ℕ → Bool
runs_by at_ns none = false
runs_by at_ns (some when) = leb when at_ns

module _ {T : Type 0} where
  abbrev pub timed_clients : List (Timed T) → List ℕ
  timed_clients [] = []
  timed_clients (t ∷ ts) = (if t.alive then to_list t.client else []) ++ timed_clients ts

  -- The clock could not run. The timers are all signaled, and not looked at again.
  unfoldable pub release_everything : ℕ → Pace T → Pace T × List Act
  release_everything now p =
      let (views, acts, clients) = release_views p.views in
      (
        record p { loose = []; timed = []; unsubmitted = []; views = views },
        signal_loose p.loose
            ++ acts
            ++ flush_each now views (keys views)
            ++ unblock_all (clients_of p.loose ++ timed_clients p.timed ++ clients),
      )

  -- Unless the clock already runs sooner.
  unfoldable pub schedule_tick : (inserted : Bool) → (now at_ns : ℕ) → Pace T → Pace T × List Act
  schedule_tick inserted now at_ns p =
      let sooner = runs_by at_ns p.tick in
      let failed = release_everything now (record p { tick = none }) in
      if sooner
      then (p, [])
      else (if inserted then (record p { tick = some at_ns }, []) else failed)

  unfoldable pub hold_loose : (inserted : Bool) → ℕ → Option ℕ → List ℕ → Pace T → Pace T × List Act
  hold_loose inserted now client [] p = (p, [])
  hold_loose inserted now none (b ∷ bs) p = (p, signal_all (b ∷ bs))
  hold_loose inserted now (some client) (b ∷ bs) p =
      let due = next_vblank p.clock now in
      let (kept, acts) = trim_loose (p.loose ++ loose_of client due (b ∷ bs)) in
      let (p', more) = schedule_tick inserted now due (record p { loose = kept }) in
      (p', acts ++ more)

  abbrev pub is_timed : ℕ → List (Timed T) → Bool
  is_timed surface [] = false
  is_timed surface (t ∷ ts) = t.surface == surface || is_timed surface ts

  -- `watch_target`, of a surface whose pending state has a target time.
  unfoldable pub watch_target : (inserted : Bool) → ℕ → Timed T → Pace T → Pace T × List Act
  watch_target inserted now t p =
      schedule_tick inserted now now
        (record p { timed = if is_timed t.surface p.timed then p.timed else p.timed ++ t ∷ [] })

  -- A frame of the view could not be submitted.
  unfoldable pub unsubmitted : (inserted : Bool) → ℕ → ℕ → Pace T → Pace T × List Act
  unsubmitted inserted now v p =
      let due = next_vblank p.clock now in
      schedule_tick inserted now due (record p {
        unsubmitted =
            if is_waiting v p.unsubmitted then p.unsubmitted else p.unsubmitted ++ (v, due) ∷ [];
      })

  abbrev pub schedule_if : (inserted : Bool) → ℕ → Option ℕ → Pace T → Pace T × List Act
  schedule_if inserted now none p = (p, [])
  schedule_if inserted now (some at) p = schedule_tick inserted now at p

  unfoldable pub watch_frames : (inserted : Bool) → ℕ → ℕ → Pace T → Pace T × List Act
  watch_frames inserted now v p = elim (lookup v p.views) [
    | none ↦ (p, [])
    | some e ↦ schedule_if inserted now (watch_at (next_vblank p.clock now) e) p
  ]

  unfoldable pub view_suspended : (inserted : Bool) → ℕ → ℕ → Bool → Pace T → Pace T × List Act
  view_suspended inserted now v suspended p = elim (lookup v p.views) [
    | none ↦ (p, [])
    | some e ↦
        let e' : View = record e {
          suspended = suspended;
          hidden_release_ns = next_vblank p.clock now;
        } in
        schedule_if inserted now (resume_at now suspended e')
          (record p { views = modify v (λ (d : View). e') p.views })
  ]

  -- The buffers' part of a report is in the view's holds.
  unfoldable pub frame_presented : ℕ → Report → Pace T → Pace T × List Act
  frame_presented v r p =
      let clock = update p.clock r.ust_ns r.refresh_ns in
      elim (lookup v p.views) [
        | none ↦ (record p { clock = clock }, [])
        | some e ↦
            let (frames, events, released) = frames_presented r e.frames in
            (
              record p {
                clock = clock;
                views = modify v (λ (d : View). record e { frames = frames }) p.views;
              },
              map event events ++ frame_callbacks v r.ust_ns ∷ unblock_if released e.client,
            )
      ]

  unfoldable pub drop_frames : ℕ → Pace T → Pace T × List Act
  drop_frames v p = elim (lookup v p.views) [
    | none ↦ (p, [])
    | some e ↦
        let (events, released) = clear e.frames in
        (
          record p { views = modify v (λ (d : View). record e { frames = [] }) p.views },
          map event events ++ unblock_if released e.client,
        )
  ]

  -- The end of `submit_view`: the frame that was submitted waits for its report.
  unfoldable pub submit_frame :
      (inserted : Bool) → (now v seq : ℕ) → List (ℕ × ℕ) → Taken → Pace T → Pace T × List Act
  submit_frame inserted now v seq shown taken p = elim (lookup v p.views) [
    | none ↦ (p, [])
    | some e ↦
        let (frames, events, released) = push now e.frames seq shown taken in
        let (p', more) =
          watch_frames inserted now v
            (record p { views = modify v (λ (d : View). record e { frames = frames }) p.views }) in
        (p', map event events ++ unblock_if released e.client ++ more)
  ]
