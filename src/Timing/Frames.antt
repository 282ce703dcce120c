-- ===== src/Timing/Frames.antt =====
-- `Frame` and `Frames` of src/timing.rs: a view's submitted frames, oldest first, until the shell
-- reports them. An operation returns the frames, what it told the clients, and what Rust returns.
pub mod Accounts
pub mod Balance
pub mod History
pub mod Shown
pub mod Progress
pub mod Flag
pub mod Bounds
use ihs_wl_server.Prelude.{
  ℕ, Bool, true, false, not, ◌&&◌, ◌||◌, List, [], ◌∷◌, ◌++◌, map, Option, none, some, ltb, leb,
  ◌==◌, if◌then◌else◌, length, retain, any, u64_max, saturating_add,
}
use ihs_wl_server.Timing.Clock.{stale_ns}
use ihs_wl_server.Timing.Taken.{
  Refresh, unknown, fixed, Event, signal, discarded, presented, Feedback, Taken,
}

abbrev pub max_in_flight : ℕ
max_in_flight = 16

pub record Report : Type 0 where
  pub seq : ℕ
  pub ust_ns : ℕ
  pub refresh_ns : ℕ
  pub msc : ℕ
  pub flags : ℕ

pub record Frame : Type 0 where
  pub seq : ℕ
  pub submitted_ns : ℕ
  pub shown : List (ℕ × ℕ)
  pub feedback : List Feedback
  pub barriers : List ℕ
  pub flushed : Bool

-- `Vec::contains` of a layer id and generation.
unfoldable pub shows : List (ℕ × ℕ) → Feedback → Bool
shows shown f = any (λ (p : ℕ × ℕ). p.0 == f.layer_id && p.1 == f.generation) shown

abbrev pub is_empty {ℓ} : {A : Type ℓ} → List A → Bool
is_empty [] = true
is_empty (x ∷ xs) = false

-- `Frame::release`.
unfoldable pub release : Frame → Frame × List Event × Bool
release f = (record f { barriers = [] }, map signal f.barriers, not (is_empty f.barriers))

abbrev pub discard : List Feedback → List Event
discard = map (λ (f : Feedback). discarded f.callback)

-- `Frame::drop_unshown`.
unfoldable pub drop_unshown : Frame → List Event × Bool
unfolding release
drop_unshown f = let (f', events, any) = release f in (discard f.feedback ++ events, any)

-- The loop of `push` that gives the oldest frames back.
unfoldable pub make_room : List Frame → List Frame × List Event × Bool
make_room [] = ([], [], false)
make_room (f ∷ fs) =
    let (events, any) = drop_unshown f in
    let (fs', more, any') = make_room fs in
    if ltb max_in_flight (length (f ∷ fs))
    then (fs', events ++ more, any || any')
    else (f ∷ fs, [], false)

unfoldable pub new_frame : ℕ → ℕ → List (ℕ × ℕ) → Taken → Frame
unfolding shows
new_frame now seq shown taken = record {
  seq = seq;
  submitted_ns = now;
  shown = shown;
  feedback = retain (shows shown) taken.feedback;
  barriers = taken.barriers;
  flushed = false;
}

unfoldable pub push : ℕ → List Frame → ℕ → List (ℕ × ℕ) → Taken → List Frame × List Event × Bool
push now frames seq shown taken =
    let dropped = discard (retain (λ f. not (shows shown f)) taken.feedback) in
    let (frames', events, released) = make_room (frames ++ new_frame now seq shown taken ∷ []) in
    (frames', dropped ++ events, released)

-- What the reported frame shows; nothing if it was already taken as never shown.
unfoldable pub shown_of : ℕ → List Frame → List (ℕ × ℕ)
shown_of seq [] = []
shown_of seq (f ∷ fs) = if f.seq == seq then f.shown else shown_of seq fs

abbrev pub refresh_of : ℕ → Refresh
refresh_of ns = if ns == 0 then unknown else fixed ns

unfoldable pub resolve : List (ℕ × ℕ) → Report → Feedback → Event
unfolding shows
resolve shown r f =
    if shows shown f
    then presented f.callback r.ust_ns (refresh_of r.refresh_ns) r.msc r.flags
    else discarded f.callback

-- The loop of `presented`: frames up to the reported one leave.
unfoldable pub take_shown : List (ℕ × ℕ) → Report → List Frame → List Frame × List Event × Bool
take_shown shown r [] = ([], [], false)
take_shown shown r (f ∷ fs) =
    let (f', events, any) = release f in
    let (fs', more, any') = take_shown shown r fs in
    if leb f.seq r.seq
    then (fs', map (resolve shown r) f.feedback ++ events ++ more, any || any')
    else (f ∷ fs, [], false)

unfoldable pub frames_presented : Report → List Frame → List Frame × List Event × Bool
frames_presented r frames = take_shown (shown_of r.seq frames) r frames

unfoldable pub release_older : ℕ → List Frame → List Frame × List Event × Bool
release_older before_ns [] = ([], [], false)
release_older before_ns (f ∷ fs) =
    let (f', events, any) = release f in
    let (fs', more, any') = release_older before_ns fs in
    if ltb f.submitted_ns before_ns
    then (f' ∷ fs', events ++ more, any || any')
    else (f ∷ fs', more, any')

unfoldable pub release_all : List Frame → List Frame × List Event × Bool
release_all frames = release_older u64_max frames

unfoldable pub flush_older : ℕ → List Frame → List Frame × Bool
flush_older before_ns [] = ([], false)
flush_older before_ns (f ∷ fs) =
    let (fs', flushed) = flush_older before_ns fs in
    if ltb f.submitted_ns before_ns && not f.flushed
    then (record f { flushed = true } ∷ fs', true)
    else (f ∷ fs', flushed)

unfoldable pub next_stale : Bool → List Frame → Option ℕ
next_stale on_screen [] = none
next_stale on_screen (f ∷ fs) =
    if not (is_empty f.barriers) || (on_screen && not f.flushed)
    then some (saturating_add f.submitted_ns stale_ns)
    else next_stale on_screen fs

unfoldable pub clear : List Frame → List Event × Bool
clear [] = ([], false)
clear (f ∷ fs) =
    let (events, any) = drop_unshown f in
    let (more, any') = clear fs in (events ++ more, any || any')
