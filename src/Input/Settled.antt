-- ===== src/Input/Settled.antt =====
-- Where the pointer's focus is after an event of src/input.rs.
use ihs_wl_server.Prelude.{
  ℕ, ◌≡◌, ◌≢◌, ◌∙◌, Bool, true, false, not, ◌&&◌, ◌||◌, List, [], ◌∷◌, Option, none, ◌==◌, ==_iff,
  if◌then◌else◌, arith,
}
use ihs_wl_server.Input.{
  PointerHandle, IsLawful, Space, PointerEvent, Devices, time_ms, surface_under, axis_frame,
  pointer_in_view, refocus, press, pointer_input, option_eq→eq,
}

module _ {P Pt F : Type 0} (h : PointerHandle P Pt F) (sp : Space Pt F) where
  -- The focus that an event leaves, if no grab has it.
  abbrev pub focus_after : (view : ℕ) → PointerEvent F → Devices P → Option ℕ
  focus_after view ev d =
      let under = surface_under sp view (sp.to_client view ev.x ev.y) in
      if ev.kind == 0 || ev.kind == 2
      then under
      else if ev.kind == 1 && pointer_in_view h sp view d.pointer
      then none
      else if ev.kind == 3
      then (if d.left then none else under)
      else h.current_focus d.pointer

  abbrev pub left_after : (view : ℕ) → PointerEvent F → Devices P → Bool
  left_after view ev d =
      if ev.kind == 0 || ev.kind == 2
      then false
      else (ev.kind == 1 && pointer_in_view h sp view d.pointer) || d.left

  module _ (law : IsLawful h) (view : ℕ) where
    refocus-free :
        (left : Bool) (at : Pt) (time : ℕ) (p : P)
        → h.is_grabbed (refocus h sp view left at time p) ≡ false
        → h.current_focus (refocus h sp view left at time p)
          ≡ (if left then none else surface_under sp view at)
    unfolding refocus
    refocus-free left at time p free =
        let focus = if left then none else surface_under sp view at in
        ground
          (arith, free, law.motion_free focus at time p, option_eq→eq focus (h.current_focus p))

    press-free :
        (left : Bool) (ev : PointerEvent F) (p : P)
        → h.is_grabbed (press h sp view left ev p) ≡ false
        → h.current_focus (press h sp view left ev p)
          ≡ (if left then none else surface_under sp view (sp.to_client view ev.x ev.y))
    unfolding press
    press-free left ev p free =
        let at = sp.to_client view ev.x ev.y in
        let time = time_ms ev.time_us in
        let moved =
          if not (sp.same_point (h.current_location p) at) || not (pointer_in_view h sp view p)
          then h.motion (surface_under sp view at) at time p
          else p in
        refocus-free left at time (h.button ev.button (not (ev.pressed == 0)) time moved) free

    -- Whatever the event, and whichever view it is for: with no grab left, the focus is what is under
    -- the point in the view that the pointer entered, moved or clicked in, or nothing once it has left,
    -- also by the release of a click that outlasted the leave. A leave for a view that the pointer is not
    -- in changes nothing, as it may come after the next view's enter; nor does a scroll.
    pointer_input_settles :
        (ev : PointerEvent F) (d : Devices P)
        → h.is_grabbed (pointer_input h sp view ev d).pointer ≡ false
        → ((pointer_input h sp view ev d).left ≡ left_after view ev d)
          × (h.current_focus (pointer_input h sp view ev d).pointer ≡ focus_after view ev d)
    unfolding pointer_input
    pointer_input_settles ev d free =
        let at = sp.to_client view ev.x ev.y in
        let time = time_ms ev.time_us in
        let entered = h.motion (surface_under sp view at) at time d.pointer in
        let left = h.motion none at time d.pointer in
        let pressed = press h sp view d.left ev d.pointer in
        let scrolled = h.axis (axis_frame sp view ev) d.pointer in
        (
          ground (arith, ==_iff ev.kind 0, ==_iff ev.kind 1, ==_iff ev.kind 2),
          ground (
            arith,
            free,
            law.frame_focus entered,
            law.frame_grab entered,
            law.motion_free (surface_under sp view at) at time d.pointer,
            law.frame_focus left,
            law.frame_grab left,
            law.motion_free none at time d.pointer,
            law.frame_focus pressed,
            law.frame_grab pressed,
            press-free d.left ev d.pointer,
            law.frame_focus scrolled,
            law.frame_grab scrolled,
            law.axis_focus (axis_frame sp view ev) d.pointer,
          ),
        )

module _ {P Pt F : Type 0} (h : PointerHandle P Pt F) (law : IsLawful h) where
  -- Once the pointer has left, with no button held, nothing is under it.
  abbrev pub IsSettled : Devices P → Type 0
  IsSettled d = d.left ≡ true → h.is_grabbed d.pointer ≡ false → h.current_focus d.pointer ≡ none

  -- What an event that is not the pointer's to move leaves as it was.
  pointer_input_kept :
      (sp : Space Pt F) (view : ℕ) (ev : PointerEvent F) (d : Devices P)
      → ev.kind ≢ 0
      → ev.kind ≢ 2
      → ev.kind ≢ 3
      → (ev.kind ≡ 1 → pointer_in_view h sp view d.pointer ≡ false)
      → h.is_grabbed (pointer_input h sp view ev d).pointer ≡ h.is_grabbed d.pointer
  unfolding pointer_input
  pointer_input_kept sp view ev d a b c e =
      let scrolled = h.axis (axis_frame sp view ev) d.pointer in
      ground (
        arith,
        a,
        b,
        c,
        e,
        ==_iff ev.kind 0,
        ==_iff ev.kind 1,
        ==_iff ev.kind 2,
        ==_iff ev.kind 3,
        law.frame_grab scrolled,
        law.axis_grab (axis_frame sp view ev) d.pointer,
      )

  pointer_input-IsSettled :
      (sp : Space Pt F) (view : ℕ) (ev : PointerEvent F) (d : Devices P)
      → IsSettled d
      → IsSettled (pointer_input h sp view ev d)
  pointer_input-IsSettled sp view ev d old gone free =
      let (left, focus) = pointer_input_settles h sp law view ev d free in
      let kept = pointer_input_kept sp view ev d in
      focus
      ∙ ground (
        arith,
        left,
        gone,
        free,
        old,
        kept,
        ==_iff ev.kind 0,
        ==_iff ev.kind 1,
        ==_iff ev.kind 2,
        ==_iff ev.kind 3,
      )

  -- Events, each for a view, with the scene as it is then.
  unfoldable pub run_input : List (Space Pt F × ℕ × PointerEvent F) → Devices P → Devices P
  run_input [] d = d
  run_input ((sp, view, ev) ∷ evs) d = run_input evs (pointer_input h sp view ev d)

  -- Whatever events come for whatever views, in whatever order and however the scenes change in between:
  -- once the pointer has left its view, mid-click or not, nothing is under it as soon as no button is held.
  pub run_input_settles :
      (evs : List (Space Pt F × ℕ × PointerEvent F)) (d : Devices P)
      → IsSettled d
      → (run_input evs d).left ≡ true
      → h.is_grabbed (run_input evs d).pointer ≡ false
      → h.current_focus (run_input evs d).pointer ≡ none
  unfolding run_input
  run_input_settles [] d old gone free = old gone free
  run_input_settles ((sp, view, ev) ∷ evs) d old gone free =
      run_input_settles evs (pointer_input h sp view ev d)
        (pointer_input-IsSettled sp view ev d old) gone free
