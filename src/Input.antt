-- ===== src/Input.antt =====
-- src/input.rs: pointer and touch input from the app, onto the seat. The seat's devices are the protocol
-- library's: interfaces, with the laws that the code relies on. So are f64 arithmetic and the hit test.
pub mod Keys
pub mod Settled
pub mod Follows
use ihs_wl_server.Prelude.{
  ℕ, ◌+◌, ◌/◌, ◌%◌, ◌≡◌, refl, arith, Bool, true, false, not, ◌&&◌, ◌||◌, List, [], ◌∷◌, Option,
  none, some, ◌==◌, if◌then◌else◌, u32_mod,
}
use mathlib.Core.List.{reverse}
use ihs_wl_server.Binding.{option_eq}

pub data AxisSource : Type 0 where
  wheel finger continuous wheel_tilt : AxisSource

-- A distance and a `v120` are none where the event has 0 for them.
pub record AxisFrame (F : Type 0) : Type 0 where
  pub time : ℕ
  pub source : AxisSource
  pub horizontal : Option F
  pub vertical : Option F
  pub v120_horizontal : Option ℕ
  pub v120_vertical : Option ℕ

-- A pointer of the library, at points of type `Pt`.
pub record PointerHandle (P Pt F : Type 0) : Type 0 where
  pub motion : Option ℕ → Pt → (time : ℕ) → P → P
  pub button : (button : ℕ) → (pressed : Bool) → (time : ℕ) → P → P
  pub axis : AxisFrame F → P → P
  pub frame : P → P
  pub current_focus : P → Option ℕ
  pub current_location : P → Pt
  pub is_grabbed : P → Bool

-- With no grab, the focus is what the last motion gave; an axis event and a frame leave it and the
-- grab alone.
pub record IsLawful {P Pt F : Type 0} (h : PointerHandle P Pt F) : Type 0 where
  pub motion_free :
      (f : Option ℕ) (at : Pt) (time : ℕ) (p : P)
      → h.is_grabbed (h.motion f at time p) ≡ false
      → h.current_focus (h.motion f at time p) ≡ f
  pub axis_focus : (a : AxisFrame F) (p : P) → h.current_focus (h.axis a p) ≡ h.current_focus p
  pub axis_grab : (a : AxisFrame F) (p : P) → h.is_grabbed (h.axis a p) ≡ h.is_grabbed p
  pub frame_focus : (p : P) → h.current_focus (h.frame p) ≡ h.current_focus p
  pub frame_grab : (p : P) → h.is_grabbed (h.frame p) ≡ h.is_grabbed p

-- The views' trees, and how the views' points and distances map to their clients'.
pub record Space (Pt F : Type 0) : Type 0 where
  pub trees : (view : ℕ) → List (ℕ × Pt)
  pub under_tree : (root : ℕ) → (at start : Pt) → Option ℕ
  pub bound_view_of : (surface : ℕ) → Option ℕ
  pub to_client : (view : ℕ) → (x y : F) → Pt
  pub scaled : (view : ℕ) → F → F
  pub is_zero : F → Bool
  pub same_point : Pt → Pt → Bool

pub record PointerEvent (F : Type 0) : Type 0 where
  pub kind : ℕ
  pub button : ℕ
  pub x : F
  pub y : F
  pub pressed : ℕ
  pub axis_source : ℕ
  pub axis_x : F
  pub axis_y : F
  pub value120_x : ℕ
  pub value120_y : ℕ
  pub time_us : ℕ

pub record Devices (P : Type 0) : Type 0 where
  pub pointer : P
  pub left : Bool

-- Milliseconds that wrap.
abbrev pub time_ms : ℕ → ℕ
time_ms time_us = (time_us / 1000) % u32_mod

abbrev pub source_of : ℕ → AxisSource
source_of n =
    if n == 1 then finger else if n == 2 then continuous else if n == 3 then wheel_tilt else wheel

abbrev pub unless : {A : Type 0} → Bool → A → Option A
unless b a = if b then none else some a

pub option_eq→eq : (a b : Option ℕ) → option_eq a b ≡ true → a ≡ b
option_eq→eq none none e = refl
option_eq→eq none (some b) e = cc
option_eq→eq (some a) none e = cc
option_eq→eq (some a) (some b) e = ground arith

module _ {Pt F : Type 0} (sp : Space Pt F) where
  abbrev pub find_under : Pt → List (ℕ × Pt) → Option ℕ
  find_under at [] = none
  find_under at ((root, start) ∷ ts) = elim (sp.under_tree root at start) [
    | some s ↦ some s
    | none ↦ find_under at ts
  ]

  -- Topmost first.
  unfoldable pub surface_under : (view : ℕ) → Pt → Option ℕ
  surface_under view at = find_under at (reverse (sp.trees view))

  unfoldable pub axis_frame : (view : ℕ) → PointerEvent F → AxisFrame F
  axis_frame view ev = record {
    time = time_ms ev.time_us;
    source = source_of ev.axis_source;
    horizontal = unless (sp.is_zero ev.axis_x) (sp.scaled view ev.axis_x);
    vertical = unless (sp.is_zero ev.axis_y) (sp.scaled view ev.axis_y);
    v120_horizontal = unless (ev.value120_x == 0) ev.value120_x;
    v120_vertical = unless (ev.value120_y == 0) ev.value120_y;
  }

module _ {P Pt F : Type 0} (h : PointerHandle P Pt F) (sp : Space Pt F) (view : ℕ) where
  abbrev pub in_focus_of : Option ℕ → Bool
  in_focus_of none = false
  in_focus_of (some s) = option_eq (sp.bound_view_of s) (some view)

  unfoldable pub pointer_in_view : P → Bool
  pointer_in_view p = in_focus_of (h.current_focus p)

  -- The grab ends with the last button up: what is under the pointer then gets it.
  unfoldable pub refocus : (left : Bool) → Pt → (time : ℕ) → P → P
  refocus left at time p =
      let focus = if left then none else surface_under sp view at in
      if h.is_grabbed p || option_eq focus (h.current_focus p) then p else h.motion focus at time p

  unfoldable pub press : (left : Bool) → PointerEvent F → P → P
  unfolding pointer_in_view
  press left ev p =
      let at = sp.to_client view ev.x ev.y in
      let time = time_ms ev.time_us in
      let moved =
        if not (sp.same_point (h.current_location p) at) || not (pointer_in_view p)
        then h.motion (surface_under sp view at) at time p
        else p in
      refocus left at time (h.button ev.button (not (ev.pressed == 0)) time moved)

  unfoldable pub pointer_input : PointerEvent F → Devices P → Devices P
  unfolding pointer_in_view
  pointer_input ev d =
      let at = sp.to_client view ev.x ev.y in
      let time = time_ms ev.time_us in
      if ev.kind == 0 || ev.kind == 2
      then record {
        pointer = h.frame (h.motion (surface_under sp view at) at time d.pointer);
        left = false;
      }
      else if ev.kind == 1
      then (if pointer_in_view d.pointer
          then record { pointer = h.frame (h.motion none at time d.pointer); left = true }
          else d)
      else if ev.kind == 3
      then record d { pointer = h.frame (press d.left ev d.pointer) }
      else if ev.kind == 4
      then record d { pointer = h.frame (h.axis (axis_frame sp view ev) d.pointer) }
      else d

-- A touch device's calls.
pub data TouchCall (Pt : Type 0) : Type 0 where
  down : (slot : ℕ) → Option ℕ → Pt → (time : ℕ) → TouchCall Pt
  up : (slot time : ℕ) → TouchCall Pt
  motion : (slot : ℕ) → Option ℕ → Pt → (time : ℕ) → TouchCall Pt
  cancel touch_frame : TouchCall Pt

pub record TouchEvent (F : Type 0) : Type 0 where
  pub kind : ℕ
  pub slot : ℕ
  pub x : F
  pub y : F
  pub time_us : ℕ

-- A point stays with the surface it went down on.
unfoldable pub touch_input :
    {Pt F : Type 0} → Space Pt F → (view : ℕ) → TouchEvent F → List (TouchCall Pt)
touch_input sp view ev =
    let time = time_ms ev.time_us in
    let at = sp.to_client view ev.x ev.y in
    if ev.kind == 0
    then down ev.slot (surface_under sp view at) at time ∷ []
    else if ev.kind == 1
    then up ev.slot time ∷ []
    else if ev.kind == 2
    then motion ev.slot none at time ∷ []
    else if ev.kind == 3
    then cancel ∷ []
    else if ev.kind == 4
    then touch_frame ∷ []
    else []
