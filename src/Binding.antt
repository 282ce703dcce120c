-- ===== src/Binding.antt =====
-- src/state.rs, src/handlers/xdg.rs, src/handlers/activation.rs and src/dialogs.rs: which view shows
-- which toplevel. Ids and strings are numbers, which the code only compares; a view's id keeps its
-- order. Calls into the other components are effects, in the order in which they are made.
pub mod Requests
pub mod Consistent
pub mod Steps
pub mod Histories
pub mod Suits
pub mod Waiting
use ihs_wl_server.Prelude.{
  ℕ, suc, ◌+◌, Bool, true, false, not, ◌&&◌, ◌||◌, List, [], ◌∷◌, ◌++◌, map, Option, none, some,
  ◌==◌, leb, if◌then◌else◌, lookup, insert, modify, erase, is_some, option_map, any,
}

-- `ViewParams`, as far as binding reads them.
pub record Params : Type 0 where
  pub token : Option ℕ
  pub app_id : Option ℕ
  pub sandbox_app_id : Option ℕ

pub record View : Type 0 where
  pub params : Params
  pub toplevel : Option ℕ
  pub suspended : Bool

-- `ToplevelEntry`, with what the protocol library keeps of its surface: the toplevel of its parent,
-- the app id that the client claims, and the client's security context by its app id.
pub record Toplevel : Type 0 where
  pub mapped : Bool
  pub view : Option ℕ
  pub token : Option ℕ
  pub parent : Option ℕ
  pub app_id : ℕ
  pub sandbox : Option (Option ℕ)

pub record Server : Type 0 where
  pub views : List (ℕ × View)
  pub toplevels : List (ℕ × Toplevel)
  pub next_id : ℕ
  pub focused : Option ℕ
  pub issued : List ℕ

abbrev pub no_server : Server
no_server = record { views = []; toplevels = []; next_id = 0; focused = none; issued = [] }

pub data Effect : Type 0 where
  bound : (view toplevel : ℕ) → Effect
  closed : (view : ℕ) → Effect
  scale_tree configure_view submit_view : (view : ℕ) → Effect
  forget_scanout drop_frames clear_view clear_holds forget_view : (view : ℕ) → Effect
  refresh_keyboard_focus : Effect
  send_configure : (toplevel : ℕ) → Effect

abbrev pub option_eq : Option ℕ → Option ℕ → Bool
option_eq none none = true
option_eq none (some b) = false
option_eq (some a) none = false
option_eq (some a) (some b) = a == b

-- The view names no sandbox, or the client's, by its app id.
abbrev pub in_sandbox : Option ℕ → Option (Option ℕ) → Bool
in_sandbox none context = true
in_sandbox (some s) none = false
in_sandbox (some s) (some app) = option_eq app (some s)

-- A sandboxed client's app id counts only when it is its sandbox's.
abbrev pub is_own : Toplevel → Bool
is_own t = elim t.sandbox [ none ↦ true | some app ↦ option_eq app (some t.app_id) ]

abbrev pub by_app_id : Option ℕ → Toplevel → Bool
by_app_id none t = true
by_app_id (some a) t = is_own t && t.app_id == a

-- Whether the closure of `try_bind_view` finds the toplevel.
unfoldable pub matches : Params → Toplevel → Bool
matches p t =
    t.mapped
    && not (is_some t.view)
    && not (is_some t.parent)
    && in_sandbox p.sandbox_app_id t.sandbox
    && (if is_some p.token || is_some t.token
        then option_eq t.token p.token
        else by_app_id p.app_id t)

-- `find_map` over the toplevels, oldest first.
unfoldable pub find_match : Params → List (ℕ × Toplevel) → Option ℕ
find_match p [] = none
find_match p ((id, t) ∷ ts) = if matches p t then some id else find_match p ts

abbrev pub show_toplevel : Option ℕ → View → View
show_toplevel t e = record e { toplevel = t }

abbrev pub shown_in : Option ℕ → Toplevel → Toplevel
shown_in v t = record t { view = v }

unfoldable pub bind : ℕ → ℕ → Server → Server × List Effect
bind v t s = (
  record s {
    views = modify v (show_toplevel (some t)) s.views;
    toplevels = modify t (shown_in (some v)) s.toplevels;
  },
  bound v t ∷ scale_tree v ∷ configure_view v ∷ refresh_keyboard_focus ∷ submit_view v ∷ [],
)

abbrev pub bind_found : ℕ → Option ℕ → Server → Server × List Effect
bind_found v none s = (s, [])
bind_found v (some t) s = bind v t s

unfoldable pub try_bind_view : ℕ → Server → Server × List Effect
try_bind_view v s = elim (lookup v s.views) [
  | none ↦ (s, [])
  | some e ↦
      if is_some e.toplevel then (s, []) else bind_found v (find_match e.params s.toplevels) s
]

-- `sort_unstable` of the waiting views' ids.
unfoldable pub sorted_insert : ℕ → List ℕ → List ℕ
sorted_insert a [] = a ∷ []
sorted_insert a (b ∷ bs) = if leb a b then a ∷ b ∷ bs else b ∷ sorted_insert a bs

unfoldable pub waiting : List (ℕ × View) → List ℕ
unfolding sorted_insert
waiting [] = []
waiting ((v, e) ∷ vs) = if is_some e.toplevel then waiting vs else sorted_insert v (waiting vs)

unfoldable pub bind_each : List ℕ → Server → Server × List Effect
bind_each [] s = (s, [])
bind_each (v ∷ vs) s =
    let (s', effects) = try_bind_view v s in
    let (s'', more) = bind_each vs s' in (s'', effects ++ more)

unfoldable pub bind_waiting_views : Server → Server × List Effect
bind_waiting_views s = bind_each (waiting s.views) s

-- `entry.toplevel.take()`, and the toplevel's side.
abbrev pub part : ℕ → Option ℕ → Server → Server
part v none s = s
part v (some t) s = record s {
  views = modify v (show_toplevel none) s.views;
  toplevels = modify t (shown_in none) s.toplevels;
}

unfoldable pub unbind_view : ℕ → Server → Server × List Effect
unbind_view v s =
    let going = forget_scanout v ∷ drop_frames v ∷ clear_view v ∷ [] in
    elim (lookup v s.views) [
      | none ↦ (s, going)
      | some e ↦ (part v e.toplevel s, going ++ clear_holds v ∷ refresh_keyboard_focus ∷ [])
    ]
