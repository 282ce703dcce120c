-- ===== src/Binding/Requests.antt =====
-- What changes bindings: the view commands of src/state.rs and the clients' requests of
-- src/handlers/xdg.rs, src/handlers/compositor.rs and src/handlers/activation.rs.
use ihs_wl_server.Prelude.{
  ℕ, zero, suc, Bool, true, false, not, ◌||◌, List, [], ◌∷◌, ◌++◌, Option, none, some, ◌==◌,
  if◌then◌else◌, lookup, insert, modify, erase, is_some, retain, contains,
}
use ihs_wl_server.Binding.{
  Params, View, Toplevel, Server, Effect, closed, submit_view, refresh_keyboard_focus,
  send_configure, forget_view, option_eq, try_bind_view, bind_waiting_views, unbind_view,
}

-- `Cmd::ViewCreated`: a view under a live id takes the place of the incumbent.
unfoldable pub view_created : ℕ → Params → Server → Server × List Effect
view_created v p s =
    let entry : View = record { params = p; toplevel = none; suspended = false } in
    let (s', effects) = if is_some (lookup v s.views) then unbind_view v s else (s, []) in
    let (s'', more) = try_bind_view v (record s' { views = insert v entry s'.views }) in
    (s'', effects ++ more)

-- `Cmd::ViewDisposed`.
unfoldable pub view_disposed : ℕ → Server → Server × List Effect
view_disposed v s =
    let (s', effects) = unbind_view v s in
    (
      record s' {
        views = erase v s'.views;
        focused = if option_eq s'.focused (some v) then none else s'.focused;
      },
      effects ++ forget_view v ∷ [],
    )

unfoldable pub unbind_toplevel : ℕ → Server → Server × List Effect
unbind_toplevel t s = elim (lookup t s.toplevels) [
  | none ↦ (s, [])
  | some e ↦ elim e.view [
    | none ↦ (s, [])
    | some v ↦ let (s', effects) = unbind_view v s in (s', effects ++ closed v ∷ [])
  ]
]

-- `Toplevels::insert`: ids count up. What the client says of the toplevel, and who the client is,
-- comes with it.
unfoldable pub new_toplevel : (app_id : ℕ) → Option (Option ℕ) → Server → Server × List Effect
new_toplevel app_id sandbox s =
    let entry : Toplevel = record {
      mapped = false;
      view = none;
      token = none;
      parent = none;
      app_id = app_id;
      sandbox = sandbox;
    } in
    (record s { next_id = suc s.next_id; toplevels = insert (suc s.next_id) entry s.toplevels }, [])

abbrev pub set_mapped : Toplevel → Toplevel
set_mapped e = record e { mapped = true }

-- `toplevel_commit`: the first commit maps the toplevel. Whether the initial configure was sent is
-- the protocol library's.
unfoldable pub toplevel_commit : (configured : Bool) → ℕ → Server → Server × List Effect
toplevel_commit configured t s =
    let first = if configured then [] else send_configure t ∷ [] in
    elim (lookup t s.toplevels) [
      | none ↦ (s, [])
      | some e ↦
          let (s', effects) =
            bind_waiting_views (record s { toplevels = modify t set_mapped s.toplevels }) in
          if e.mapped then (s, first) else (s', first ++ effects ++ refresh_keyboard_focus ∷ [])
    ]

abbrev pub max_depth : ℕ
max_depth = 16

abbrev pub parent_of : ℕ → List (ℕ × Toplevel) → Option ℕ
parent_of t ts = elim (lookup t ts) [ none ↦ none | some e ↦ e.parent ]

-- `window_root`, of a toplevel: up its parents, 16 of them at most.
unfoldable pub root_from : ℕ → ℕ → List (ℕ × Toplevel) → ℕ
root_from zero t ts = t
root_from (suc n) t ts = elim (parent_of t ts) [ none ↦ t | some p ↦ root_from n p ts ]

abbrev pub view_of : ℕ → List (ℕ × Toplevel) → Option ℕ
view_of t ts = elim (lookup t ts) [ none ↦ none | some e ↦ e.view ]

unfoldable pub bound_view_of : ℕ → Server → Option ℕ
unfolding root_from
bound_view_of t s = view_of (root_from max_depth t s.toplevels) s.toplevels

abbrev pub redraw : Option ℕ → List Effect
redraw none = []
redraw (some v) = submit_view v ∷ refresh_keyboard_focus ∷ []

-- A dialog's view is looked up while its parent is still known.
unfoldable pub toplevel_destroyed : ℕ → Server → Server × List Effect
unfolding bound_view_of
toplevel_destroyed t s =
    let dialog_view = if is_some (parent_of t s.toplevels) then bound_view_of t s else none in
    let (s', effects) = unbind_toplevel t s in
    (record s' { toplevels = erase t s'.toplevels }, effects ++ redraw dialog_view)

abbrev pub shown_views : List (ℕ × View) → List Effect
shown_views [] = []
shown_views ((v, e) ∷ vs) =
    if is_some e.toplevel then submit_view v ∷ shown_views vs else shown_views vs

-- `set_parent` in the protocol library, and `parent_changed`.
unfoldable pub parent_changed : ℕ → Option ℕ → Server → Server × List Effect
parent_changed t p s = (
  record s { toplevels = modify t (λ (e : Toplevel). record e { parent = p }) s.toplevels },
  shown_views s.views ++ refresh_keyboard_focus ∷ [],
)

-- `set_app_id` in the protocol library: the code reads it when it binds.
unfoldable pub app_id_changed : ℕ → ℕ → Server → Server × List Effect
app_id_changed t a s =
    (record s { toplevels = modify t (λ (e : Toplevel). record e { app_id = a }) s.toplevels }, [])

unfoldable pub issue_activation_token : ℕ → Server → Server × List Effect
issue_activation_token token s = (record s { issued = token ∷ s.issued }, [])

-- Some view names the token.
abbrev pub is_wanted : ℕ → List (ℕ × View) → Bool
is_wanted token [] = false
is_wanted token ((v, e) ∷ vs) = option_eq e.params.token (some token) || is_wanted token vs

abbrev pub names_token : ℕ → Option View → Bool
names_token token none = false
names_token token (some e) = option_eq e.params.token (some token)

abbrev pub set_token : ℕ → Toplevel → Toplevel
set_token token e = record e { token = some token }

-- The end of `request_activation`, with the token used up and the toplevel reserved. A view that
-- took the toplevel by its app id gives way to the one naming the token.
unfoldable pub reserve : ℕ → Option ℕ → Server → Server × List Effect
reserve token none s = bind_waiting_views s
reserve token (some v) s =
    let (s', effects) = unbind_view v s in
    let (s'', more) = bind_waiting_views s' in
    if names_token token (lookup v s.views) || not (is_wanted token s.views)
    then (s, [])
    else (s'', effects ++ more)

-- The surface's toplevel is given, or none.
unfoldable pub request_activation : ℕ → Option ℕ → Server → Server × List Effect
request_activation token none s = (s, [])
request_activation token (some t) s =
    let used : Server = record s {
      issued = retain (λ i. not (i == token)) s.issued;
      toplevels = modify t (set_token token) s.toplevels;
    } in
    if contains s.issued token
    then elim (lookup t s.toplevels) [ none ↦ (used, []) | some e ↦ reserve token e.view used ]
    else (s, [])

-- `view_suspended`, as far as it is seen here.
unfoldable pub view_suspended : ℕ → Bool → Server → Server × List Effect
view_suspended v b s = (
  record s { views = modify v (λ (e : View). record e { suspended = b }) s.views },
  refresh_keyboard_focus ∷ [],
)

pub data Request : Type 0 where
  create : (view : ℕ) → Params → Request
  dispose : (view : ℕ) → Request
  suspend : (view : ℕ) → Bool → Request
  add : (app_id : ℕ) → (sandbox : Option (Option ℕ)) → Request
  commit : (configured : Bool) → (toplevel : ℕ) → Request
  destroy : (toplevel : ℕ) → Request
  set_parent : (toplevel : ℕ) → Option ℕ → Request
  set_app_id : (toplevel app_id : ℕ) → Request
  issue : (token : ℕ) → Request
  activate : (token : ℕ) → Option ℕ → Request

unfoldable pub step : Request → Server → Server × List Effect
step (create v p) s = view_created v p s
step (dispose v) s = view_disposed v s
step (suspend v b) s = view_suspended v b s
step (add a c) s = new_toplevel a c s
step (commit configured t) s = toplevel_commit configured t s
step (destroy t) s = toplevel_destroyed t s
step (set_parent t p) s = parent_changed t p s
step (set_app_id t a) s = app_id_changed t a s
step (issue token) s = issue_activation_token token s
step (activate token t) s = request_activation token t s

unfoldable pub run : List Request → Server → Server
run [] s = s
run (r ∷ rs) s = run rs (step r s).0
