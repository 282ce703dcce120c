-- ===== src/Link.antt =====
-- src/view.rs: the platform-view factory, the callbacks of a view, and the link that a submit holds. What
-- the shell answers is an input, and so is the rounding of a view's size (f64). The server is that of
-- Lifecycle, which may change between two looks at it.
pub mod Factory
pub mod Threads
pub mod Disposed
pub mod Waits
use ihs_wl_server.Prelude.{
  ℕ, Bool, true, false, not, ◌&&◌, List, [], ◌∷◌, Option, none, some, ◌==◌, leb, if◌then◌else◌, map,
}
use ihs_wl_server.Lifecycle.{Lifecycle, Code, ok, send, is_running}
use ihs_wl_server.Params.{ViewParams, Number, decode}
use ihs_wl_server.Timing.Frames.{Report}
use ihs_wl_server.Caps.{FormatModifier}

-- The shell's codes.
pub data PvCode : Type 0 where
  pv_ok invalid no_backend : PvCode
  refused : ℕ → PvCode

-- `IhsPvCreateInfo`; the parameters are none if they are NULL or empty.
pub record CreateInfo : Type 0 where
  pub id : ℕ
  pub params : Option (List ℕ)

-- `ViewShared`, without its link.
pub record ViewShared : Type 0 where
  pub id : ℕ
  pub params : ViewParams
  pub size : Option (ℕ × ℕ)

-- What the factory did: its code, whether it took a grant, the view that it sent, and whether the shell
-- has its callbacks.
pub record Made : Type 0 where
  pub code : PvCode
  pub granted : Bool
  pub created : Option ViewShared
  pub callbacks : Bool

abbrev pub no_params : ViewParams
no_params = record {
  token = none;
  app_id = none;
  sandbox_app_id = none;
  dpr = none;
  requested = none;
  capabilities = 0;
  window_state = 0;
}

abbrev pub params_of : (Number → ℕ) → Option (List ℕ) → ViewParams
params_of side none = no_params
params_of side (some bytes) = decode side bytes

-- The laid-out size, if it is known.
abbrev pub size_of : ℕ × ℕ → Option (ℕ × ℕ)
size_of (w, h) = if leb 1 w && leb 1 h then some (w, h) else none

unfoldable pub shared_of :
    (side : Number → ℕ) (physical : Option Number → ℕ × ℕ) → CreateInfo → ViewShared
shared_of side physical info =
    let params = params_of side info.params in
    record { id = info.id; params = params; size = size_of (physical params.dpr) }

abbrev pub fail : PvCode → Bool → Made
fail code granted = record { code = code; granted = granted; created = none; callbacks = false }

-- Where the closure panics, if it does: at its start, at the grant, while the view is made, once the
-- command is sent, or once the callbacks are given.
pub data Unwinds : Type 0 where
  never : Unwinds
  at_start : Unwinds
  at_grant : Unwinds
  at_view : Unwinds
  sent : Unwinds
  handed : Unwinds

-- What is sent stays sent.
abbrev pub unwound : ViewShared → Bool → Made
unwound shared given = record {
  code = invalid;
  granted = true;
  created = some shared;
  callbacks = given;
}

abbrev pub hand_out : Code → ViewShared → Unwinds → Made
hand_out ok shared sent = unwound shared false
hand_out ok shared handed = unwound shared true
hand_out ok shared panics = record {
  code = pv_ok;
  granted = true;
  created = some shared;
  callbacks = true;
}
hand_out other shared panics = fail no_backend true

abbrev pub make_view : Unwinds → Code → ViewShared → Made
make_view at_view other shared = fail invalid true
make_view panics other shared = hand_out other shared panics

-- `negotiated` is none if the shell grants, or else its code.
abbrev pub negotiate : Unwinds → (negotiated : Option ℕ) → Code → ViewShared → Made
negotiate at_grant negotiated other shared = fail invalid false
negotiate panics (some rc) other shared = fail (refused rc) false
negotiate panics none other shared = make_view panics other shared

abbrev pub is_at_start : Unwinds → Bool
is_at_start at_start = true
is_at_start panics = false

-- The closure, under `catch_unwind`.
unfoldable pub factory :
    (side : Number → ℕ) (physical : Option Number → ℕ × ℕ) (nulls : Bool) (before : Lifecycle)
    (negotiated : Option ℕ) (after : Lifecycle) (panics : Unwinds)
    → CreateInfo
    → Made
factory side physical nulls before negotiated after panics info =
    if is_at_start panics
    then fail invalid false
    else if nulls
    then fail invalid false
    else if not (is_running before)
    then fail no_backend false
    else negotiate panics negotiated (send after) (shared_of side physical info)

-- The commands that the callbacks send.
pub data Cmd : Type 0 where
  view_resized : (view : ℕ) → ℕ × ℕ → Cmd
  presented : (view : ℕ) → Report → Cmd
  scanout_hint : (view layer dev : ℕ) → List FormatModifier → Cmd
  view_suspended : (view : ℕ) → Bool → Cmd
  view_disposed : (view : ℕ) → Cmd

unfoldable pub on_resize : ViewShared → ℕ × ℕ → Cmd
on_resize v size = view_resized v.id size

unfoldable pub on_presented : ViewShared → (seq ust_ns refresh_ns msc flags : ℕ) → Cmd
on_presented v seq ust_ns refresh_ns msc flags =
    presented v.id
      (record { seq = seq; ust_ns = ust_ns; refresh_ns = refresh_ns; msc = msc; flags = flags })

-- No formats if they are NULL.
unfoldable pub on_scanout_hint : ViewShared → (layer dev : ℕ) → Option (List FormatModifier) → Cmd
on_scanout_hint v layer dev none = scanout_hint v.id layer dev []
on_scanout_hint v layer dev (some formats) = scanout_hint v.id layer dev formats

unfoldable pub on_set_suspended : ViewShared → ℕ → Cmd
on_set_suspended v suspended = view_suspended v.id (not (suspended == 0))

-- The command of `on_dispose`, once the link is cleared (Link.Threads).
unfoldable pub on_dispose : ViewShared → Cmd
on_dispose v = view_disposed v.id
