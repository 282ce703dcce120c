-- ===== src/Link/Factory.antt =====
-- The branches of the factory of src/view.rs.
use ihs_wl_server.Prelude.{ℕ, ◌≡◌, ◌≢◌, ◌≤◌, ◌⊎◌, Bool, true, false, Option, none, some}
use ihs_wl_server.Lifecycle.{Lifecycle, Code, ok, send, is_running}
use ihs_wl_server.Params.{Number}
use ihs_wl_server.Link.{
  pv_ok, CreateInfo, ViewShared, Made, params_of, Unwinds, never, sent, handed,
}

-- The laid-out size in pixels is known if it is of a pixel at least on each side.
abbrev pub HasSize : Option (ℕ × ℕ) → ℕ × ℕ → Type 0
HasSize none (w, h) = (w ≡ 0) ⊎ (h ≡ 0)
HasSize (some size) (w, h) = (size ≡ (w, h)) × (1 ≤ w) × (1 ≤ h)

-- The view that the shell asks for.
abbrev pub IsAsked :
    (side : Number → ℕ) (physical : Option Number → ℕ × ℕ) → CreateInfo → ViewShared → Type 0
IsAsked side physical info v =
    (v.id ≡ info.id)
    × (v.params ≡ params_of side info.params)
    × HasSize v.size (physical v.params.dpr)

-- Nothing was done for good, unless the panic came after the command was sent.
abbrev pub LeavesNothing : Unwinds → Made → Type 0
LeavesNothing panics m =
    ((m.created ≡ none) × (m.callbacks ≡ false)) ⊎ ((panics ≡ sent) ⊎ (panics ≡ handed))

-- How the closure goes on once the server was seen to run.
abbrev pub Ends : Unwinds → Option ℕ → Code → ViewShared → Made → Type 0
Ends panics negotiated c v m =
    ((m.code ≡ pv_ok)
      × (m.callbacks ≡ true)
      × (m.created ≡ some v)
      × (negotiated ≡ none)
      × (c ≡ ok)
      × (panics ≡ never))
    ⊎ ((m.code ≢ pv_ok)
        × LeavesNothing panics m
        × ((negotiated ≢ none) ⊎ (c ≢ ok) ⊎ (panics ≢ never)))

-- What the factory comes to.
abbrev pub IsMade :
    (side : Number → ℕ) (physical : Option Number → ℕ × ℕ) (nulls : Bool) (before : Lifecycle)
    (negotiated : Option ℕ) (after : Lifecycle) (panics : Unwinds)
    → CreateInfo
    → Made
    → Type 0
IsMade side physical nulls before negotiated after panics info m =
    ((v : ViewShared) × IsAsked side physical info v
      × (m.created ≡ some v)
      × (m.code ≡ pv_ok)
      × (m.callbacks ≡ true)
      × (nulls ≡ false)
      × (is_running before ≡ true)
      × (negotiated ≡ none)
      × (send after ≡ ok)
      × (panics ≡ never))
    ⊎ ((m.code ≢ pv_ok)
        × LeavesNothing panics m
        × ((nulls ≡ true)
            ⊎ (is_running before ≡ false)
            ⊎ (negotiated ≢ none)
            ⊎ (send after ≢ ok)
            ⊎ (panics ≢ never)))
