-- ===== src/Scanout.antt =====
-- src/scanout.rs: surfaces whose layer could go on a plane, their feedback with a scanout tranche, and the
-- one that was built last; and src/handlers/dmabuf.rs, the default feedback. Surfaces are numbers, a weak
-- one upgrades until it is gone, and feedback is what smithay's builder makes, of any type.
pub mod Finds
pub mod Coherent
pub mod Runs
use ihs_wl_server.Prelude.{
  ℕ, Bool, true, false, not, ◌&&◌, List, [], ◌∷◌, ◌++◌, Option, none, some, ◌==◌, if◌then◌else◌,
  retain, contains, lookup, insert, modify, erase,
}
use ihs_wl_server.Caps.{FormatModifier, fm_eq, Caps, offers}

-- What the server has from its start: `builder` is DmabufFeedbackBuilder without a tranche, `tranched` with
-- one of scanout for a device, and `known` what Fourcc::try_from knows.
pub record Host (Feedback : Type 0) : Type 0 where
  pub caps : Caps
  pub known : ℕ → Bool
  pub builder : (main : ℕ) → List FormatModifier → Option Feedback
  pub tranched :
      (main : ℕ) → List FormatModifier → (dev : ℕ) → List FormatModifier → Option Feedback

pub record Hint : Type 0 where
  pub layer_id : ℕ
  pub dev : ℕ
  pub formats : List FormatModifier

pub record Built (Feedback : Type 0) : Type 0 where
  pub dev : ℕ
  pub hinted : List FormatModifier
  pub feedback : Option Feedback

pub record Hinted (Feedback : Type 0) : Type 0 where
  pub surface : ℕ
  pub view : ℕ
  pub feedback : Feedback

-- `told` is the feedback of the surfaces that asked for it, which smithay keeps, and `gone` the surfaces
-- that were destroyed.
pub record Scanout (Feedback : Type 0) : Type 0 where
  pub hinted : List (Hinted Feedback)
  pub last : Option (Built Feedback)
  pub told : List (ℕ × Feedback)
  pub gone : List ℕ

abbrev pub formats : (known : ℕ → Bool) → List FormatModifier → List FormatModifier
formats known offered = retain (λ (f : FormatModifier). known f.fourcc) offered

abbrev pub formats_eq : List FormatModifier → List FormatModifier → Bool
formats_eq [] [] = true
formats_eq [] (g ∷ gs) = false
formats_eq (f ∷ fs) [] = false
formats_eq (f ∷ fs) (g ∷ gs) = fm_eq g.fourcc g.modifier f && formats_eq fs gs

-- The surface of a view's trees, each in the order of its walk, that is the layer.
unfoldable pub layer_surface : (trees : List (List (ℕ × Option ℕ))) → (layer_id : ℕ) → Option ℕ
layer_surface [] layer = none
layer_surface (tree ∷ trees) layer = in_tree tree (layer_surface trees layer)
  where
    is_layer : Option ℕ → Bool
    is_layer none = false
    is_layer (some i) = i == layer

    in_tree : List (ℕ × Option ℕ) → Option ℕ → Option ℕ
    in_tree [] later = later
    in_tree ((s, i) ∷ surfaces) later = if is_layer i then some s else in_tree surfaces later

module _ {Feedback : Type 0} where
  abbrev pub find_hinted : ℕ → List (Hinted Feedback) → Option Feedback
  find_hinted s [] = none
  find_hinted s (e ∷ es) = if e.surface == s then some e.feedback else find_hinted s es

  -- A surface that is gone upgrades to none, so that it is not found.
  unfoldable pub hinted_feedback : ℕ → Scanout Feedback → Option Feedback
  hinted_feedback s w =
      find_hinted s (retain (λ (e : Hinted Feedback). not (contains w.gone e.surface)) w.hinted)

  abbrev pub set_feedback : ℕ → Feedback → Scanout Feedback → Scanout Feedback
  set_feedback s f w = record w { told = modify s (λ g. f) w.told }

  abbrev pub or_default : Feedback → Option Feedback → Feedback
  or_default d none = d
  or_default d (some f) = f

  -- A surface that leaves its view, as its entry says, has the default again.
  abbrev pub tell : Feedback → (view : ℕ) → Hinted Feedback → Scanout Feedback → Scanout Feedback
  tell d view e w =
      if e.view == view && not (contains w.gone e.surface) then set_feedback e.surface d w else w

  -- `retain`, whose test tells the surfaces that it drops.
  unfoldable pub forget_each :
      Feedback → (view : ℕ) → List (Hinted Feedback) → Scanout Feedback → Scanout Feedback
  forget_each d view [] w = record w { hinted = [] }
  forget_each d view (e ∷ es) w =
      let rest = forget_each d view es (tell d view e w) in
      if e.view == view then rest else record rest { hinted = e ∷ rest.hinted }

  abbrev pub forget_for : Option Feedback → (view : ℕ) → Scanout Feedback → Scanout Feedback
  forget_for none view w = w
  forget_for (some d) view w = forget_each d view w.hinted w

  -- smithay keeps what the handler says, or the default; without a default there is nothing to ask for.
  abbrev pub answer_for : Option Feedback → ℕ → Scanout Feedback → Scanout Feedback
  answer_for none s w = w
  answer_for (some d) s w = record w { told = insert s (or_default d (hinted_feedback s w)) w.told }

  abbrev pub entry_of : (s view : ℕ) → Option Feedback → List (Hinted Feedback)
  entry_of s view none = []
  entry_of s view (some f) = record { surface = s; view = view; feedback = f } ∷ []

  unfoldable pub surface_gone : ℕ → Scanout Feedback → Scanout Feedback
  surface_gone s w = record w { gone = s ∷ w.gone; told = erase s w.told }

  module _ (host : Host Feedback) where
    -- The default feedback, where the render device is known.
    unfoldable pub global : Option Feedback
    global = elim host.caps.render_device [
      | none ↦ none
      | some device ↦ host.builder device (formats host.known host.caps.formats)
    ]

    unfoldable pub tranche_feedback : (main dev : ℕ) → List FormatModifier → Option Feedback
    tranche_feedback main dev [] = none
    tranche_feedback main dev (f ∷ fs) =
        host.tranched main (formats host.known host.caps.formats) dev (formats host.known (f ∷ fs))

    -- The tranche: the hinted formats that the shell also imports.
    abbrev pub imported : List FormatModifier → List FormatModifier
    imported hinted =
        retain (λ (f : FormatModifier). offers host.caps.formats f.fourcc f.modifier) hinted

    abbrev pub build : (main dev : ℕ) → List FormatModifier → Built Feedback
    build main dev formats = record {
      dev = dev;
      hinted = formats;
      feedback = tranche_feedback main dev (imported formats);
    }

    -- The one that was built last, if it is for the same.
    unfoldable pub cached :
        (main dev : ℕ) → List FormatModifier → Option (Built Feedback) → Built Feedback
    cached main dev hinted none = build main dev hinted
    cached main dev hinted (some b) =
        if b.dev == dev && formats_eq b.hinted hinted then b else build main dev hinted

    unfoldable pub scanout_feedback :
        (main dev : ℕ) → List FormatModifier → Scanout Feedback → Scanout Feedback × Option Feedback
    scanout_feedback main dev hinted w =
        let b = cached main dev hinted w.last in (record w { last = some b }, b.feedback)

    unfoldable pub hint_surface :
        (main : ℕ) → Feedback → (view : ℕ) → Hint → ℕ → Scanout Feedback → Scanout Feedback
    hint_surface main d view hint s w =
        let (built, feedback) = scanout_feedback main hint.dev hint.formats w in
        let kept =
          retain (λ (e : Hinted Feedback). not (contains w.gone e.surface) && not (e.surface == s))
            w.hinted in
        set_feedback s (or_default d feedback)
          (record built { hinted = kept ++ entry_of s view feedback })

    -- A hint without formats withdraws one, and changes nothing.
    abbrev pub hint_for :
        List FormatModifier
        → Option ℕ
        → Option Feedback
        → Option ℕ
        → (view : ℕ) → Hint
        → Scanout Feedback
        → Scanout Feedback
    hint_for [] main d s view hint w = w
    hint_for (f ∷ fs) none d s view hint w = w
    hint_for (f ∷ fs) (some main) none s view hint w = w
    hint_for (f ∷ fs) (some main) (some d) none view hint w = w
    hint_for (f ∷ fs) (some main) (some d) (some s) view hint w = hint_surface main d view hint s w

    unfoldable pub scanout_hint :
        (view : ℕ)
        → Hint
        → (trees : List (List (ℕ × Option ℕ))) → Scanout Feedback
        → Scanout Feedback
    scanout_hint view hint trees w =
        hint_for hint.formats host.caps.render_device global (layer_surface trees hint.layer_id)
          view hint w

    unfoldable pub forget_scanout : (view : ℕ) → Scanout Feedback → Scanout Feedback
    forget_scanout view w = forget_for global view w

    -- A surface asks for feedback, the first time.
    unfoldable pub new_surface_feedback : ℕ → Scanout Feedback → Scanout Feedback
    new_surface_feedback s w = answer_for global s w

abbrev pub no_scanout : {Feedback : Type 0} → Scanout Feedback
no_scanout = record { hinted = []; last = none; told = []; gone = [] }
