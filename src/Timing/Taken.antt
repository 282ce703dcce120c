-- ===== src/Timing/Taken.antt =====
-- Content generations, and `Taken` of src/timing.rs: what a tree's updates wait on the screen for.
-- A surface is what its data map and cached state hold; a tree is the list of its surfaces in the
-- order in which the compositor library visits them. Barriers and callbacks are numbers.
use ihs_wl_server.Prelude.{ℕ, suc, ◌+◌, List, [], ◌∷◌, ◌++◌, map, Option, none, some}

-- What the server tells a client's objects. `presented` carries what it passes of the report; the
-- flags become the protocol's kind bits outside.
pub data Refresh : Type 0 where
  unknown : Refresh
  fixed : ℕ → Refresh

pub data Event : Type 0 where
  signal : ℕ → Event
  discarded : ℕ → Event
  presented : (callback ust_ns : ℕ) → Refresh → (msc flags : ℕ) → Event

pub record Feedback : Type 0 where
  pub layer_id : ℕ
  pub generation : ℕ
  pub callback : ℕ

pub record Taken : Type 0 where
  pub feedback : List Feedback
  pub barriers : List ℕ

pub record Surface : Type 0 where
  pub layer_id : Option ℕ
  pub generation : Option ℕ
  pub callbacks : List ℕ
  pub barrier : Option ℕ

-- `tree::layer_id`: the surface's id, handed out now from the counter if it has none.
unfoldable pub layer_id : ℕ → Surface → ℕ × ℕ × Surface
layer_id next s = elim s.layer_id [
  | none ↦ (next, suc next, record s { layer_id = some next })
  | some id ↦ (id, next, s)
]

unfoldable pub generation : Surface → ℕ
generation s = elim s.generation [ none ↦ 0 | some g ↦ g ]

unfoldable pub bump_generation : Surface → Surface
unfolding generation
bump_generation s = record s { generation = some (generation s + 1) }

abbrev pub to_list {ℓ} : {A : Type ℓ} → Option A → List A
to_list none = []
to_list (some a) = a ∷ []

-- One surface's callbacks, keyed by its layer id and generation.
take_feedback : ℕ → Surface → List ℕ → ℕ × Surface × List Feedback
unfolding layer_id generation
take_feedback next s [] = (next, record s { callbacks = [] }, [])
take_feedback next s (cb ∷ cbs) =
    let (id, next', s') = layer_id next s in
    (
      next',
      record s' { callbacks = [] },
      map (λ c. record { layer_id = id; generation = generation s; callback = c }) (cb ∷ cbs),
    )

unfoldable pub take_surface : ℕ → Surface → ℕ × Surface × Taken
unfolding take_feedback
take_surface next s =
    let (next', s', feedback) = take_feedback next s s.callbacks in
    (
      next',
      record s' { barrier = none },
      record { feedback = feedback; barriers = to_list s.barrier },
    )

-- The surfaces of the trees at the roots, one after the other.
unfoldable pub from_trees : ℕ → List Surface → ℕ × List Surface × Taken
unfolding take_surface
from_trees next [] = (next, [], record { feedback = []; barriers = [] })
from_trees next (s ∷ ss) =
    let (next', s', taken) = take_surface next s in
    let (next'', ss', rest) = from_trees next' ss in
    (
      next'',
      s' ∷ ss',
      record {
        feedback = taken.feedback ++ rest.feedback;
        barriers = taken.barriers ++ rest.barriers;
      },
    )

-- Nothing of it will be shown: the feedback is discarded, the barriers are handed back.
unfoldable pub not_shown : Taken → List ℕ × List Event
not_shown t = (t.barriers, map (λ (f : Feedback). discarded f.callback) t.feedback)
