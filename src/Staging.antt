-- ===== src/Staging.antt =====
-- src/staging.rs: the ring of dma-bufs that a shared-memory surface is copied into. Outside a slot's
-- memory the model keeps its uid, the commit whose content it holds, and how many clones of its hold
-- live besides the ring's own. Sizes and formats are numbers; what the allocator and the copy answer
-- is given.
pub mod Copy
pub mod Rows
pub mod Copied
pub mod Within
pub mod Bounds
pub mod Busy
pub mod Content
use ihs_wl_server.Prelude.{
  ◌-◌, ℕ, suc, ◌+◌, Bool, true, false, not, ◌&&◌, ◌||◌, List, [], ◌∷◌, ◌++◌, map, Option, none,
  some, ◌==◌, ltb, if◌then◌else◌, length, get_elem?, set,
}

abbrev pub max_slots : ℕ
max_slots = 4

pub record Slot : Type 0 where
  pub uid : ℕ
  pub commit : Option ℕ
  pub clones : ℕ

pub record Ring : Type 0 where
  pub width : ℕ
  pub height : ℕ
  pub fourcc : Option ℕ
  pub slots : List Slot
  pub newest : Option ℕ

abbrev pub empty : Ring
empty = record { width = 0; height = 0; fourcc = none; slots = []; newest = none }

-- What `stage` is called with: the client buffer's size and format, the surface's current commit,
-- whether a slot can be allocated, and whether the copy into the slot succeeds.
pub record Request : Type 0 where
  pub width : ℕ
  pub height : ℕ
  pub fourcc : ℕ
  pub commit : ℕ
  pub allocates : Bool
  pub copies : Bool

-- The slot to show, by its uid and index; and whether it was written now.
pub record Staged : Type 0 where
  pub index : ℕ
  pub uid : ℕ
  pub written : Bool

-- The stager's uid counter, the ring, the uids retired, and the slot to show.
pub record Outcome : Type 0 where
  pub next_uid : ℕ
  pub ring : Ring
  pub retired : List ℕ
  pub staged : Option Staged

abbrev pub option_eq : Option ℕ → ℕ → Bool
option_eq none n = false
option_eq (some m) n = m == n

-- Another size or format: the slots are dropped and the ring starts over.
unfoldable pub refit : Request → Ring → Ring × List ℕ
refit q r =
    if not (r.width == q.width) || not (r.height == q.height) || not (option_eq r.fourcc q.fourcc)
    then (
      record {
        width = q.width;
        height = q.height;
        fourcc = some q.fourcc;
        slots = [];
        newest = none;
      },
      map (λ (s : Slot). s.uid) r.slots,
    )
    else (r, [])

-- The index of the first slot that only the ring holds.
unfoldable pub free_slot : List Slot → Option ℕ
free_slot [] = none
free_slot (s ∷ ss) = elim (free_slot ss) [
  | none ↦ if s.clones == 0 then some 0 else none
  | some i ↦ if s.clones == 0 then some 0 else some (suc i)
]

-- The slot is shown: its hold is cloned.
abbrev pub shown : Slot → Slot
shown s = record s { clones = s.clones + 1 }

-- Show the slot again, unchanged.
unfoldable pub show_again : ℕ → Ring → List ℕ → ℕ → Slot → Outcome
show_again next r retired i s = record {
  next_uid = next;
  ring = record r { slots = set r.slots i (shown s) };
  retired = retired;
  staged = some (record { index = i; uid = s.uid; written = false });
}

abbrev pub nothing : ℕ → Ring → List ℕ → Outcome
nothing next r retired = record { next_uid = next; ring = r; retired = retired; staged = none }

-- Copy into the slot at the index; a failed copy ends the call, with the slot kept.
unfoldable pub write_slot : Request → ℕ → Ring → List ℕ → ℕ → Slot → Outcome
write_slot q next r retired i s =
    if q.copies
    then record {
      next_uid = next;
      ring = record r {
        slots = set r.slots i (shown (record s { commit = some q.commit }));
        newest = some i;
      };
      retired = retired;
      staged = some (record { index = i; uid = s.uid; written = true });
    }
    else nothing next r retired

abbrev pub slot_of : Ring → Option ℕ → Option (ℕ × Slot)
slot_of r none = none
slot_of r (some i) = elim (get_elem? r.slots i) [ none ↦ none | some s ↦ some (i, s) ]

abbrev pub fresh : ℕ → Slot
fresh uid = record { uid = uid; commit = none; clones = 0 }

-- A slot allocated for the copy. A failed allocation uses up the uid.
unfoldable pub add_slot : Request → ℕ → Ring → List ℕ → Outcome
unfolding write_slot
add_slot q next r retired =
    let s : Slot = fresh (next + 1) in
    let grown : Ring = record r { slots = r.slots ++ s ∷ [] } in
    if q.allocates
    then write_slot q (next + 1) grown retired (length r.slots) s
    else nothing (next + 1) r retired

-- The newest slot again, or nothing if none was ever filled.
unfoldable pub show_newest : ℕ → Ring → List ℕ → Outcome
unfolding show_again
show_newest next r retired = elim (slot_of r r.newest) [
  | none ↦ nothing next r retired
  | some (i, s) ↦ show_again next r retired i s
]

-- With no slot free: another, up to the limit; else the newest again.
unfoldable pub grow : Request → ℕ → Ring → List ℕ → Outcome
grow q next r retired =
    if ltb (length r.slots) max_slots then add_slot q next r retired else show_newest next r retired

abbrev pub is_current : Request → Option (ℕ × Slot) → Bool
is_current q none = false
is_current q (some (i, s)) = option_eq s.commit q.commit

-- A copy into the first free slot, or into one more.
unfoldable pub refill : Request → ℕ → Ring → List ℕ → Outcome
refill q next r retired = elim (slot_of r (free_slot r.slots)) [
  | some (i, s) ↦ write_slot q next r retired i s
  | none ↦ grow q next r retired
]

-- The part of `stage` after the ring fits the buffer: a commit that the newest slot already holds is
-- shown with no copy.
unfoldable pub fill : Request → ℕ → Ring → List ℕ → Outcome
fill q next r retired =
    if is_current q (slot_of r r.newest)
    then show_newest next r retired
    else refill q next r retired

unfoldable pub stage : Request → ℕ → Ring → Outcome
stage q next r = let (r', retired) = refit q r in fill q next r' retired

unfoldable pub drop_ring : Ring → Ring × List ℕ
drop_ring r = (empty, map (λ (s : Slot). s.uid) r.slots)

-- The shell, or the view's holds, drop a clone of the slot's hold.
unfoldable pub drop_clone : ℕ → List Slot → List Slot
drop_clone uid [] = []
drop_clone uid (s ∷ ss) =
    (if s.uid == uid then record s { clones = s.clones - 1 } else s) ∷ drop_clone uid ss
