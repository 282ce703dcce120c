-- ===== src/Submit/Holds.antt =====
-- `Holds` of src/submit.rs: the buffers that the shell may still be reading, for one view. A buffer
-- goes back to its client when its last hold is dropped; an operation returns what it drops.
pub mod Bounds
pub mod Kept
use ihs_wl_server.Prelude.{
  ℕ, ◌+◌, ◌%◌, Bool, true, false, not, List, [], ◌∷◌, ◌++◌, map, Option, none, some, ◌==◌, ltb, leb,
  if◌then◌else◌, retain, length, u64_mod,
}

-- `Held` of src/tree.rs: a client's buffer, or a staging slot's hold.
pub data Held : Type 0 where
  client : ℕ → Held
  staged : ℕ → Held

unfoldable pub held_eq : Held → Held → Bool
held_eq (client a) (client b) = a == b
held_eq (client a) (staged b) = false
held_eq (staged a) (client b) = false
held_eq (staged a) (staged b) = a == b

abbrev pub max_unfenced : ℕ
max_unfenced = 64

pub record Fenced : Type 0 where
  pub key : ℕ
  pub buffer : Held
  pub token : ℕ

pub record Holds : Type 0 where
  pub next_key : ℕ
  pub fenced : List Fenced
  pub unfenced : List (ℕ × Held)

abbrev pub no_holds : Holds
no_holds = record { next_key = 0; fenced = []; unfenced = [] }

-- The event loop's answer is the source's token, or none if it takes no source.
unfoldable pub hold_fenced : Holds → Held → Option ℕ → Holds × List Held
hold_fenced h buffer inserted =
    let key = (h.next_key + 1) % u64_mod in
    elim inserted [
      | some token ↦ (
        record h {
          next_key = key;
          fenced =
              record { key = key; buffer = buffer; token = token }
              ∷ retain (λ (f : Fenced). not (f.key == key)) h.fenced;
        },
        [],
      )
      | none ↦ (record h { next_key = key }, buffer ∷ [])
    ]

-- The fence that was inserted under the key signaled.
unfoldable pub fence_signaled : ℕ → Holds → Holds × List Held
fence_signaled key h = (
  record h { fenced = retain (λ (f : Fenced). not (f.key == key)) h.fenced },
  map (λ (f : Fenced). f.buffer) (retain (λ (f : Fenced). f.key == key) h.fenced),
)

abbrev pub drop_first {ℓ} : {A : Type ℓ} → List A → List A
drop_first [] = []
drop_first (x ∷ xs) = xs

-- `if len > MAX_UNFENCED { remove(0) }`.
unfoldable pub trim : List (ℕ × Held) → List (ℕ × Held)
trim us = if ltb max_unfenced (length us) then drop_first us else us

unfoldable pub hold_unfenced : ℕ → Held → Holds → Holds
hold_unfenced seq buffer h = record h {
  unfenced =
      trim (retain (λ (u : ℕ × Held). not (held_eq u.1 buffer)) h.unfenced ++ (seq, buffer) ∷ []);
}

unfoldable pub presented : ℕ → Holds → Holds
presented seq h = record h { unfenced = retain (λ (u : ℕ × Held). leb seq u.0) h.unfenced }

-- Everything goes back; the fences' sources are taken out of the event loop.
unfoldable pub clear : Holds → Holds × List ℕ
clear h = (record h { fenced = []; unfenced = [] }, map (λ (f : Fenced). f.token) h.fenced)
