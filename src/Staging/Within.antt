-- ===== src/Staging/Within.antt =====
-- The copy of src/staging.rs stays inside the memory that it was given.
use mathlib.Core.Path.{fun_ext}
use ihs_wl_server.Prelude.{
  ℕ, zero, suc, ◌+◌, ◌-◌, ◌*◌, ◌≤◌, ◌<◌, ◌≡◌, refl, ap, ◌∙◌, Bool, true, false, ◌&&◌, List, [], ◌∷◌,
  some, leb, if◌then◌else◌, arith, Bool-cases, inl, inr,
}
use ihs_wl_server.Staging.Copy.{
  Memory, Rect, bpp, copy_slice, Buffer, copy_rows, low, high, copy_rect, copy_rects, copy_damage,
}

-- The same buffer in a pool that has other bytes, or none, behind its end.
module _ (b : Buffer) (other : ℕ → ℕ) (agree : (a : ℕ) → a < b.pool.len → b.pool.byte a ≡ other a)
    (ds : ℕ) where
  elsewhere : Buffer
  elsewhere = record b { pool = record b.pool { byte = other } }

  copy_slice-elsewhere :
      (s d bytes : ℕ) (dst : Memory)
      → s + bytes ≤ b.pool.len
      → copy_slice b.pool s dst d bytes ≡ copy_slice elsewhere.pool s dst d bytes
  unfolding elsewhere
  copy_slice-elsewhere s d bytes dst inside =
      ap (λ f. record dst { byte = f }) (fun_ext λ a. ground (arith, inside, agree (s + (a - d))))

  copy_rows-elsewhere :
      (x0 bytes left row : ℕ) (dst : Memory)
      → copy_rows b ds x0 bytes left row dst ≡ copy_rows elsewhere ds x0 bytes left row dst
  unfolding copy_rows elsewhere
  copy_rows-elsewhere x0 bytes zero row dst = refl
  copy_rows-elsewhere x0 bytes (suc left) row dst =
      let s = b.offset + row * b.stride + x0 * bpp in
      let d = row * ds + x0 * bpp in
      elim (Bool-cases (leb (s + bytes) b.pool.len && leb (d + bytes) dst.len)) [
        | inr e ↦ ground (arith, e)
        | inl e ↦
            let step =
              copy_rows-elsewhere x0 bytes left (row + 1) (copy_slice b.pool s dst d bytes)
              ∙ ap (copy_rows elsewhere ds x0 bytes left (row + 1))
                  (copy_slice-elsewhere s d bytes dst (ground (arith, e))) in
            ground (arith, e, step)
      ]

  module _ (w h : ℕ) where
    copy_rect-elsewhere :
        (rect : Rect) (dst : Memory)
        → copy_rect b ds w h rect dst ≡ copy_rect elsewhere ds w h rect dst
    unfolding copy_rect
    copy_rect-elsewhere rect dst =
        let x0 = low rect.x w in
        let y0 = low rect.y h in
        let x1 = high rect.x rect.w w in
        let y1 = high rect.y rect.h h in
        ap (λ (copied : Memory × Bool). if leb x1 x0 then (dst, true) else copied)
          (copy_rows-elsewhere x0 ((x1 - x0) * bpp) (y1 - y0) y0 dst)

    copy_rects-elsewhere :
        (rects : List Rect) (dst : Memory)
        → copy_rects b ds w h rects dst ≡ copy_rects elsewhere ds w h rects dst
    unfolding copy_rects
    copy_rects-elsewhere [] dst = refl
    copy_rects-elsewhere (rect ∷ rects) dst =
        let rest = copy_rects-elsewhere rects (copy_rect b ds w h rect dst).0 in
        ap
          (λ (m : Memory).
            if (copy_rect b ds w h rect dst).1 then m else (copy_rect b ds w h rect dst).0)
          rest
        ∙ ap
            (λ (copied : Memory × Bool).
              if copied.1 then copy_rects elsewhere ds w h rects copied.0 else copied.0)
            (copy_rect-elsewhere rect dst)

-- `after` has the bytes of `before` from where that ends on.
abbrev Outside : (before after : Memory) → Type 0
Outside before after =
    (after.len ≡ before.len) × ((a : ℕ) → before.len ≤ a → after.byte a ≡ before.byte a)

Outside-trans : (m n o : Memory) → Outside m n → Outside n o → Outside m o
Outside-trans m n o first second = (
  second.0 ∙ first.0,
  λ a behind. second.1 a (ground (arith, first.0, behind)) ∙ first.1 a behind,
)

Outside-if :
    (t : Bool) (m n o : Memory) → Outside m n → Outside m o → Outside m (if t then n else o)
Outside-if true m n o left right = left
Outside-if false m n o left right = right

copy_slice-Outside :
    (src : Memory) (s : ℕ) (dst : Memory) (d bytes : ℕ)
    → d + bytes ≤ dst.len
    → Outside dst (copy_slice src s dst d bytes)
copy_slice-Outside src s dst d bytes inside = (refl, λ a behind. ground (arith, inside, behind))

module _ (b : Buffer) (ds : ℕ) where
  copy_rows-Outside :
      (x0 bytes left row : ℕ) (dst : Memory) → Outside dst (copy_rows b ds x0 bytes left row dst).0
  unfolding copy_rows
  copy_rows-Outside x0 bytes zero row dst = (refl, λ a behind. refl)
  copy_rows-Outside x0 bytes (suc left) row dst =
      let s = b.offset + row * b.stride + x0 * bpp in
      let d = row * ds + x0 * bpp in
      let sliced = copy_slice b.pool s dst d bytes in
      elim (Bool-cases (leb (s + bytes) b.pool.len && leb (d + bytes) dst.len)) [
        | inr e ↦ rw e (refl, λ a behind. refl)
        | inl e ↦ rw e (
            Outside-trans dst sliced (copy_rows b ds x0 bytes left (row + 1) sliced).0
              (copy_slice-Outside b.pool s dst d bytes (ground (arith, e)))
              (copy_rows-Outside x0 bytes left (row + 1) sliced))
      ]

  module _ (w h : ℕ) where
    copy_rect-Outside : (rect : Rect) (dst : Memory) → Outside dst (copy_rect b ds w h rect dst).0
    unfolding copy_rect
    copy_rect-Outside rect dst = elim (Bool-cases (leb (high rect.x rect.w w) (low rect.x w))) [
      | inl e ↦ rw e (refl, λ a behind. refl)
      | inr e ↦ rw e (
          copy_rows-Outside (low rect.x w) ((high rect.x rect.w w - low rect.x w) * bpp)
            (high rect.y rect.h h - low rect.y h) (low rect.y h) dst)
    ]

    copy_rects-Outside :
        (rects : List Rect) (dst : Memory) → Outside dst (copy_rects b ds w h rects dst)
    unfolding copy_rects
    copy_rects-Outside [] dst = (refl, λ a behind. refl)
    copy_rects-Outside (rect ∷ rects) dst =
        let copied = copy_rect b ds w h rect dst in
        let first = copy_rect-Outside rect dst in
        Outside-if copied.1 dst (copy_rects b ds w h rects copied.0) copied.0
          (Outside-trans dst copied.0 (copy_rects b ds w h rects copied.0) first
            (copy_rects-Outside rects copied.0))
          first

-- Whatever the rectangles, the strides and the sizes claim: a copy of the same buffer in a pool with other
-- bytes behind its end is the same, so none of those is read; and the slot keeps its length and all that
-- lies behind its end, so nothing is written there.
pub copy_damage_within :
    (b : Buffer) (other : ℕ → ℕ) (ds w h : ℕ) (damage : List Rect) (dst : Memory)
    → ((a : ℕ) → a < b.pool.len → b.pool.byte a ≡ other a)
    → (copy_damage w h damage (some b) ds (some dst)
        ≡ copy_damage w h damage
            (some (record b { pool = record b.pool { byte = other } }))
            ds
            (some dst))
      × ((m : Memory) × (copy_damage w h damage (some b) ds (some dst) ≡ some m)
          × (m.len ≡ dst.len)
          × ((a : ℕ) → dst.len ≤ a → m.byte a ≡ dst.byte a))
unfolding copy_damage elsewhere
copy_damage_within b other ds w h damage dst agree =
    let outside = copy_rects-Outside b ds w h damage dst in
    (
      ap some (copy_rects-elsewhere b other agree ds w h damage dst),
      (copy_rects b ds w h damage dst, refl, outside.0, outside.1),
    )
