-- ===== src/Staging/Copied.antt =====
-- What the copy of src/staging.rs leaves in a slot.
use mathlib.Core.Path.{subst}
use ihs_wl_server.Prelude.{
  ℕ, ◌+◌, ◌-◌, ◌*◌, ◌≤◌, ◌<◌, ◌≡◌, refl, sym, ap, ◌∙◌, min, Bool, true, false, ◌&&◌, ◌||◌, List, [],
  ◌∷◌, some, leb, ltb, arith, Bool-cases, inl, inr,
}
use ihs_wl_server.Prelude.Int.{ℤ, positive_part, ◌+ℤ◌, wrap_i32}
use ihs_wl_server.Staging.Copy.{
  Memory, Rect, bpp, Buffer, copy_rows, low, high, copy_rect, copy_rects, copy_damage,
}
use ihs_wl_server.Staging.Rows.{HasRoom, picked, rows_inside, copy_rows-byte, copy_rows-nil}

-- A rectangle by its corners: no column, no row, or the rows that are copied.
module _ (x0 x1 y0 y1 r c : ℕ) where
  abbrev between : Bool
  between = leb y0 r && ltb r y1 && (leb (x0 * bpp) c && ltb c (x1 * bpp))

  no_column : leb x1 x0 ≡ true → between ≡ false
  no_column e = ground (arith, e)

  no_row : leb y0 y1 ≡ false → between ≡ false
  no_row e = ground (arith, e)

  some_rows :
      leb x1 x0 ≡ false
      → leb y0 y1 ≡ true
      → (leb y0 r
          && ltb r (y0 + (y1 - y0))
          && (leb (x0 * bpp) c && ltb c (x0 * bpp + (x1 - x0) * bpp)))
        ≡ between
  some_rows e f = ground (arith, e, f)

column_room : (x0 x1 w : ℕ) → leb x1 x0 ≡ false → x1 ≤ w → x0 * bpp + (x1 - x0) * bpp ≤ w * bpp
column_room x0 x1 w e h = ground (arith, e)

row_room : (y0 y1 h : ℕ) → leb y0 y1 ≡ true → y1 ≤ h → y0 + (y1 - y0) ≤ h
row_room y0 y1 h e le = ground (arith, e)

leb-false : (m n : ℕ) → leb m n ≡ false → n < m
leb-false m n e = ground (arith, e)

high-le : (x size : ℤ) (w : ℕ) → high x size w ≤ w
high-le x size w = min_le_right (positive_part (wrap_i32 (x +ℤ size))) w
  where
    min_le_right : (m n : ℕ) → min m n ≤ n
    min_le_right m n = ground arith

-- Whether a byte of a row is in the rectangle, as far as that is in the buffer.
abbrev pub covers : (w h : ℕ) → Rect → (r c : ℕ) → Bool
covers w h rect r c =
    leb (low rect.y h) r
    && ltb r (high rect.y rect.h h)
    && (leb (low rect.x w * bpp) c && ltb c (high rect.x rect.w w * bpp))

abbrev pub damaged : (w h : ℕ) → List Rect → (r c : ℕ) → Bool
damaged w h [] r c = false
damaged w h (rect ∷ rects) r c = covers w h rect r c || damaged w h rects r c

module _ (b : Buffer) (ds w h : ℕ) where
  -- The byte, given which bytes are copied.
  abbrev Copies : Memory → (ℕ → ℕ → Bool) → Memory × Bool → Type 0
  Copies dst inside m =
      (m.1 ≡ true)
      × (m.0.len ≡ dst.len)
      × ((r c : ℕ) → c < ds → m.0.byte (r * ds + c) ≡ picked b ds dst r c (inside r c))

  unchanged :
      (dst : Memory) (inside : ℕ → ℕ → Bool)
      → ((r c : ℕ) → inside r c ≡ false)
      → Copies dst inside (dst, true)
  unchanged dst inside out = (refl, refl, λ r c in_row. ground (arith, out r c))

  recast :
      (dst : Memory) (inside other : ℕ → ℕ → Bool) (m : Memory × Bool)
      → ((r c : ℕ) → inside r c ≡ other r c)
      → Copies dst inside m
      → Copies dst other m
  recast dst inside other m same p =
      (p.0, p.1, λ r c in_row. p.2 r c in_row ∙ ap (picked b ds dst r c) (same r c))

  copy_rect-byte :
      (rect : Rect) (dst : Memory)
      → HasRoom b ds w h dst.len
      → Copies dst (covers w h rect) (copy_rect b ds w h rect dst)
  unfolding copy_rect
  copy_rect-byte rect dst room =
      let x0 = low rect.x w in
      let x1 = high rect.x rect.w w in
      let y0 = low rect.y h in
      let y1 = high rect.y rect.h h in
      let bytes = (x1 - x0) * bpp in
      elim (Bool-cases (leb x1 x0)) [
        | inl e ↦ rw e (unchanged dst (covers w h rect) (λ r c. no_column x0 x1 y0 y1 r c e))
        | inr e ↦ rw e (elim (Bool-cases (leb y0 y1)) [
          | inl f ↦
              recast dst (rows_inside b ds w h x0 bytes y0 (y1 - y0)) (covers w h rect)
                (copy_rows b ds x0 bytes (y1 - y0) y0 dst) (λ r c. some_rows x0 x1 y0 y1 r c e f)
                (copy_rows-byte b ds w h x0 bytes (y1 - y0) y0 dst room
                  (column_room x0 x1 w e (high-le rect.x rect.w w))
                  (row_room y0 y1 h f (high-le rect.y rect.h h)))
          | inr f ↦
              let none_left : y1 - y0 ≡ 0 = omega (arith, leb-false y0 y1 f) in
              subst (Copies dst (covers w h rect))
                (sym (
                  ap (λ n. copy_rows b ds x0 bytes n y0 dst) none_left
                  ∙ copy_rows-nil b ds x0 bytes y0 dst))
                (unchanged dst (covers w h rect) (λ r c. no_row x0 x1 y0 y1 r c f))
        ])
      ]

  copy_rects-byte :
      (rects : List Rect) (dst : Memory)
      → HasRoom b ds w h dst.len
      → let m = copy_rects b ds w h rects dst in
        (m.len ≡ dst.len)
        × ((r c : ℕ) → c < ds → m.byte (r * ds + c) ≡ picked b ds dst r c (damaged w h rects r c))
  unfolding copy_rects
  copy_rects-byte [] dst room = (refl, λ r c in_row. refl)
  copy_rects-byte (rect ∷ rects) dst room =
      let one = copy_rect-byte rect dst room in
      let dst' = (copy_rect b ds w h rect dst).0 in
      let rest = copy_rects-byte rects dst' (subst (HasRoom b ds w h) (sym one.1) room) in
      let eq : copy_rects b ds w h (rect ∷ rects) dst ≡ copy_rects b ds w h rects dst' =
        ground (arith, one.0) in
      (
        ap (λ (m : Memory). m.len) eq ∙ rest.0 ∙ one.1,
        λ r c in_row.
            ap (λ (m : Memory). m.byte (r * ds + c)) eq
            ∙ rest.1 r c in_row
            ∙ ground (arith, one.2 r c in_row),
      )

-- The slot held what the buffer shows, but for the damage since; buffer and slot have the room that they
-- say. Then the copy succeeds, and the slot holds what the buffer shows, to the byte.
pub copy_damage_fills :
    (b : Buffer) (ds w h : ℕ) (damage : List Rect) (dst : Memory)
    → HasRoom b ds w h dst.len
    → ((r c : ℕ)
        → r < h
        → c < w * bpp
        → damaged w h damage r c ≡ false
        → dst.byte (r * ds + c) ≡ b.pool.byte (b.offset + r * b.stride + c))
    → (m : Memory) × (copy_damage w h damage (some b) ds (some dst) ≡ some m)
      × (m.len ≡ dst.len)
      × ((r c : ℕ)
          → r < h
          → c < w * bpp
          → m.byte (r * ds + c) ≡ b.pool.byte (b.offset + r * b.stride + c))
unfolding copy_damage
copy_damage_fills b ds w h damage dst room same =
    let (len, bytes) = copy_rects-byte b ds w h damage dst room in
    (
      copy_rects b ds w h damage dst,
      refl,
      len,
      λ r c in_height in_width.
          bytes r c (omega (arith, in_width, room.wide))
          ∙ ground (arith, same r c in_height in_width),
    )
