-- ===== src/Staging/Copy.antt =====
-- src/staging.rs: the copy of what changed into a slot, from a pool that its client may shrink, and the
-- write of a single pixel. Memory is its bytes by their offsets, and how many there are.
use ihs_wl_server.Prelude.{
  ℕ, zero, suc, ◌+◌, ◌-◌, ◌*◌, min, Bool, true, false, ◌&&◌, List, [], ◌∷◌, Option, none, some, leb,
  ltb, if◌then◌else◌,
}
use ihs_wl_server.Prelude.Int.{ℤ, positive_part, ◌+ℤ◌, wrap_i32}

pub record Memory : Type 0 where
  pub byte : ℕ → ℕ
  pub len : ℕ

pub record Rect : Type 0 where
  pub x : ℤ
  pub y : ℤ
  pub w : ℤ
  pub h : ℤ

abbrev pub bpp : ℕ
bpp = 4

-- `to.copy_from_slice(from)`.
abbrev pub copy_slice : Memory → (s : ℕ) → Memory → (d bytes : ℕ) → Memory
copy_slice src s dst d bytes = record dst {
  byte = λ a. if leb d a && ltb a (d + bytes) then src.byte (s + (a - d)) else dst.byte a;
}

-- The client's buffer: its pool, where it starts there, and its stride.
pub record Buffer : Type 0 where
  pub pool : Memory
  pub offset : ℕ
  pub stride : ℕ

module _ (b : Buffer) (dst_stride x0 bytes : ℕ) where
  -- The rows from `row` on, and whether the copy goes on: it stops before it would leave either memory.
  unfoldable pub copy_rows : (left row : ℕ) → Memory → Memory × Bool
  copy_rows zero row dst = (dst, true)
  copy_rows (suc left) row dst =
      let s = b.offset + row * b.stride + x0 * bpp in
      let d = row * dst_stride + x0 * bpp in
      let rest = copy_rows left (row + 1) (copy_slice b.pool s dst d bytes) in
      if leb (s + bytes) b.pool.len && leb (d + bytes) dst.len then rest else (dst, false)

abbrev pub low : ℤ → ℕ → ℕ
low x w = min (positive_part x) w

abbrev pub high : ℤ → ℤ → ℕ → ℕ
high x size w = min (positive_part (wrap_i32 (x +ℤ size))) w

module _ (b : Buffer) (dst_stride w h : ℕ) where
  unfoldable pub copy_rect : Rect → Memory → Memory × Bool
  copy_rect r dst =
      let x0 = low r.x w in
      let y0 = low r.y h in
      let x1 = high r.x r.w w in
      let y1 = high r.y r.h h in
      if leb x1 x0
      then (dst, true)
      else copy_rows b dst_stride x0 ((x1 - x0) * bpp) (y1 - y0) y0 dst

  unfoldable pub copy_rects : List Rect → Memory → Memory
  copy_rects [] dst = dst
  copy_rects (r ∷ rs) dst =
      let copied = copy_rect r dst in
      let rest = copy_rects rs copied.0 in if copied.1 then rest else copied.0

-- The slot's mapping may fail (gbm), and the pool's may be gone.
unfoldable pub copy_damage :
    (w h : ℕ) → List Rect → Option Buffer → (dst_stride : ℕ) → Option Memory → Option Memory
copy_damage w h damage buffer dst_stride none = none
copy_damage w h damage none dst_stride (some dst) = none
copy_damage w h damage (some b) dst_stride (some dst) =
    some (copy_rects b dst_stride w h damage dst)

-- A single pixel, in memory order.
unfoldable pub write_pixel : (pixel : ℕ → ℕ) → Option Memory → Option Memory
write_pixel pixel none = none
write_pixel pixel (some dst) =
    if leb 4 dst.len
    then some (record dst { byte = λ a. if ltb a 4 then pixel a else dst.byte a })
    else none
