-- ===== src/Staging/Rows.antt =====
-- What the copy of a rectangle's rows in src/staging.rs leaves in a slot.
use ihs_wl_server.Prelude.{
  ℕ, zero, suc, ◌+◌, ◌-◌, ◌*◌, ◌≤◌, ◌<◌, ◌≡◌, refl, ap, ◌∙◌, Bool, true, ◌&&◌, leb, ltb, ◌==◌,
  if◌then◌else◌, arith, Bool-cases, inl, inr,
}
use ihs_wl_server.Staging.Copy.{Memory, bpp, copy_slice, Buffer, copy_rows}

row_step : (m n stride : ℕ) → m < n → m * stride + stride ≤ n * stride
row_step m zero stride h = absurd (omega arith)
row_step m (suc n) stride h = elim (Bool-cases (m == n)) [
  | inl e ↦ grind arith
  | inr e ↦
      let before : m * stride + stride ≤ n * stride = row_step m n stride (ground (arith, e)) in
      grind arith
]

-- A byte of row `r` lies in a slice of row `row` only if the rows are the same.
module _ (row r ds c d0 bytes : ℕ) (in_row : c < ds) (fits : d0 + bytes ≤ ds) where
  in_slice :
      (leb (row * ds + d0) (r * ds + c) && ltb (r * ds + c) (row * ds + d0 + bytes))
      ≡ (row == r && leb d0 c && ltb c (d0 + bytes))
  in_slice = elim (Bool-cases (row == r)) [
    | inl e ↦
        let same : row * ds ≡ r * ds = ap (λ (k : ℕ). k * ds) (ground (arith, e)) in
        ground (arith, same, e)
    | inr e ↦ elim (Bool-cases (ltb r row)) [
      | inl f ↦ ground (arith, e, f, row_step r row ds (ground (arith, f)), in_row, fits)
      | inr f ↦ ground (arith, e, f, row_step row r ds (ground (arith, e, f)), in_row, fits)
    ]
  ]

-- The client's buffer and the slot have room for what they say: `h` rows of `w` pixels.
pub record HasRoom (b : Buffer) (ds w h len : ℕ) : Type 0 where
  pub wide : w * bpp ≤ ds
  pub reads : (row : ℕ) → row < h → b.offset + row * b.stride + w * bpp ≤ b.pool.len
  pub writes : (row : ℕ) → row < h → row * ds + w * bpp ≤ len

-- What a byte of the slot is once the rectangle was copied.
abbrev pub picked : Buffer → ℕ → Memory → ℕ → ℕ → Bool → ℕ
picked b ds dst r c inside =
    if inside then b.pool.byte (b.offset + r * b.stride + c) else dst.byte (r * ds + c)

module _ (b : Buffer) (ds w h : ℕ) where
  abbrev pub rows_inside : (x0 bytes row left r c : ℕ) → Bool
  rows_inside x0 bytes row left r c =
      leb row r && ltb r (row + left) && (leb (x0 * bpp) c && ltb c (x0 * bpp + bytes))

  -- One slice copied, in the row it is in.
  slice-byte :
      (x0 bytes row r c : ℕ) (dst : Memory)
      → c < ds
      → x0 * bpp + bytes ≤ ds
      → (copy_slice b.pool
            (b.offset + row * b.stride + x0 * bpp)
            dst
            (row * ds + x0 * bpp)
            bytes).byte
          (r * ds + c)
        ≡ picked b ds dst r c (row == r && (leb (x0 * bpp) c && ltb c (x0 * bpp + bytes)))
  slice-byte x0 bytes row r c dst in_row fits =
      let cond = in_slice row r ds c (x0 * bpp) bytes in_row fits in
      elim (Bool-cases (row == r && (leb (x0 * bpp) c && ltb c (x0 * bpp + bytes)))) [
        | inr e ↦ ground (arith, cond, e)
        | inl e ↦
            let same : row ≡ r = ground (arith, e) in
            let from : b.offset + row * b.stride + x0 * bpp + (r * ds + c - (row * ds + x0 * bpp))
                ≡ b.offset + r * b.stride + c =
              rw same (ground (arith, e)) in
            ground (arith, cond, e, ap b.pool.byte from)
      ]

  pub copy_rows-byte :
      (x0 bytes : ℕ) (left row : ℕ) (dst : Memory)
      → HasRoom b ds w h dst.len
      → x0 * bpp + bytes ≤ w * bpp
      → row + left ≤ h
      → let m = copy_rows b ds x0 bytes left row dst in
        (m.1 ≡ true)
        × (m.0.len ≡ dst.len)
        × ((r c : ℕ)
            → c < ds
            → m.0.byte (r * ds + c) ≡ picked b ds dst r c (rows_inside x0 bytes row left r c))
  unfolding copy_rows
  copy_rows-byte x0 bytes zero row dst room fits inside = (refl, refl, λ r c in_row. ground arith)
  copy_rows-byte x0 bytes (suc left) row dst room fits inside =
      let s = b.offset + row * b.stride + x0 * bpp in
      let d = row * ds + x0 * bpp in
      let dst' = copy_slice b.pool s dst d bytes in
      let reads = room.reads row (omega (arith, inside)) in
      let writes = room.writes row (omega (arith, inside)) in
      let rest =
        copy_rows-byte x0 bytes left (row + 1) dst'
          (record { wide = room.wide; reads = room.reads; writes = room.writes }) fits
          (omega (arith, inside)) in
      let go : (leb (s + bytes) b.pool.len && leb (d + bytes) dst.len) ≡ true =
        ground (arith, reads, writes, fits) in
      let eq : copy_rows b ds x0 bytes (suc left) row dst
          ≡ copy_rows b ds x0 bytes left (row + 1) dst' =
        ground (arith, go) in
      (
        ap (λ (m : Memory × Bool). m.1) eq ∙ rest.0,
        ap (λ (m : Memory × Bool). m.0.len) eq ∙ rest.1,
        λ r c in_row.
            ap (λ (m : Memory × Bool). m.0.byte (r * ds + c)) eq
            ∙ rest.2 r c in_row
            ∙ ground
                (arith, slice-byte x0 bytes row r c dst in_row (omega (arith, fits, room.wide))),
      )

pub copy_rows-nil :
    (b : Buffer) (ds x0 bytes row : ℕ) (dst : Memory)
    → copy_rows b ds x0 bytes 0 row dst ≡ (dst, true)
unfolding copy_rows
copy_rows-nil b ds x0 bytes row dst = refl
