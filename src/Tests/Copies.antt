-- ===== src/Tests/Copies.antt =====
-- A run of the copy in src/staging.rs: two damaged rectangles, one of which sticks out.
use ihs_wl_server.Prelude.{
  ℕ, ◌+◌, ◌*◌, ◌<◌, ◌≤◌, ◌≡◌, List, [], ◌∷◌, some, arith, false, ltb, leb, ◌&&◌, ◌-◌, if◌then◌else◌,
}
use ihs_wl_server.Prelude.Int.{pos, negsuc, wrap_i32}
use ihs_wl_server.Staging.Copy.{Memory, Rect, Buffer, copy_damage}
use ihs_wl_server.Staging.Rows.{HasRoom}
use ihs_wl_server.Staging.Copied.{damaged, copy_damage_fills}
use ihs_wl_server.Staging.Within.{copy_damage_within}

-- 2 by 2 pixels, from offset 3, rows of 9 bytes.
abbrev buffer : Buffer
buffer = record { pool = record { byte = λ a. a; len = 21 }; offset = 3; stride = 9 }

-- A slot with rows of 16 bytes: the left column is what the buffer shows, the right one is not.
abbrev slot : Memory
slot = record {
  byte = λ a. if ltb a 4 then 3 + a else if leb 16 a && ltb a 20 then a - 4 else 99;
  len = 32;
}

-- The right column, from above the buffer to below it, and a rectangle to the left of it.
abbrev damage : List Rect
damage =
    record { x = pos 1; y = negsuc 1; w = pos 5; h = pos 9 }
    ∷ record { x = negsuc 3; y = pos 0; w = pos 2; h = pos 3 }
    ∷ []

room : HasRoom buffer 16 2 2 32
room = record {
  wide = omega arith;
  reads = λ row h. omega (arith, h);
  writes = λ row h. omega (arith, h);
}

same :
    (r c : ℕ)
    → r < 2
    → c < 8
    → damaged 2 2 damage r c ≡ false
    → slot.byte (r * 16 + c) ≡ 3 + r * 9 + c
unfolding wrap_i32
same r c in_height in_width clean = ground (arith, in_height, in_width, clean)

copy_damage_fills_example :
    (m : Memory) × (copy_damage 2 2 damage (some buffer) 16 (some slot) ≡ some m)
    × (m.len ≡ 32)
    × ((r c : ℕ) → r < 2 → c < 8 → m.byte (r * 16 + c) ≡ 3 + r * 9 + c)
copy_damage_fills_example = copy_damage_fills buffer 16 2 2 damage slot room same

-- The same pool with zeros behind its end.
zeros : ℕ → ℕ
zeros a = if ltb a 21 then a else 0

copy_damage_within_example :
    (copy_damage 9 9 damage (some buffer) 16 (some slot)
      ≡ copy_damage 9 9 damage
          (some (record buffer { pool = record { byte = zeros; len = 21 } }))
          16
          (some slot))
    × ((m : Memory) × (copy_damage 9 9 damage (some buffer) 16 (some slot) ≡ some m)
        × (m.len ≡ 32)
        × ((a : ℕ) → 32 ≤ a → m.byte a ≡ slot.byte a))
unfolding zeros
copy_damage_within_example =
    copy_damage_within buffer zeros 16 9 9 damage slot (λ a inside. ground (arith, inside))
