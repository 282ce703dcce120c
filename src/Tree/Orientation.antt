-- ===== src/Tree/Orientation.antt =====
-- The buffer transforms of src/tree.rs, and where they send a point of a buffer.
use ihs_wl_server.Prelude.{
  ℕ, zero, suc, ◌-◌, ◌<◌, ◌≡◌, refl, Bool, true, false, if◌then◌else◌, arith,
}

pub data Transform : Type 0 where
  normal r90 r180 r270 flipped flipped90 flipped180 flipped270 : Transform

unfoldable pub transform_value : Transform → ℕ
transform_value normal = 0
transform_value r90 = 1
transform_value r180 = 2
transform_value r270 = 3
transform_value flipped = 4
transform_value flipped90 = 5
transform_value flipped180 = 6
transform_value flipped270 = 7

unfoldable pub after_y_flip : Transform → Transform
after_y_flip normal = flipped180
after_y_flip r90 = flipped270
after_y_flip r180 = flipped
after_y_flip r270 = flipped90
after_y_flip flipped = r180
after_y_flip flipped90 = r270
after_y_flip flipped180 = normal
after_y_flip flipped270 = r90

-- The test module's `apply`, which follows wl_output.transform: mirror first, then quarter turns
-- counter-clockwise, each of which swaps the sides of the buffer.
abbrev pub is_flipped : Transform → Bool
is_flipped flipped = true
is_flipped flipped90 = true
is_flipped flipped180 = true
is_flipped flipped270 = true
is_flipped _ = false

abbrev pub turns : Transform → ℕ
turns normal = 0
turns flipped = 0
turns r90 = 1
turns flipped90 = 1
turns r180 = 2
turns flipped180 = 2
turns r270 = 3
turns flipped270 = 3

unfoldable pub turn : ℕ → ℕ × ℕ → ℕ × ℕ → ℕ × ℕ
turn zero p size = p
turn (suc n) (x, y) (w, h) = turn n (y, w - 1 - x) (h, w)

unfoldable pub apply : Transform → ℕ × ℕ → ℕ × ℕ → ℕ × ℕ
unfolding turn
apply t (x, y) (w, h) = turn (turns t) (if is_flipped t then w - 1 - x else x, y) (w, h)

-- A buffer stored upside down, shown through the composed transform, looks as the upright one does
-- through the plain transform, for every transform, size and point.
pub apply-after_y_flip :
    (t : Transform) (x y w h : ℕ)
    → x < w
    → y < h
    → apply (after_y_flip t) (x, y) (w, h) ≡ apply t (x, h - 1 - y) (w, h)
unfolding apply after_y_flip
apply-after_y_flip normal x y w h p q = ground arith
apply-after_y_flip _ x y w h p q = ground arith

-- Flipping twice is no flip, and the protocol numbers tell the transforms apart.
pub after_y_flip-after_y_flip : (t : Transform) → after_y_flip (after_y_flip t) ≡ t
unfolding after_y_flip
after_y_flip-after_y_flip normal = refl
after_y_flip-after_y_flip _ = refl
