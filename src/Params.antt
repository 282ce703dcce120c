-- ===== src/Params.antt =====
-- src/params.rs: the view's creation parameters, in Flutter's standard message codec. Bytes are
-- numbers below 256, a string is its bytes, an i64 is its two's complement word, and an f64 its bits.
pub mod Codec
pub mod Values
pub mod Roundtrip
use ihs_wl_server.Prelude.{
  ◌<◌, ◌≢◌, ◌≡◌, arith, ℕ, zero, suc, ◌+◌, ◌-◌, ◌*◌, ◌/◌, ◌%◌, Bool, true, false, not, ◌&&◌, ◌||◌,
  List, [], ◌∷◌, ◌++◌, Option, none, some, ◌==◌, ltb, leb, if◌then◌else◌,
}
use ihs_wl_server.Params.Codec.{Value, null, bool, int, double, string, decode_map, get}

-- A positive number as the map gives it: an f64's bits, or an integer to be converted.
pub data Number : Type 0 where
  of_bits : ℕ → Number
  of_int : ℕ → Number

pub record ViewParams : Type 0 where
  pub token : Option (List ℕ)
  pub app_id : Option (List ℕ)
  pub sandbox_app_id : Option (List ℕ)
  pub dpr : Option Number
  pub requested : Option (ℕ × ℕ)
  pub capabilities : ℕ
  pub window_state : ℕ

-- The keys, in ASCII.
abbrev pub key_token : List ℕ
key_token = 116 ∷ 111 ∷ 107 ∷ 101 ∷ 110 ∷ []

abbrev pub key_app_id : List ℕ
key_app_id = 97 ∷ 112 ∷ 112 ∷ 95 ∷ 105 ∷ 100 ∷ []

abbrev pub key_sandbox_app_id : List ℕ
key_sandbox_app_id =
    115 ∷ 97 ∷ 110 ∷ 100 ∷ 98 ∷ 111 ∷ 120 ∷ 95 ∷ 97 ∷ 112 ∷ 112 ∷ 95 ∷ 105 ∷ 100 ∷ []

abbrev pub key_dpr : List ℕ
key_dpr = 100 ∷ 112 ∷ 114 ∷ []

abbrev pub key_requested_width : List ℕ
key_requested_width =
    114 ∷ 101 ∷ 113 ∷ 117 ∷ 101 ∷ 115 ∷ 116 ∷ 101 ∷ 100 ∷ 95 ∷ 119 ∷ 105 ∷ 100 ∷ 116 ∷ 104 ∷ []

abbrev pub key_requested_height : List ℕ
key_requested_height =
    114 ∷ 101 ∷ 113 ∷ 117 ∷ 101 ∷ 115 ∷ 116 ∷ 101 ∷ 100 ∷ 95 ∷ 104 ∷ 101 ∷ 105 ∷ 103 ∷ 104 ∷ 116
    ∷ []

abbrev pub key_capabilities : List ℕ
key_capabilities = 99 ∷ 97 ∷ 112 ∷ 97 ∷ 98 ∷ 105 ∷ 108 ∷ 105 ∷ 116 ∷ 105 ∷ 101 ∷ 115 ∷ []

abbrev pub key_window_state : List ℕ
key_window_state = 119 ∷ 105 ∷ 110 ∷ 100 ∷ 111 ∷ 119 ∷ 95 ∷ 115 ∷ 116 ∷ 97 ∷ 116 ∷ 101 ∷ []

-- A string that is not empty.
unfoldable pub as_string : Option Value → Option (List ℕ)
as_string (some (string (b ∷ bs))) = some (b ∷ bs)
as_string _ = none

-- The bits of the infinity, and the least word that is a negative i64.
abbrev pub infinity_bits : ℕ
infinity_bits = 9218868437227405312

abbrev pub i64_sign : ℕ
i64_sign = 9223372036854775808

-- `is_finite() && d > 0.0`, and `i > 0`.
unfoldable pub as_positive : Option Value → Option Number
as_positive (some (double d)) = if ltb 0 d && ltb d infinity_bits then some (of_bits d) else none
as_positive (some (int i)) = if ltb 0 i && ltb i i64_sign then some (of_int i) else none
as_positive _ = none

-- `requested_size`: both sides, or none. `side` rounds to whole pixels, at least 1: f64 is not
-- modelled, so it is given.
unfoldable pub requested_size : (Number → ℕ) → Option Number → Option Number → Option (ℕ × ℕ)
requested_size side (some w) (some h) = some (side w, side h)
requested_size side _ _ = none

-- `(i as u32) & (n - 1)`, for `n` a power of two.
unfoldable pub as_mask : ℕ → Option Value → ℕ
as_mask n (some (int i)) = i % 4294967296 % n
as_mask n _ = 0

abbrev pub or_empty : Option (List (List ℕ × Value)) → List (List ℕ × Value)
or_empty none = []
or_empty (some m) = m

unfoldable pub from_map : (Number → ℕ) → List (List ℕ × Value) → ViewParams
from_map side m = record {
  token = as_string (get key_token m);
  app_id = as_string (get key_app_id m);
  sandbox_app_id = as_string (get key_sandbox_app_id m);
  dpr = as_positive (get key_dpr m);
  requested =
      requested_size side (as_positive (get key_requested_width m))
        (as_positive (get key_requested_height m));
  capabilities = as_mask 8 (get key_capabilities m);
  window_state = as_mask 4 (get key_window_state m);
}

unfoldable pub decode : (Number → ℕ) → List ℕ → ViewParams
decode side bytes = from_map side (or_empty (decode_map bytes))

as_mask-lt : (n : ℕ) (o : Option Value) → 0 < n → as_mask n o < n
unfolding as_mask
as_mask-lt n none h = h
as_mask-lt n (some null) h = h
as_mask-lt n (some (bool b)) h = h
as_mask-lt n (some (int i)) h = grind arith
as_mask-lt n (some (double d)) h = h
as_mask-lt n (some (string s)) h = h

as_string-empty : (o : Option Value) → as_string o ≢ some []
unfolding as_string
as_string-empty none e = cc
as_string-empty (some null) e = cc
as_string-empty (some (bool b)) e = cc
as_string-empty (some (int i)) e = cc
as_string-empty (some (double d)) e = cc
as_string-empty (some (string [])) e = cc
as_string-empty (some (string (b ∷ bs))) e = cc

-- Whatever the bytes, the decoded bits are ones that there are, and no token or app id is empty.
decode_bounds :
    (side : Number → ℕ) (bytes : List ℕ)
    → let p = decode side bytes in
      (p.capabilities < 8)
      × (p.window_state < 4)
      × (p.token ≢ some [])
      × (p.app_id ≢ some [])
      × (p.sandbox_app_id ≢ some [])
unfolding decode from_map
decode_bounds side bytes =
    let m = or_empty (decode_map bytes) in
    (
      as_mask-lt 8 (get key_capabilities m) (omega arith),
      as_mask-lt 4 (get key_window_state m) (omega arith),
      as_string-empty (get key_token m),
      as_string-empty (get key_app_id m),
      as_string-empty (get key_sandbox_app_id m),
    )
