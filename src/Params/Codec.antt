-- ===== src/Params/Codec.antt =====
-- The codec's reader in src/params.rs.
use ihs_wl_server.Prelude.{
  ℕ, zero, suc, ◌+◌, ◌-◌, ◌*◌, ◌%◌, Bool, true, false, ◌&&◌, List, [], ◌∷◌, Option, none, some,
  ◌==◌, ltb, leb, if◌then◌else◌, length, take, drop,
}

pub data Value : Type 0 where
  null : Value
  bool : Bool → Value
  int : ℕ → Value
  double : ℕ → Value
  string : List ℕ → Value

pub record Reader : Type 0 where
  pub rest : List ℕ
  pub pos : ℕ

abbrev pub and_then {ℓ κ} : {A : Type ℓ} {B : Type κ} → Option A → (A → Option B) → Option B
and_then none f = none
and_then (some a) f = f a

unfoldable pub take_bytes : ℕ → Reader → Option (List ℕ × Reader)
take_bytes n r =
    if leb n (length r.rest)
    then some (take n r.rest, record { rest = drop n r.rest; pos = r.pos + n })
    else none

unfoldable pub u8 : Reader → Option (ℕ × Reader)
u8 r = elim r.rest [ [] ↦ none | b ∷ bs ↦ some (b, record { rest = bs; pos = r.pos + 1 }) ]

abbrev pub from_le : List ℕ → ℕ
from_le [] = 0
from_le (b ∷ bs) = b + 256 * from_le bs

-- `from_le_bytes` of the next `n`.
unfoldable pub word : ℕ → Reader → Option (ℕ × Reader)
word n r = and_then (take_bytes n r) λ (bs, r'). some (from_le bs, r')

-- The codec's variable-length size.
unfoldable pub size : Reader → Option (ℕ × Reader)
size r =
    and_then (u8 r)
      λ (b, r'). if leb b 253 then some (b, r') else (if b == 254 then word 2 r' else word 4 r')

unfoldable pub align : ℕ → Reader → Option Reader
align to r = and_then (take_bytes ((to - r.pos % to) % to) r) λ (bs, r'). some r'

-- A first byte of a character: how many follow, and the range of the next.
abbrev pub utf8_class : ℕ → Option (ℕ × ℕ × ℕ)
utf8_class b =
    if leb b 127
    then some (0, 0, 0)
    else if leb 194 b && leb b 223
    then some (1, 128, 191)
    else if b == 224
    then some (2, 160, 191)
    else if b == 237
    then some (2, 128, 159)
    else if leb 225 b && leb b 239
    then some (2, 128, 191)
    else if b == 240
    then some (3, 144, 191)
    else if leb 241 b && leb b 243
    then some (3, 128, 191)
    else if b == 244
    then some (3, 128, 143)
    else none

-- `from_utf8`, with what is still to come of a character.
unfoldable pub is_utf8 : ℕ → ℕ → ℕ → List ℕ → Bool
is_utf8 n low high [] = n == 0
is_utf8 zero low high (b ∷ bs) = elim (utf8_class b) [
  | none ↦ false
  | some (n, l, h) ↦ is_utf8 n l h bs
]
is_utf8 (suc n) low high (b ∷ bs) = leb low b && leb b high && is_utf8 n 128 191 bs

-- `i32 as i64`.
unfoldable pub sign_extend : ℕ → ℕ
sign_extend n = if ltb n 2147483648 then n else n + 18446744069414584320

unfoldable pub text : Reader → Option (Value × Reader)
text r = and_then (size r) λ (n, r').
    and_then (take_bytes n r') λ (bs, r''). if is_utf8 0 0 0 bs then some (string bs, r'') else none

-- By the type tag. Anything else would need its own decoder to be skipped.
unfoldable pub tagged : ℕ → Reader → Option (Value × Reader)
unfolding text
tagged tag r =
    if tag == 0
    then some (null, r)
    else if tag == 1
    then some (bool true, r)
    else if tag == 2
    then some (bool false, r)
    else if tag == 3
    then and_then (word 4 r) (λ (n, r'). some (int (sign_extend n), r'))
    else if tag == 4
    then and_then (word 8 r) (λ (n, r'). some (int n, r'))
    else if tag == 6
    then and_then (align 8 r) (λ r'. and_then (word 8 r') (λ (n, r''). some (double n, r'')))
    else if tag == 7
    then text r
    else none

unfoldable pub value : Reader → Option (Value × Reader)
value r = and_then (u8 r) λ (tag, r'). tagged tag r'

-- A key that is a string, and its value.
abbrev pub as_key : Option (Value × Reader) → Option (List ℕ × Reader)
as_key (some (string k, r)) = some (k, r)
as_key _ = none

unfoldable pub entry : Reader → Option (List ℕ × Value × Reader)
entry r = and_then (as_key (value r)) λ (k, r'). and_then (value r') λ (v, r''). some (k, v, r'')

-- The newest entry first, as it wins. The loop ends at the first entry that cannot be decoded.
unfoldable pub entries : ℕ → Reader → List (List ℕ × Value) → List (List ℕ × Value)
entries zero r out = out
entries (suc n) r out = elim (entry r) [
  | none ↦ out
  | some (k, v, r') ↦ entries n r' ((k, v) ∷ out)
]

unfoldable pub decode_map : List ℕ → Option (List (List ℕ × Value))
decode_map bytes =
    and_then (u8 (record { rest = bytes; pos = 0 }))
      λ (tag, r). if tag == 13 then and_then (size r) (λ (n, r'). some (entries n r' [])) else none

abbrev pub bytes_eq : List ℕ → List ℕ → Bool
bytes_eq [] [] = true
bytes_eq [] (b ∷ bs) = false
bytes_eq (a ∷ as') [] = false
bytes_eq (a ∷ as') (b ∷ bs) = a == b && bytes_eq as' bs

unfoldable pub get : List ℕ → List (List ℕ × Value) → Option Value
get k [] = none
get k ((j, v) ∷ m) = if bytes_eq j k then some v else get k m
