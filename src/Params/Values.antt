-- ===== src/Params/Values.antt =====
-- The reader of src/params.rs gives back each value that the codec writes.
use mathlib.Core.List.{append_assoc}
use ihs_wl_server.Prelude.{
  ℕ, zero, suc, ◌+◌, ◌-◌, ◌*◌, ◌/◌, ◌%◌, ◌<◌, ◌≤◌, ◌≡◌, refl, ap, ◌∙◌, true, false, List, [], ◌∷◌,
  ◌++◌, Option, some, ltb, leb, if◌then◌else◌, length, length-append, take, drop, arith, Bool-cases,
  inl, inr,
}
use ihs_wl_server.Params.Codec.{
  Value, null, bool, int, double, string, Reader, take_bytes, u8, from_le, word, size, align,
  is_utf8, text, tagged, value, sign_extend,
}

-- The codec's writer.
abbrev pub to_le : ℕ → ℕ → List ℕ
to_le zero n = []
to_le (suc k) n = n % 256 ∷ to_le k (n / 256)

abbrev pub zeros : ℕ → List ℕ
zeros zero = []
zeros (suc n) = 0 ∷ zeros n

abbrev pub encode_size : ℕ → List ℕ
encode_size n =
    if leb n 253 then n ∷ [] else if ltb n 65536 then 254 ∷ to_le 2 n else 255 ∷ to_le 4 n

abbrev pub encode_value : (pos : ℕ) → Value → List ℕ
encode_value pos null = 0 ∷ []
encode_value pos (bool true) = 1 ∷ []
encode_value pos (bool false) = 2 ∷ []
encode_value pos (int n) =
    if ltb n 2147483648
    then 3 ∷ to_le 4 n
    else if leb 18446744071562067968 n
    then 3 ∷ to_le 4 (n - 18446744069414584320)
    else 4 ∷ to_le 8 n
encode_value pos (double d) = 6 ∷ zeros ((8 - (pos + 1) % 8) % 8) ++ to_le 8 d
encode_value pos (string s) = 7 ∷ encode_size (length s) ++ s

-- The numbers that `k` bytes hold are below it.
abbrev pub bound : ℕ → ℕ
bound zero = 1
bound (suc k) = 256 * bound k

-- Values that fit their words, and text.
abbrev pub IsEncodable : Value → Type 0
IsEncodable null = Unit {0}
IsEncodable (bool b) = Unit {0}
IsEncodable (int n) = n < bound 8
IsEncodable (double d) = d < bound 8
IsEncodable (string s) = (length s < bound 4) × (is_utf8 0 0 0 s ≡ true)

length-to_le : (k n : ℕ) → length (to_le k n) ≡ k
length-to_le zero n = refl
length-to_le (suc k) n = ap suc (length-to_le k (n / 256))

length-zeros : (k : ℕ) → length (zeros k) ≡ k
length-zeros zero = refl
length-zeros (suc k) = ap suc (length-zeros k)

from_le-to_le : (k n : ℕ) → n < bound k → from_le (to_le k n) ≡ n
from_le-to_le zero n h = omega arith
from_le-to_le (suc k) n h = omega (arith, h, from_le-to_le k (n / 256) (omega (arith, h)))

take-append : (xs ys : List ℕ) → take (length xs) (xs ++ ys) ≡ xs
take-append [] ys = refl
take-append (x ∷ xs) ys = ap (◌∷◌ x) (take-append xs ys)

drop-append : (xs ys : List ℕ) → drop (length xs) (xs ++ ys) ≡ ys
drop-append [] ys = refl
drop-append (x ∷ xs) ys = drop-append xs ys

take_bytes-append :
    (n : ℕ) (xs ys : List ℕ) (pos : ℕ)
    → length xs ≡ n
    → take_bytes n (record { rest = xs ++ ys; pos = pos })
      ≡ some (xs, record { rest = ys; pos = pos + n })
unfolding take_bytes
take_bytes-append n xs ys pos h =
    rw (← h) (elim (Bool-cases (leb (length xs) (length (xs ++ ys)))) [
      | inl e ↦ rw (e, take-append, drop-append) refl
      | inr e ↦ absurd (ground (arith, e, length-append {0} xs ys))
    ])

word-append :
    (k n : ℕ) (ys : List ℕ) (pos : ℕ)
    → n < bound k
    → word k (record { rest = to_le k n ++ ys; pos = pos })
      ≡ some (n, record { rest = ys; pos = pos + k })
unfolding word
word-append k n ys pos h =
    rw (take_bytes-append k (to_le k n) ys pos (length-to_le k n), from_le-to_le k n h) refl

-- Only the position's writing differs.
at_pos :
    {A : Type 0} (a : A) (ys : List ℕ) {p q : ℕ}
    → p ≡ q
    → Path
        (Option (A × Reader))
        (some (a, record { rest = ys; pos = p }))
        (some (a, record { rest = ys; pos = q }))
at_pos a ys e = ap (λ p. some (a, record { rest = ys; pos = p })) e

pub size-append :
    (n : ℕ) (ys : List ℕ) (pos : ℕ)
    → n < bound 4
    → size (record { rest = encode_size n ++ ys; pos = pos })
      ≡ some (n, record { rest = ys; pos = pos + length (encode_size n) })
unfolding size u8
size-append n ys pos h = elim (Bool-cases (leb n 253)) [
  | inl e ↦ rw e (rw e refl)
  | inr e ↦ rw e (elim (Bool-cases (ltb n 65536)) [
    | inl f ↦ rw f (word-append 2 n ys (pos + 1) (ground (arith, f)) ∙ at_pos n ys (omega arith))
    | inr f ↦ rw f (word-append 4 n ys (pos + 1) h ∙ at_pos n ys (omega arith))
  ])
]

align-append :
    (pos : ℕ) (ys : List ℕ)
    → align 8 (record { rest = zeros ((8 - pos % 8) % 8) ++ ys; pos = pos })
      ≡ some (record { rest = ys; pos = pos + (8 - pos % 8) % 8 })
unfolding align
align-append pos ys =
    let pad = (8 - pos % 8) % 8 in
    rw (take_bytes-append pad (zeros pad) ys pos (length-zeros pad)) refl

shift : (a b c : ℕ) → a + 1 + b + c ≡ a + (suc b + c)
shift a b c = omega arith

-- `i64 as i32`, where nothing is lost by it.
narrow : ℕ → ℕ
narrow n = n - 18446744069414584320

back : (n : ℕ) → 18446744071562067968 ≤ n → narrow n + 18446744069414584320 ≡ n
unfolding narrow
back n h = omega (arith, h)

leb-true : (a b : ℕ) → leb a b ≡ true → a ≤ b
leb-true a b e = ground (arith, e)

sign_extend-narrow :
    (n : ℕ) → leb 18446744071562067968 n ≡ true → n < bound 8 → sign_extend (narrow n) ≡ n
unfolding sign_extend narrow
sign_extend-narrow n f h = elim (Bool-cases (ltb (n - 18446744069414584320) 2147483648)) [
  | inl e ↦ absurd (ground (arith, e, f))
  | inr e ↦ rw e (back n (leb-true 18446744071562067968 n f))
]

int-append :
    (n : ℕ) (ys : List ℕ) (pos : ℕ)
    → n < bound 8
    → value (record { rest = encode_value pos (int n) ++ ys; pos = pos })
      ≡ some (int n, record { rest = ys; pos = pos + length (encode_value pos (int n)) })
unfolding value u8 tagged sign_extend narrow
int-append n ys pos h = elim (Bool-cases (ltb n 2147483648)) [
  | inl e ↦
      rw (e, word-append 4 n ys (pos + 1) (ground (arith, e)), e) (at_pos (int n) ys (omega arith))
  | inr e ↦ elim (Bool-cases (leb 18446744071562067968 n)) [
    | inl f ↦
        rw
          (
            e,
            f,
            word-append 4 (n - 18446744069414584320) ys (pos + 1) (omega (arith, h)),
            sign_extend-narrow n f h,
          )
          (at_pos (int n) ys (omega arith))
    | inr f ↦ rw (e, f, word-append 8 n ys (pos + 1) h) (at_pos (int n) ys (omega arith))
  ]
]

pub value-append :
    (v : Value) (ys : List ℕ) (pos : ℕ)
    → IsEncodable v
    → value (record { rest = encode_value pos v ++ ys; pos = pos })
      ≡ some (v, record { rest = ys; pos = pos + length (encode_value pos v) })
unfolding value u8 tagged text
value-append null ys pos h = refl
value-append (bool true) ys pos h = refl
value-append (bool false) ys pos h = refl
value-append (int n) ys pos h = int-append n ys pos h
value-append (double d) ys pos h =
    let pad = (8 - (pos + 1) % 8) % 8 in
    rw
      (
        append_assoc,
        align-append (pos + 1) (to_le 8 d ++ ys),
        word-append 8 d ys (pos + 1 + pad) h,
        length-append,
        length-zeros,
        length-to_le,
      )
      (at_pos (double d) ys (shift pos pad 8))
value-append (string s) ys pos h =
    rw
      (
        append_assoc,
        size-append (length s) (s ++ ys) (pos + 1) h.0,
        take_bytes-append (length s) s ys (pos + 1 + length (encode_size (length s))) refl,
        h.1,
        length-append,
      )
      (at_pos (string s) ys (shift pos (length (encode_size (length s))) (length s)))
