-- ===== src/Params/Roundtrip.antt =====
-- What src/params.rs decodes of a message that the codec wrote, whatever follows it.
use mathlib.Core.List.{append_assoc}
use native.Mathlib.Nat.{add-zero, suc-add, zero-add}
use ihs_wl_server.Prelude.{
  ℕ, suc, ◌+◌, ◌<◌, ◌≤◌, ◌≡◌, Option-cases, inl, inr, zero, refl, ap, ◌∙◌, sym, List, [], ◌∷◌, ◌++◌,
  Option, some, length, length-append, arith,
}
use ihs_wl_server.Params.Codec.{Value, Reader, string, u8, entry, entries, decode_map}
use ihs_wl_server.Params.Values.{
  encode_size, encode_value, IsEncodable, bound, size-append, value-append,
}

-- A map's entries, each a string and a value, as the codec writes them.
unfoldable pub encode_entry : (pos : ℕ) → List ℕ × Value → List ℕ
encode_entry pos (k, v) =
    let key = encode_value pos (string k) in key ++ encode_value (pos + length key) v

abbrev pub encode_entries : (pos : ℕ) → List (List ℕ × Value) → List ℕ
encode_entries pos [] = []
encode_entries pos (e ∷ es) =
    encode_entry pos e ++ encode_entries (pos + length (encode_entry pos e)) es

abbrev pub AreEncodable : List (List ℕ × Value) → Type 0
AreEncodable [] = Unit {0}
AreEncodable ((k, v) ∷ es) = IsEncodable (string k) × IsEncodable v × AreEncodable es

abbrev pub newest_first : List (List ℕ × Value) → List (List ℕ × Value) → List (List ℕ × Value)
newest_first [] out = out
newest_first (e ∷ es) out = newest_first es (e ∷ out)

entry-append :
    (k : List ℕ) (v : Value) (ys : List ℕ) (pos : ℕ)
    → IsEncodable (string k)
    → IsEncodable v
    → entry (record { rest = encode_entry pos (k, v) ++ ys; pos = pos })
      ≡ some (k, v, record { rest = ys; pos = pos + length (encode_entry pos (k, v)) })
unfolding entry encode_entry
entry-append k v ys pos hk hv =
    let key = encode_value pos (string k) in
    rw
      (
        append_assoc,
        value-append (string k) (encode_value (pos + length key) v ++ ys) pos hk,
        value-append v ys (pos + length key) hv,
      )
      (ap (λ p. some (k, v, record { rest = ys; pos = p }))
        (omega (arith, length-append {0} key (encode_value (pos + length key) v))))

entries-append :
    (es : List (List ℕ × Value)) (n : ℕ) (ys : List ℕ) (pos : ℕ) (out : List (List ℕ × Value))
    → AreEncodable es
    → entries (length es + n) (record { rest = encode_entries pos es ++ ys; pos = pos }) out
      ≡ entries n
          (record { rest = ys; pos = pos + length (encode_entries pos es) })
          (newest_first es out)
unfolding entries
entries-append [] n ys pos out h = rw (zero-add, add-zero) refl
entries-append ((k, v) ∷ es) n ys pos out h =
    let first = encode_entry pos (k, v) in
    let later = encode_entries (pos + length first) es in
    rw (suc-add, append_assoc, entry-append k v (later ++ ys) pos h.0 h.1, entries)
      (entries-append es n ys (pos + length first) ((k, v) ∷ out) h.2
        ∙ ap (λ p. entries n (record { rest = ys; pos = p }) (newest_first es ((k, v) ∷ out)))
            (omega (arith, length-append {0} first later)))

one_more : (l : ℕ) → 1 + l ≡ suc l
one_more l = omega arith

after_header :
    (l : ℕ) (es : List (List ℕ × Value)) (n : ℕ) (ys : List ℕ)
    → AreEncodable es
    → Path
        (Option (List (List ℕ × Value)))
        (some (
          entries
            (length es + n)
            (record { rest = encode_entries (suc l) es ++ ys; pos = 1 + l })
            []))
        (some (
          entries n
            (record { rest = ys; pos = suc l + length (encode_entries (suc l) es) })
            (newest_first es [])))
after_header l es n ys h =
    ap
      (λ p.
        some
          (entries (length es + n) (record { rest = encode_entries (suc l) es ++ ys; pos = p }) []))
      (one_more l)
    ∙ ap some (entries-append es n ys (suc l) [] h)

-- The codec's message of a map that announces `n` more entries than it has, and whatever follows.
abbrev pub encode_map : (n : ℕ) → List (List ℕ × Value) → List ℕ → List ℕ
encode_map n es ys =
    let header = 13 ∷ encode_size (length es + n) in
    header ++ (encode_entries (length header) es ++ ys)

-- What was decoded stays, and each round of the loop adds one entry at most.
entries-keeps :
    (n : ℕ) (r : Reader) (out : List (List ℕ × Value))
    → (m : List (List ℕ × Value)) × (length m ≤ n) × (entries n r out ≡ m ++ out)
unfolding entries
entries-keeps zero r out = ([], omega arith, refl)
entries-keeps (suc n) r out = elim (Option-cases (entry r)) [
  | inl e ↦ ([], omega arith, rw (entries, e) refl)
  | inr ((k, v, r'), e) ↦
      let (m, l, q) = entries-keeps n r' ((k, v) ∷ out) in
      (
        m ++ (k, v) ∷ [],
        omega (arith, l, length-append {0} m ((k, v) ∷ [])),
        rw (entries, e) (q ∙ sym (append_assoc m ((k, v) ∷ []) out)),
      )
]

-- A message of the codec announces `n` entries more than it has, and anything may follow its own. Then
-- what is decoded is each entry that it has, the later ones before the earlier so that they win under
-- a key that occurs twice, behind at most `n` entries that were made of what follows. So a message cut
-- short, or with a value of another kind, loses no entry before the cut. It has to announce fewer than
-- 2^32 entries, of keys and strings that are UTF-8 of fewer than 2^32 bytes and of numbers of 64 bits.
pub decode_map-encode_map :
    (es : List (List ℕ × Value)) (n : ℕ) (ys : List ℕ)
    → AreEncodable es
    → length es + n < bound 4
    → (m : List (List ℕ × Value)) × (length m ≤ n)
      × (decode_map (encode_map n es ys) ≡ some (m ++ newest_first es []))
unfolding decode_map u8
decode_map-encode_map es n ys h fits =
    let header = 13 ∷ encode_size (length es + n) in
    let body = encode_entries (length header) es in
    let (m, l, q) =
      entries-keeps n (record { rest = ys; pos = length header + length body })
        (newest_first es []) in
    (
      m,
      l,
      rw (size-append (length es + n) (body ++ ys) 1 fits)
          (after_header (length (encode_size (length es + n))) es n ys h ∙ ap some q),
    )
