-- ===== src/Submit/Scenes/Reported.antt =====
-- The views that dropped buffers are reported in, and what the shell is told of them, by src/submit.rs.
use mathlib.Core.Path.{subst}
use ihs_wl_server.Prelude.{
  ℕ, ◌≤◌, ◌≡◌, refl, sym, ap, ◌∙◌, inl, inr, ◌⊎◌, true, List, [], ◌∷◌, ◌++◌, map, none, some, ◌==◌,
  if◌then◌else◌, any, contains, count, arith, ==_iff, Bool-cases, Option-cases,
}
use ihs_wl_server.Buffers.{BufferKey, client, staged, key_eq, Entry, BufferIds, find, destroyed}
use ihs_wl_server.Buffers.Maps.{key_eq_iff, find-remove}
use ihs_wl_server.Submit.Scenes.{Views, Retirement, retire_in, retire_key, retire_keys}

-- The buffer id is reported retired in the view.
abbrev pub Reports : Retirement → List Retirement → Type 0
Reports r [] = ⊥
Reports r (x ∷ xs) = (x ≡ r) ⊎ Reports r xs

Reports-left : (r : Retirement) (xs ys : List Retirement) → Reports r xs → Reports r (xs ++ ys)
Reports-left r [] ys h = absurd h
Reports-left r (x ∷ xs) ys (inl e) = inl e
Reports-left r (x ∷ xs) ys (inr h) = inr (Reports-left r xs ys h)

Reports-right : (r : Retirement) (xs ys : List Retirement) → Reports r ys → Reports r (xs ++ ys)
Reports-right r [] ys h = h
Reports-right r (x ∷ xs) ys h = inr (Reports-right r xs ys h)

abbrev pub retirement : Views → ℕ → ℕ → Retirement
retirement vs id v = record { view = v; buffer_id = id; told = vs.linked v }

pub find-destroyed :
    (ids : BufferIds) (k j : BufferKey)
    → find j (destroyed ids k).0.by_buffer ≡ (if key_eq k j then none else find j ids.by_buffer)
unfolding destroyed
find-destroyed ids k j = elim (Option-cases (find k ids.by_buffer)) [
  | inl e ↦ ground (arith, e, key_eq_iff k j)
  | inr (d, e) ↦ ground (arith, e, find-remove k j ids.by_buffer)
]

destroyed-some :
    (ids : BufferIds) (k : BufferKey) (e : Entry)
    → find k ids.by_buffer ≡ some e
    → (destroyed ids k).1 ≡ some (e.id, e.views)
unfolding destroyed
destroyed-some ids k e f = ground (arith, f)

retire_in-Reports :
    (vs : Views) (id w : ℕ) (views : List ℕ)
    → contains views w ≡ true
    → contains vs.here w ≡ true
    → Reports (retirement vs id w) (retire_in vs (some (id, views)))
retire_in-Reports vs id w [] h there = cc
retire_in-Reports vs id w (v ∷ views) h there = elim (Bool-cases (v == w)) [
  | inl e ↦
      let same : v ≡ w = ground (arith, e, ==_iff v w) in
      let kept : contains vs.here v ≡ true = ap (contains vs.here) same ∙ there in
      rw kept (inl (ap (retirement vs id) same))
  | inr e ↦
      let rest = retire_in-Reports vs id w views (ground (arith, h, e)) there in
      elim (Bool-cases (contains vs.here v)) [ inl k ↦ rw k (inr rest) | inr k ↦ rw k rest ]
]

pub retire_keys-Reports :
    (vs : Views) (ks : List BufferKey) (u w : ℕ) (e : Entry) (ids : BufferIds)
    → any (λ k. key_eq k (staged u)) ks ≡ true
    → find (staged u) ids.by_buffer ≡ some e
    → contains e.views w ≡ true
    → contains vs.here w ≡ true
    → Reports (retirement vs e.id w) (retire_keys vs ks ids).1
unfolding retire_keys retire_key
retire_keys-Reports vs [] u w e ids named f shown there = cc
retire_keys-Reports vs (k ∷ ks) u w e ids named f shown there =
    let ids' = (destroyed ids k).0 in
    let first = retire_in vs (destroyed ids k).1 in
    let more = (retire_keys vs ks ids').1 in
    elim (Bool-cases (key_eq k (staged u))) [
      | inl same ↦
          let eq : find k ids.by_buffer ≡ some e =
            ap (λ j. find j ids.by_buffer) ((key_eq_iff k (staged u)).0 same) ∙ f in
          let shown_in : (destroyed ids k).1 ≡ some (e.id, e.views) = destroyed-some ids k e eq in
          Reports-left (retirement vs e.id w) first more (
            subst (λ o. Reports (retirement vs e.id w) (retire_in vs o)) (sym shown_in)
              (retire_in-Reports vs e.id w e.views shown there))
      | inr other ↦ Reports-right (retirement vs e.id w) first more (
          retire_keys-Reports vs ks u w e ids' (ground (arith, named, other))
            (find-destroyed ids k (staged u) ∙ ground (arith, other, f)) shown there)
    ]

pub named_in :
    (us : List ℕ) (u : ℕ) (ks : List BufferKey)
    → 1 ≤ count u us
    → any (λ k. key_eq k (staged u)) (ks ++ map staged us) ≡ true
unfolding key_eq
named_in us u (k ∷ ks) h = ground (arith, named_in us u ks h)
named_in [] u [] h = absurd (omega (arith, h))
named_in (v ∷ us) u [] h = elim (Bool-cases (v == u)) [
  | inl e ↦ ground (arith, e)
  | inr e ↦ ground (arith, e, named_in us u [] (ground (arith, h, e)))
]

destroyed-last : (ids : BufferIds) (k : BufferKey) → (destroyed ids k).0.last ≡ ids.last
unfolding destroyed
destroyed-last ids k = elim (Option-cases (find k ids.by_buffer)) [
  | inl e ↦ ground (arith, e)
  | inr (d, e) ↦ ground (arith, e)
]

pub retire_keys-last :
    (vs : Views) (ks : List BufferKey) (ids : BufferIds) → (retire_keys vs ks ids).0.last ≡ ids.last
unfolding retire_keys retire_key
retire_keys-last vs [] ids = refl
retire_keys-last vs (k ∷ ks) ids = retire_keys-last vs ks (destroyed ids k).0 ∙ destroyed-last ids k

retire_keys-kept :
    (vs : Views) (ks : List BufferKey) (j : BufferKey) (ids : BufferIds)
    → find j ids.by_buffer ≡ none
    → find j (retire_keys vs ks ids).0.by_buffer ≡ none
unfolding retire_keys retire_key
retire_keys-kept vs [] j ids h = h
retire_keys-kept vs (k ∷ ks) j ids h =
    retire_keys-kept vs ks j (destroyed ids k).0 (ground (arith, find-destroyed ids k j, h))

pub retire_keys-gone :
    (vs : Views) (ks : List BufferKey) (j : BufferKey) (ids : BufferIds)
    → any (λ k. key_eq k j) ks ≡ true
    → find j (retire_keys vs ks ids).0.by_buffer ≡ none
unfolding retire_keys retire_key
retire_keys-gone vs [] j ids h = cc
retire_keys-gone vs (k ∷ ks) j ids h = elim (Bool-cases (key_eq k j)) [
  | inl e ↦ retire_keys-kept vs ks j (destroyed ids k).0 (ground (arith, find-destroyed ids k j, e))
  | inr e ↦ retire_keys-gone vs ks j (destroyed ids k).0 (ground (arith, h, e))
]

pub named_client :
    (bs : List ℕ) (b : ℕ) (ks : List BufferKey)
    → contains bs b ≡ true
    → any (λ k. key_eq k (client b)) (map client bs ++ ks) ≡ true
unfolding key_eq
named_client [] b ks h = cc
named_client (x ∷ bs) b ks h = elim (Bool-cases (x == b)) [
  | inl e ↦ ground (arith, e)
  | inr e ↦ ground (arith, e, named_client bs b ks (ground (arith, h, e)))
]
