-- ===== src/Tree/Found.antt =====
-- What src/tree.rs finds for a surface to show, and its staging ring after that.
use mathlib.Core.Path.{subst}
use ihs_wl_server.Prelude.{
  ℕ, zero, suc, ◌+◌, ◌≤◌, ◌≡◌, refl, ap, inl, inr, List, [], ◌∷◌, Option, none, some, ◌==◌,
  if◌then◌else◌, get_elem?, map, count, arith, ==_iff, Option-cases,
}
use ihs_wl_server.Buffers.{BufferKey, client, staged}
use ihs_wl_server.Staging.{Slot, Ring, Request, Staged, stage, refit}
use ihs_wl_server.Staging.Bounds.{IsValid, uids, handed_out, stage-uids}
use ihs_wl_server.Staging.Content.{ShowsIn, stage-Shows}
use ihs_wl_server.Tree.Build.{
  Picture, Buffer, Shown, Found, staged_as, import, stage_source, find_content,
}

count-in :
    (ss : List Slot) (i : ℕ) (s : Slot)
    → get_elem? ss i ≡ some s
    → 1 ≤ count s.uid (map (λ (x : Slot). x.uid) ss)
count-in [] i s e = cc
count-in (x ∷ ss) zero s e =
    let same : x ≡ s = cc in ground (arith, ap (λ (y : Slot). y.uid) same, ==_iff x.uid s.uid)
count-in (x ∷ ss) (suc i) s e = omega (arith, count-in ss i s e)

abbrev pub key_is : ℕ → BufferKey → ℕ
key_is u (client b) = 0
key_is u (staged v) = if v == u then 1 else 0

abbrev pub shown_is : ℕ → Option Shown → ℕ
shown_is u none = 0
shown_is u (some s) = key_is u s.key

staged_as-in :
    (slot : ℕ → Picture) (q : Request) (next : ℕ) (r : Ring) (u : ℕ) (o : Option Staged)
    → (stage q next r).staged ≡ o
    → shown_is u (staged_as slot o) ≤ count u (uids (stage q next r).ring)
staged_as-in slot q next r u none e = omega arith
staged_as-in slot q next r u (some st) e =
    let (s, at, same, used, why) =
      subst (ShowsIn q (refit q r).0 (stage q next r).ring) e (stage-Shows q next r) in
    ground (
      arith,
      count-in (stage q next r).ring.slots st.index s at,
      same,
      ==_iff st.uid u,
      ==_iff s.uid u,
    )

-- What was found: the ring stays valid, a uid is on it or retired as before or was handed out since, and
-- what is shown is a slot of it.
pub record Finds (u next : ℕ) (r : Ring) (f : Found) : Type 0 where
  pub valid : IsValid f.ring
  pub uids_new :
      count u (uids f.ring) + count u f.retired ≤ count u (uids r) + handed_out u next f.next_uid
  pub next_grows : next ≤ f.next_uid
  pub on_ring : shown_is u f.shown ≤ count u (uids f.ring)

stage_source-Finds :
    (slot : ℕ → Picture) (q : Option Request) (next : ℕ) (r : Ring) (u : ℕ)
    → IsValid r
    → Finds u next r (stage_source slot q next r)
stage_source-Finds slot none next r u v = record {
  valid = v;
  uids_new = omega arith;
  next_grows = omega arith;
  on_ring = omega arith;
}
stage_source-Finds slot (some q) next r u v =
    let (valid, new, grows) = stage-uids q next r u v in
    record {
      valid = valid;
      uids_new = new;
      next_grows = grows;
      on_ring = staged_as-in slot q next r u (stage q next r).staged refl;
    }

pub find_content-Finds :
    (b : Buffer) (next : ℕ) (r : Ring) (u : ℕ) → IsValid r → Finds u next r (find_content b next r)
unfolding find_content
find_content-Finds b next r u v = elim (Option-cases (import b.dmabuf b.egl)) [
  | inl e ↦ rw (e, find_content) (stage_source-Finds b.slot b.source next r u v)
  | inr (p, e) ↦
      rw (e, find_content)
        (record {
          valid = v;
          uids_new = omega arith;
          next_grows = omega arith;
          on_ring = omega arith;
        })
]
