-- ===== src/Caps/Offered.antt =====
-- The formats that src/caps.rs accepts.
use ihs_wl_server.Prelude.{
  ℕ, ◌+◌, ◌≡◌, refl, ◌∙◌, Bool, true, false, ◌||◌, List, [], ◌∷◌, ◌++◌, Option, none, some, ==_iff,
  if◌then◌else◌, arith,
}
use ihs_wl_server.Caps.{
  FormatModifier, fm_eq, fourcc, fallback, Capabilities, EglContext, offers, push_new,
  import_formats, query, accepts,
}

-- How often a format is listed.
unfoldable pub times : List FormatModifier → (code modifier : ℕ) → ℕ
times [] code modifier = 0
times (f ∷ fs) code modifier = (if fm_eq code modifier f then 1 else 0) + times fs code modifier

-- The formats that an answer names: the shell's, or the fallback where it names none.
abbrev pub named : (ok : Bool) → Option (List FormatModifier) → List FormatModifier
named false offered = fallback
named true none = fallback
named true (some []) = fallback
named true (some (f ∷ fs)) = f ∷ fs

offers-snoc :
    (out : List FormatModifier) (f : FormatModifier) (c m : ℕ)
    → offers (out ++ f ∷ []) c m ≡ (offers out c m || fm_eq c m f)
unfolding offers
offers-snoc [] f c m = ground arith
offers-snoc (g ∷ out) f c m = ground (arith, offers-snoc out f c m)

times-snoc :
    (out : List FormatModifier) (f : FormatModifier) (c m : ℕ)
    → times (out ++ f ∷ []) c m ≡ times out c m + (if fm_eq c m f then 1 else 0)
unfolding times
times-snoc [] f c m = omega arith
times-snoc (g ∷ out) f c m = omega (arith, times-snoc out f c m)

-- Each listed format is listed once.
abbrev IsOnce : List FormatModifier → ℕ → ℕ → Type 0
IsOnce fs c m = times fs c m ≡ (if offers fs c m then 1 else 0)

same_format :
    (out : List FormatModifier) (f : FormatModifier) (c m : ℕ)
    → fm_eq c m f ≡ true
    → offers out f.fourcc f.modifier ≡ offers out c m
same_format out f c m e =
    let a : f.fourcc ≡ c = ground (arith, e, ==_iff f.fourcc c) in
    let b : f.modifier ≡ m = ground (arith, e, ==_iff f.modifier m) in cc

pushed-IsOnce :
    (out : List FormatModifier) (f : FormatModifier) (c m : ℕ)
    → IsOnce out c m
    → IsOnce (if offers out f.fourcc f.modifier then out else out ++ f ∷ []) c m
pushed-IsOnce out f c m h =
    ground (arith, h, offers-snoc out f c m, times-snoc out f c m, same_format out f c m)

push_new-IsOnce :
    (out fs : List FormatModifier) (c m : ℕ) → IsOnce out c m → IsOnce (push_new out fs) c m
unfolding push_new
push_new-IsOnce out [] c m h = h
push_new-IsOnce out (f ∷ fs) c m h =
    push_new-IsOnce (if offers out f.fourcc f.modifier then out else out ++ f ∷ []) fs c m
      (pushed-IsOnce out f c m h)

offers-push_new :
    (out fs : List FormatModifier) (c m : ℕ)
    → offers (push_new out fs) c m ≡ (offers out c m || offers fs c m)
unfolding push_new offers
offers-push_new out [] c m = ground arith
offers-push_new out (f ∷ fs) c m =
    let out' = if offers out f.fourcc f.modifier then out else out ++ f ∷ [] in
    offers-push_new out' fs c m ∙ ground (arith, offers-snoc out f c m, same_format out f c m)

fallback-IsOnce : (c m : ℕ) → IsOnce fallback c m
unfolding fallback times offers fourcc
fallback-IsOnce c m = ground (
  arith,
  ==_iff (fourcc 65 82 50 52) c,
  ==_iff (fourcc 88 82 50 52) c,
  ==_iff (fourcc 65 66 50 52) c,
  ==_iff (fourcc 88 66 50 52) c,
)

import_formats-named :
    (ok : Bool) (o : Option (List FormatModifier)) (c m : ℕ)
    → (offers (import_formats ok o) c m ≡ offers (named ok o) c m)
      × IsOnce (import_formats ok o) c m
unfolding import_formats offers times
import_formats-named false o c m = (refl, fallback-IsOnce c m)
import_formats-named true none c m = (refl, fallback-IsOnce c m)
import_formats-named true (some []) c m = (refl, fallback-IsOnce c m)
import_formats-named true (some (f ∷ fs)) c m =
    (offers-push_new [] (f ∷ fs) c m, push_new-IsOnce [] (f ∷ fs) c m refl)

-- A queried shell's formats are accepted exactly if it names them, or, where its answer fails or names
-- none, if they are the fallback's four; and each accepted one is listed once, however often it was
-- named.
accepts-query :
    (caps : Capabilities) (egl : EglContext) (c m : ℕ)
    → (accepts (query caps egl) c m ≡ offers (named caps.ok caps.formats) c m)
      × (times (query caps egl).formats c m ≡ (if accepts (query caps egl) c m then 1 else 0))
unfolding query accepts
accepts-query caps egl c m = import_formats-named caps.ok caps.formats c m
