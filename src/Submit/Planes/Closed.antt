-- ===== src/Submit/Planes/Closed.antt =====
-- No fd is leaked, and none is closed twice, by `frame_for` of src/submit.rs and by whoever closes
-- the frame.
use ihs_wl_server.Prelude.{
  contains-append, All-append, ==_refl, ℕ, true, ◌&&◌, ◌||◌, not, List, [], ◌∷◌, ◌++◌, Option, none,
  some, ◌==◌, if◌then◌else◌, contains, take, map, arith, ◌≡◌, refl, ==_iff, Option-cases, inl, inr,
  count, All,
}
use ihs_wl_server.Submit.Planes.{
  PlaneIn, Plane, File, same_file, add_file, close_from, close_frame, Outcome, frame, failed, fill,
  frame_for, plane,
}

abbrev pub fds : List Plane → List ℕ
fds = map λ (p : Plane). p.fd

-- Each fd of the planes that is not closed yet is closed once.
count-close_from :
    (a : ℕ) (closed : List ℕ) (ps : List Plane)
    → count a (close_from closed ps)
      ≡ (if contains (fds ps) a && not (contains closed a) then 1 else 0)
unfolding close_from
count-close_from a closed [] = refl
count-close_from a closed (p ∷ ps) = ground (
  arith,
  count-close_from a closed ps,
  count-close_from a (closed ++ p.fd ∷ []) ps,
  contains-append a closed (p.fd ∷ []),
  ==_iff p.fd a,
)

-- Every file seen has a dup of its own.
abbrev Known : List ℕ → List File → Type 0
Known dups files = All (λ (f : File). contains dups f.2 ≡ true) files

Known-snoc :
    (dups : List ℕ) (raw : ℕ) (files : List File)
    → Known dups files
    → Known (dups ++ raw ∷ []) files
Known-snoc dups raw [] k = tt
Known-snoc dups raw (f ∷ files) k =
    (ground (arith, k.0, contains-append f.2 dups (raw ∷ [])), Known-snoc dups raw files k.1)

Known-add_file :
    (dups : List ℕ) (raw : ℕ) (file : Option (ℕ × ℕ)) (files : List File)
    → Known dups files
    → Known (dups ++ raw ∷ []) (add_file file raw files)
Known-add_file dups raw none files k = Known-snoc dups raw files k
Known-add_file dups raw (some (dev, ino)) files k =
    All-append (λ (f : File). contains (dups ++ raw ∷ []) f.2 ≡ true) files ((dev, ino, raw) ∷ [])
      (Known-snoc dups raw files k)
      (ground (arith, contains-append raw dups (raw ∷ []), ==_refl raw), tt)

same_file-contains :
    (dups : List ℕ) (file : Option (ℕ × ℕ)) (files : List File) (raw : ℕ)
    → Known dups files
    → same_file file files ≡ some raw
    → contains dups raw ≡ true
unfolding same_file
same_file-contains dups none files raw k e = cc
same_file-contains dups (some id) [] raw k e = cc
same_file-contains dups (some (dev, ino)) ((d, n, r) ∷ files) raw k e =
    ground (arith, k.0, same_file-contains dups (some (dev, ino)) files raw k.1)

-- What is closed in the end: by `frame_for` itself after a failed dup, and by the frame's taker.
abbrev pub closes : Outcome → List ℕ
closes (frame ps) = close_frame ps
closes (failed closed) = closed

abbrev once : ℕ → List ℕ → ℕ
once a dups = if contains dups a then 1 else 0

done-closes :
    (a : ℕ) (done : List Plane) (dups : List ℕ)
    → contains (fds done) a ≡ contains dups a
    → count a (close_frame done) ≡ once a dups
unfolding close_frame
done-closes a done dups h = ground (arith, count-close_from a [] done)

fds-snoc :
    (a : ℕ) (done : List Plane) (p : Plane)
    → contains (fds (done ++ p ∷ [])) a ≡ (contains (fds done) a || p.fd == a)
fds-snoc a [] p = ground arith
fds-snoc a (q ∷ done) p = ground (arith, fds-snoc a done p)

fill-closes :
    (a : ℕ) (ps : List PlaneIn) (done : List Plane) (files : List File) (dups : List ℕ)
    → contains (fds done) a ≡ contains dups a
    → Known dups files
    → count a (closes (fill ps done files dups).outcome) ≡ once a (fill ps done files dups).dups
unfolding fill
fill-closes a [] done files dups h k = done-closes a done dups h
fill-closes a (p ∷ ps) done files dups h k = elim (Option-cases (same_file p.file files)) [
  | inr (raw, e) ↦
      rw (e, fill)
        (fill-closes a ps (done ++ plane raw p ∷ []) files dups
          (ground (
            arith,
            h,
            fds-snoc a done (plane raw p),
            ==_iff raw a,
            same_file-contains dups p.file files raw k e,
          ))
          k)
  | inl e ↦ elim (Option-cases p.dup) [
    | inl f ↦ rw (e, f, fill) (done-closes a done dups h)
    | inr (raw, f) ↦
        rw (e, f, fill)
          (fill-closes a ps (done ++ plane raw p ∷ []) (add_file p.file raw files)
            (dups ++ raw ∷ [])
            (ground (arith, h, fds-snoc a done (plane raw p), contains-append a dups (raw ∷ [])))
            (Known-add_file dups raw p.file files k))
  ]
]

-- Each fd that a dup made is closed exactly once, and no other: by `frame_for` when a dup fails, else
-- by closing the frame that it returns, however many planes share a file.
pub frame_for-closes :
    (ps : List PlaneIn) (a : ℕ)
    → count a (closes (frame_for ps).outcome) ≡ (if contains (frame_for ps).dups a then 1 else 0)
unfolding frame_for
frame_for-closes ps a = fill-closes a (take 4 ps) [] [] [] refl tt
