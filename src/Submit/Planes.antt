-- ===== src/Submit/Planes.antt =====
-- `frame_for` and `close_frame` of src/submit.rs: the dups of a dma-buf's plane fds that go to the
-- shell with a frame. The system's answers are inputs: for each plane the file behind its fd (none
-- if fstat fails) and the dup's number (none if the dup fails).
pub mod Closed
use ihs_wl_server.Prelude.{
  ℕ, suc, ◌+◌, Bool, true, false, ◌&&◌, List, [], ◌∷◌, ◌++◌, Option, none, some, ◌==◌,
  if◌then◌else◌, contains, take, length, map,
}

pub record PlaneIn : Type 0 where
  pub file : Option (ℕ × ℕ)
  pub dup : Option ℕ
  pub offset : ℕ
  pub stride : ℕ

-- One plane of an `IhsFrame`.
pub record Plane : Type 0 where
  pub fd : ℕ
  pub offset : ℕ
  pub stride : ℕ

abbrev pub File : Type 0
File = ℕ × ℕ × ℕ

-- The fd that already stands for the file.
unfoldable pub same_file : Option (ℕ × ℕ) → List File → Option ℕ
same_file none files = none
same_file (some id) [] = none
same_file (some (dev, ino)) ((d, n, raw) ∷ files) =
    if d == dev && n == ino then some raw else same_file (some (dev, ino)) files

abbrev pub add_file : Option (ℕ × ℕ) → ℕ → List File → List File
add_file none raw files = files
add_file (some (dev, ino)) raw files = files ++ (dev, ino, raw) ∷ []

-- The fds that `close_frame` closes: each of the planes' once. `closed` are those closed so far.
unfoldable pub close_from : List ℕ → List Plane → List ℕ
close_from closed [] = []
close_from closed (p ∷ ps) =
    let rest = close_from (closed ++ p.fd ∷ []) ps in
    if contains closed p.fd then close_from closed ps else p.fd ∷ rest

unfoldable pub close_frame : List Plane → List ℕ
close_frame ps = close_from [] ps

-- The dups that were made, and the frame's planes or, after a failed dup, the fds closed again.
pub data Outcome : Type 0 where
  frame : List Plane → Outcome
  failed : (closed : List ℕ) → Outcome

pub record Result : Type 0 where
  pub dups : List ℕ
  pub outcome : Outcome

abbrev plane : ℕ → PlaneIn → Plane
plane raw p = record { fd = raw; offset = p.offset; stride = p.stride }

-- The loop over the planes, with the planes filled in so far, the files seen, and the dups made.
unfoldable pub fill : List PlaneIn → List Plane → List File → List ℕ → Result
fill [] done files dups = record { dups = dups; outcome = frame done }
fill (p ∷ ps) done files dups = elim (same_file p.file files) [
  | some raw ↦ fill ps (done ++ plane raw p ∷ []) files dups
  | none ↦ elim p.dup [
    | some raw ↦ fill ps (done ++ plane raw p ∷ []) (add_file p.file raw files) (dups ++ raw ∷ [])
    | none ↦ record { dups = dups; outcome = failed (close_frame done) }
  ]
]

-- The shell takes four planes at most.
unfoldable pub frame_for : List PlaneIn → Result
frame_for ps = fill (take 4 ps) [] [] []
