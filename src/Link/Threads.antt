-- ===== src/Link/Threads.antt =====
-- The lock on a view's link in src/view.rs, held by the compositor thread over each call of the shell in
-- src/submit.rs, and by the platform thread in on_renegotiate and on_dispose.
use ihs_wl_server.Prelude.{◌≡◌, Bool, true, false, Option, none, some}

pub data Holder : Type 0 where
  compositor platform : Holder

-- The compositor thread: between calls, with the lock, or in a call that it makes with the lock.
pub data Submitter : Type 0 where
  idle locked calling : Submitter

-- The platform thread: between callbacks, in on_renegotiate, or in on_dispose: not yet with the lock, with
-- it, with the link cleared and the lock given back, and returned.
pub data Disposer : Type 0 where
  between renegotiating disposing clearing cleared returned : Disposer

-- Whether the link is there.
pub record World : Type 0 where
  pub link : Bool
  pub holder : Option Holder
  pub submitter : Submitter
  pub disposer : Disposer

abbrev pub created : World
created = record { link = true; holder = none; submitter = idle; disposer = between }

pub data Step : World → World → Type 0 where
  lock :
      (w : World)
      → w.submitter ≡ idle
      → w.holder ≡ none
      → Step w (record w { submitter = locked; holder = some compositor })
  call :
      (w : World) → w.submitter ≡ locked → w.link ≡ true → Step w (record w { submitter = calling })
  give_up :
      (w : World)
      → w.submitter ≡ locked
      → w.link ≡ false
      → Step w (record w { submitter = idle; holder = none })
  finish :
      (w : World) → w.submitter ≡ calling → Step w (record w { submitter = idle; holder = none })
  renegotiate :
      (w : World)
      → w.disposer ≡ between
      → w.holder ≡ none
      → Step w (record w { disposer = renegotiating; holder = some platform })
  renegotiated :
      (w : World)
      → w.disposer ≡ renegotiating
      → Step w (record w { disposer = between; holder = none })
  dispose : (w : World) → w.disposer ≡ between → Step w (record w { disposer = disposing })
  lock_dispose :
      (w : World)
      → w.disposer ≡ disposing
      → w.holder ≡ none
      → Step w (record w { disposer = clearing; holder = some platform })
  clear :
      (w : World)
      → w.disposer ≡ clearing
      → Step w (record w { disposer = cleared; link = false; holder = none })
  return : (w : World) → w.disposer ≡ cleared → Step w (record w { disposer = returned })

pub data Reach (w : World) : World → Type 0 where
  here : Reach w w
  next : {u v : World} → Reach w u → Step u v → Reach w v
