-- ===== src/Link/Disposed.antt =====
-- The dispose rule of src/view.rs: once `dispose` has returned, no call for the view is made.
use ihs_wl_server.Prelude.{◌≡◌, ◌≢◌, refl, Bool, true, false, Option, none, some, arith}
use ihs_wl_server.Link.Threads.{
  Holder, compositor, platform, Submitter, idle, locked, calling, Disposer, between, renegotiating,
  disposing, clearing, cleared, returned, World, created, Step, lock, call, give_up, finish,
  renegotiate, renegotiated, dispose, lock_dispose, clear, return, Reach, here, next,
}

abbrev pub owner : Submitter → Disposer → Option Holder
owner locked d = some compositor
owner calling d = some compositor
owner idle renegotiating = some platform
owner idle clearing = some platform
owner idle between = none
owner idle disposing = none
owner idle cleared = none
owner idle returned = none

abbrev pub linked : Disposer → Bool
linked cleared = false
linked returned = false
linked between = true
linked renegotiating = true
linked disposing = true
linked clearing = true

abbrev pub holds_lock : Disposer → Bool
holds_lock renegotiating = true
holds_lock clearing = true
holds_lock between = false
holds_lock disposing = false
holds_lock cleared = false
holds_lock returned = false

-- The lock is held by the one thread that is past it, the link is there until it is cleared, and no call
-- is made without it.
pub record IsOrdered (w : World) : Type 0 where
  pub owned : w.holder ≡ owner w.submitter w.disposer
  pub alone : holds_lock w.disposer ≡ true → w.submitter ≡ idle
  pub there : w.link ≡ linked w.disposer
  pub live : w.submitter ≡ calling → w.link ≡ true

Step-IsOrdered : {u v : World} → Step u v → IsOrdered u → IsOrdered v
Step-IsOrdered (lock w a b) h = ground arith
Step-IsOrdered (call w a b) h = ground arith
Step-IsOrdered (give_up w a b) h = ground arith
Step-IsOrdered (finish w a) h = ground arith
Step-IsOrdered (renegotiate w a b) h = ground arith
Step-IsOrdered (renegotiated w a) h = ground arith
Step-IsOrdered (dispose w a) h = ground arith
Step-IsOrdered (lock_dispose w a b) h = ground arith
Step-IsOrdered (clear w a) h = ground arith
Step-IsOrdered (return w a) h = ground arith

pub Reach-IsOrdered : {u v : World} → IsOrdered u → Reach u v → IsOrdered v
Reach-IsOrdered h here = h
Reach-IsOrdered h (next r st) = Step-IsOrdered st (Reach-IsOrdered h r)

pub created-IsOrdered : IsOrdered created
created-IsOrdered = ground arith

-- No step gives a link that was cleared back.
Step-gone : {u v : World} → Step u v → u.link ≡ false → v.link ≡ false
Step-gone (lock w a b) e = e
Step-gone (call w a b) e = e
Step-gone (give_up w a b) e = e
Step-gone (finish w a) e = e
Step-gone (renegotiate w a b) e = e
Step-gone (renegotiated w a) e = e
Step-gone (dispose w a) e = e
Step-gone (lock_dispose w a b) e = e
Step-gone (clear w a) e = refl
Step-gone (return w a) e = e

Reach-gone : {u v : World} → u.link ≡ false → Reach u v → v.link ≡ false
Reach-gone e here = e
Reach-gone e (next r st) = Step-gone st (Reach-gone e r)

pub Reach-trans : {u v w : World} → Reach u v → Reach v w → Reach u w
Reach-trans r here = r
Reach-trans r (next q st) = next (Reach-trans r q) st

-- However the two threads interleave: once `dispose` has returned, the compositor thread is in no call of
-- the shell for the view, and never will be again.
pub dispose_rule :
    {w v : World} → Reach created w → w.disposer ≡ returned → Reach w v → v.submitter ≢ calling
dispose_rule {w} {v} r done later e =
    let h = Reach-IsOrdered created-IsOrdered r in
    let h' = Reach-IsOrdered created-IsOrdered (Reach-trans r later) in
    let gone : w.link ≡ false = ground (arith, h.there, done) in
    let still : v.link ≡ false = Reach-gone gone later in ground (arith, still, h'.live e)
